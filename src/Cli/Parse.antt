-- ===== src/Cli/Parse.antt =====
-- Which keys and values the command line client takes from a line.
use olricdb.Prelude.{
  ℕ, ◌≡◌, refl, sym, ap, ◌∙◌, true, false, Option, none, some, [], ◌∷◌, ◌++◌, All, length, ◌==◌,
  ==_refl, Text,
}
use olricdb.Cli.{
  has_prefix, has_byte, trim_left, trim_space, before_first, quote, cut, extract_key, quoted,
  parse_trimmed, parse_line, put_line, command, trimmed_line, read_line, word_put, puts, Reply,
  refused,
}

-- A text without the byte `b`.
abbrev pub Without : ℕ → Text → Type 0
Without b s = All (λ c. (b == c) ≡ false) s

cut_at : (b : ℕ) (xs ys : Text) → Without b xs → cut b (xs ++ (b ∷ ys)) ≡ some (xs, ys)
unfolding cut
cut_at b [] ys w = rw (==_refl b) refl
cut_at b (x ∷ xs) ys w = rw (w.0, cut_at b xs ys w.1) refl

-- A line without surrounding white space, of a key without spaces that does not begin with a
-- quote, a space and a value, is taken apart into the key and the value.
pub parse_line_lem :
    (key value : Text)
    → trim_space (key ++ (32 ∷ value)) ≡ key ++ (32 ∷ value)
    → has_prefix (quote ∷ []) (key ++ (32 ∷ value)) ≡ false
    → Without 32 key
    → parse_line (key ++ (32 ∷ value)) ≡ some (key, value)
unfolding parse_line parse_trimmed
parse_line_lem key value trimmed plain w =
    ap parse_trimmed trimmed ∙ rw (plain, parse_trimmed) (cut_at 32 key value w)

has_prefix_append : (xs ys : Text) → has_prefix xs (xs ++ ys) ≡ true
unfolding has_prefix
has_prefix_append [] ys = refl
has_prefix_append (x ∷ xs) ys = rw (==_refl x) (has_prefix_append xs ys)

append_assoc : (xs ys zs : Text) → (xs ++ ys) ++ zs ≡ xs ++ (ys ++ zs)
append_assoc [] ys zs = refl
append_assoc (x ∷ xs) ys zs = ap (λ l. x ∷ l) (append_assoc xs ys zs)

-- A line without surrounding white space that begins with a quoted key, whatever follows it, is
-- taken apart into an empty key and an empty value.
pub parse_line-quoted :
    (key rest : Text)
    → trim_space (quoted key ++ rest) ≡ quoted key ++ rest
    → Without quote key
    → parse_line (quoted key ++ rest) ≡ some ([], [])
unfolding parse_line parse_trimmed extract_key before_first has_prefix trim_space trim_left cut
parse_line-quoted key rest trimmed w =
    ap parse_trimmed trimmed
    ∙ rw
        (
          closing,
          parse_trimmed,
          extract_key,
          has_prefix_append (key ++ (quote ∷ [])) rest,
          before_first,
        )
        refl
  where
    closing : cut quote ((key ++ (quote ∷ [])) ++ rest) ≡ some (key, rest)
    closing = ap (cut quote) (append_assoc key (quote ∷ []) rest) ∙ cut_at quote key rest w

trim_left-All :
    (cutset xs ys : Text)
    → All (λ c. has_byte c cutset ≡ true) xs
    → trim_left cutset (xs ++ ys) ≡ trim_left cutset ys
unfolding trim_left
trim_left-All cutset [] ys a = refl
trim_left-All cutset (x ∷ xs) ys a = rw a.0 (trim_left-All cutset xs ys a.1)

abbrev put_of : Option (Text × Text) → Reply
put_of o = elim o [ none ↦ refused | some p ↦ puts p.0 p.1 ]

put_line_at :
    (rest : Text)
    → put_line (word_put ++ rest) ≡ put_of (parse_line (trim_space (trim_left word_put rest)))
unfolding put_line trim_left has_byte
put_line_at rest = refl

trimmed_line_put :
    (parse_duration : Text → Option ℕ) (dmap rest : Text)
    → (length dmap == 0) ≡ false
    → trimmed_line parse_duration dmap (word_put ++ rest) ≡ put_line (word_put ++ rest)
unfolding trimmed_line command has_prefix
trimmed_line_put parse_duration dmap rest used = rw (used, trimmed_line) refl

-- On a DMap in use, a `put` line without surrounding white space, whose key is made of the letters
-- of "put" and spaces, means what the line means without that key.
pub read_line_lost_key :
    (parse_duration : Text → Option ℕ) (dmap key value : Text)
    → (length dmap == 0) ≡ false
    → trim_space (word_put ++ (key ++ (32 ∷ value))) ≡ word_put ++ (key ++ (32 ∷ value))
    → trim_space (word_put ++ value) ≡ word_put ++ value
    → All (λ c. has_byte c word_put ≡ true) key
    → read_line parse_duration dmap (word_put ++ (key ++ (32 ∷ value)))
      ≡ read_line parse_duration dmap (word_put ++ value)
unfolding read_line trim_left has_byte
read_line_lost_key parse_duration dmap key value used trimmed trimmed' a =
    ap (trimmed_line parse_duration dmap) trimmed
    ∙ trimmed_line_put parse_duration dmap (key ++ (32 ∷ value)) used
    ∙ put_line_at (key ++ (32 ∷ value))
    ∙ ap (λ t. put_of (parse_line (trim_space t))) (trim_left-All word_put key (32 ∷ value) a)
    ∙ sym (put_line_at value)
    ∙ sym (trimmed_line_put parse_duration dmap value used)
    ∙ sym (ap (trimmed_line parse_duration dmap) trimmed')
