-- ===== src/Cli.antt =====
-- cmd/olric-cli/cli/cli.go: what the command line client makes of a line. The terminal is left out.
pub mod Parse
mod Tests
use olricdb.Prelude.{
  ℕ, ◌+◌, ◌-◌, ◌*◌, ◌^◌, ◌%◌, Bool, true, false, not, ◌&&◌, ◌||◌, Option, none, some, List, [], ◌∷◌,
  ◌++◌, reverse, drop, length, leb, ltb, ◌==◌, if◌then◌else◌, Text,
}

-- strings.HasPrefix
unfoldable pub has_prefix : Text → Text → Bool
has_prefix [] s = true
has_prefix (b ∷ bs) [] = false
has_prefix (b ∷ bs) (c ∷ s) = (b == c) && has_prefix bs s

unfoldable pub has_byte : ℕ → Text → Bool
has_byte b [] = false
has_byte b (c ∷ cs) = (b == c) || has_byte b cs

-- strings.TrimLeft with an ASCII cutset.
unfoldable pub trim_left : Text → Text → Text
unfolding has_byte
trim_left cutset [] = []
trim_left cutset (b ∷ s) =
    let rest = trim_left cutset s in if has_byte b cutset then rest else b ∷ s

-- The white space of ASCII.
abbrev pub spaces : Text
spaces = 32 ∷ 9 ∷ 10 ∷ 11 ∷ 12 ∷ 13 ∷ []

-- strings.TrimSpace, on lines whose white space is ASCII.
unfoldable pub trim_space : Text → Text
unfolding trim_left
trim_space s = reverse (trim_left spaces (reverse (trim_left spaces s)))

-- strings.Trim with a space.
unfoldable pub trim_blanks : Text → Text
unfolding trim_left
trim_blanks s = reverse (trim_left (32 ∷ []) (reverse (trim_left (32 ∷ []) s)))

-- The text before the first `sep`: the head of strings.Split.
unfoldable pub before_first : Text → Text → Text
unfolding has_prefix
before_first sep [] = []
before_first sep (b ∷ s) =
    let rest = before_first sep s in if has_prefix sep (b ∷ s) then [] else b ∷ rest

abbrev pub quote : ℕ
quote = 34

-- The bytes up to a byte, if it is there, and what follows it: strings.SplitN with 2.
unfoldable pub cut : ℕ → Text → Option (Text × Text)
cut b [] = none
cut b (c ∷ s) =
    let rest = cut b s in
    if b == c then some ([], s) else elim rest [ none ↦ none | some p ↦ some (c ∷ p.0, p.1) ]

-- The match of `"([^"]*)"`: between the first quote and the next.
unfoldable pub extract_key : Text → Option Text
unfolding cut
extract_key str = elim (cut quote str) [
  | none ↦ none
  | some p ↦ elim (cut quote p.1) [ none ↦ none | some q ↦ some q.0 ]
]

abbrev pub quoted : Text → Text
quoted key = quote ∷ (key ++ (quote ∷ []))

-- In the source the key of the quoted form is a variable of the inner block, and the outer one stays
-- empty.
unfoldable pub parse_trimmed : Text → Option (Text × Text)
unfolding extract_key before_first trim_space has_prefix cut
parse_trimmed tmp =
    if has_prefix (quote ∷ []) tmp
    then elim (extract_key tmp) [
      | none ↦ none
      | some key ↦ some ([], trim_space (before_first (quoted key) tmp))
    ]
    else cut 32 tmp

unfoldable pub parse_line : Text → Option (Text × Text)
unfolding parse_trimmed trim_space
parse_line tmp = parse_trimmed (trim_space tmp)

-- What a line comes to. The calls are those of the client's DMap.
pub data Reply : Type 0 where
  quits refused destroys : Reply
  uses : Text → Reply
  puts : Text → Text → Reply
  puts_ex : Text → Text → ℕ → Reply
  gets deletes : Text → Reply
  incrs decrs : Text → ℕ → Reply

unfoldable pub decimal : ℕ → Text → Option ℕ
decimal acc [] = some acc
decimal acc (b ∷ s) =
    let rest = decimal (acc * 10 + (b - 48)) s in if leb 48 b && leb b 57 then rest else none

-- The bit pattern of an int64 in its range.
unfoldable pub in_range : Bool → Option ℕ → Option ℕ
in_range negative none = none
in_range true (some v) = if leb v (2 ^ 63) then some ((2 ^ 64 - v) % 2 ^ 64) else none
in_range false (some v) = if ltb v (2 ^ 63) then some v else none

unfoldable pub decimal_some : Text → Option ℕ
unfolding decimal
decimal_some [] = none
decimal_some (b ∷ s) = decimal 0 (b ∷ s)

-- strconv.Atoi
unfoldable pub atoi : Text → Option ℕ
unfolding in_range decimal_some
atoi [] = none
atoi (b ∷ s) =
    if b == 45
    then in_range true (decimal_some s)
    else if b == 43
    then in_range false (decimal_some s)
    else in_range false (decimal_some (b ∷ s))

-- "exit", "use ", "use", "put ", "putex ", "get ", "delete ", "destroy", "incr ", "decr "
abbrev pub word_exit : Text
word_exit = 101 ∷ 120 ∷ 105 ∷ 116 ∷ []

abbrev pub word_use : Text
word_use = 117 ∷ 115 ∷ 101 ∷ []

abbrev pub word_put : Text
word_put = 112 ∷ 117 ∷ 116 ∷ 32 ∷ []

abbrev pub word_putex : Text
word_putex = 112 ∷ 117 ∷ 116 ∷ 101 ∷ 120 ∷ 32 ∷ []

abbrev pub word_get : Text
word_get = 103 ∷ 101 ∷ 116 ∷ 32 ∷ []

abbrev pub word_delete : Text
word_delete = 100 ∷ 101 ∷ 108 ∷ 101 ∷ 116 ∷ 101 ∷ 32 ∷ []

abbrev pub word_destroy : Text
word_destroy = 100 ∷ 101 ∷ 115 ∷ 116 ∷ 114 ∷ 111 ∷ 121 ∷ []

abbrev pub word_incr : Text
word_incr = 105 ∷ 110 ∷ 99 ∷ 114 ∷ 32 ∷ []

abbrev pub word_decr : Text
word_decr = 100 ∷ 101 ∷ 99 ∷ 114 ∷ 32 ∷ []

-- The quoted form of a name, or the name itself.
unfoldable pub unquoted : (Text → Reply) → Text → Reply
unfolding extract_key has_prefix
unquoted reply key =
    if has_prefix (quote ∷ []) key
    then elim (extract_key key) [ none ↦ refused | some k ↦ reply k ]
    else reply key

-- The name after "use", up to the next "use".
unfoldable pub use_line : Text → Reply
unfolding unquoted before_first trim_blanks
use_line line = unquoted uses (trim_blanks (before_first word_use (drop 3 line)))

unfoldable pub put_line : Text → Reply
unfolding parse_line trim_left trim_space
put_line line = elim (parse_line (trim_space (trim_left word_put line))) [
  | none ↦ refused
  | some p ↦ puts p.0 p.1
]

module _ (parse_duration : Text → Option ℕ) where
  -- The duration, and the value after it.
  unfoldable pub timed_value : Text → Option (Text × Text) → Reply
  timed_value key none = refused
  timed_value key (some p) = elim (parse_duration p.0) [
    | none ↦ refused
    | some ttl ↦ puts_ex key p.1 ttl
  ]

  unfoldable pub putex_trimmed : Text → Reply
  unfolding timed_value extract_key before_first trim_space has_prefix cut
  putex_trimmed tmp =
      if has_prefix (quote ∷ []) tmp
      then elim (extract_key tmp) [
        | none ↦ refused
        | some key ↦ timed_value key (cut 32 (trim_space (before_first (quoted key) tmp)))
      ]
      else elim (cut 32 tmp) [ none ↦ refused | some p ↦ timed_value p.0 (cut 32 (trim_space p.1)) ]

  unfoldable pub delta_line : (Text → ℕ → Reply) → Text → Reply
  unfolding parse_line atoi
  delta_line reply tmp = elim (parse_line tmp) [
    | none ↦ refused
    | some p ↦ elim (atoi p.1) [ none ↦ refused | some delta ↦ reply p.0 delta ]
  ]

  -- The commands on a DMap.
  unfoldable pub command : Text → Reply
  unfolding has_prefix put_line putex_trimmed unquoted delta_line trim_left trim_space
  command line =
      if has_prefix word_put line
      then put_line line
      else if has_prefix word_putex line
      then putex_trimmed (trim_space (trim_left word_putex line))
      else if has_prefix word_get line
      then unquoted gets (trim_left word_get line)
      else if has_prefix word_delete line
      then unquoted deletes (trim_left word_delete line)
      else if has_prefix word_destroy line
      then destroys
      else if has_prefix word_incr line
      then delta_line incrs (trim_left word_incr line)
      else if has_prefix word_decr line
      then delta_line decrs (trim_left word_decr line)
      else refused

  unfoldable pub trimmed_line : Text → Text → Reply
  unfolding has_prefix use_line command
  trimmed_line dmap line =
      if has_prefix word_exit line
      then quits
      else if has_prefix (word_use ++ (32 ∷ [])) line
      then use_line line
      else if length dmap == 0
      then refused
      else command line

  -- One turn of the loop of `Start`, with the DMap in use.
  unfoldable pub read_line : Text → Text → Reply
  unfolding trimmed_line trim_space
  read_line dmap line = trimmed_line dmap (trim_space line)
