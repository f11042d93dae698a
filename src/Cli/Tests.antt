-- ===== src/Cli/Tests.antt =====
-- The theorems of the command line client on concrete lines.
use olricdb.Prelude.{◌≡◌, refl, none, [], ◌∷◌, ◌++◌, Text}
use olricdb.Cli.{has_byte, trim_left, trim_space, read_line, word_put}
use olricdb.Cli.Parse.{read_line_lost_key}

-- "key", "tu" and "5"
abbrev key : Text
key = 107 ∷ 101 ∷ 121 ∷ []

abbrev letters : Text
letters = 116 ∷ 117 ∷ []

abbrev five : Text
five = 53 ∷ []

trimmed_put :
    trim_space (word_put ++ (letters ++ (32 ∷ five))) ≡ word_put ++ (letters ++ (32 ∷ five))
unfolding trim_space trim_left has_byte
trimmed_put = refl

trimmed_five : trim_space (word_put ++ five) ≡ word_put ++ five
unfolding trim_space trim_left has_byte
trimmed_five = refl

read_line_lost_key_example :
    read_line (λ t. none) key (word_put ++ (letters ++ (32 ∷ five)))
    ≡ read_line (λ t. none) key (word_put ++ five)
unfolding has_byte
read_line_lost_key_example =
    read_line_lost_key (λ t. none) key letters five refl trimmed_put trimmed_five (refl, (refl, tt))
