-- ===== src/Security/Text.antt =====
-- The searches and splits of byte strings that security/origin.cpp and security/csp_enforcer.cpp
-- make. A search that finds nothing is `none`, and one that finds a place gives what stands before
-- and behind it.
use malibu.Common.{
  Bool, List, Option, [], drop, false, if◌then◌else◌, leb, listed, ltb, map, none, some, suc, true,
  zero, ℕ, ◌%◌, ◌&&◌, ◌*◌, ◌++◌, ◌+◌, ◌-◌, ◌/◌, ◌==◌, ◌^◌, ◌||◌, ◌∷◌,
}
use malibu.Common.Bytes.{codes}
use malibu.Dom.Creation.{to_lower}

abbrev pub lower : List ℕ → List ℕ
lower = map to_lower

abbrev pub starts_with : List ℕ → List ℕ → Bool
starts_with [] s = true
starts_with (p ∷ ps) [] = false
starts_with (p ∷ ps) (c ∷ cs) = (p == c) && starts_with ps cs

abbrev pub with_head : ℕ → Option (List ℕ × List ℕ) → Option (List ℕ × List ℕ)
with_head x none = none
with_head x (some (a, b)) = some (x ∷ a, b)

-- `find("://")`.
abbrev pub split_separator : List ℕ → Option (List ℕ × List ℕ)
split_separator [] = none
split_separator (c ∷ cs) =
    if starts_with (codes "://") (c ∷ cs)
    then some ([], drop 3 (c ∷ cs))
    else with_head c (split_separator cs)

-- `rfind(c)`.
abbrev pub split_last : ℕ → List ℕ → Option (List ℕ × List ℕ)
split_last c [] = none
split_last c (x ∷ xs) = elim (split_last c xs) [
  | some (a, b) ↦ some (x ∷ a, b)
  | none ↦ if x == c then some ([], xs) else none
]

-- `substr(0, find_first_of("/?#"))`.
abbrev pub authority_of : List ℕ → List ℕ
authority_of [] = []
authority_of (c ∷ cs) = if listed c (codes "/?#") then [] else c ∷ authority_of cs

abbrev pub is_digit : ℕ → Bool
is_digit c = leb 48 c && leb c 57

abbrev pub all_digits : List ℕ → Bool
all_digits [] = true
all_digits (c ∷ cs) = is_digit c && all_digits cs

abbrev pub decimal : ℕ → List ℕ → ℕ
decimal acc [] = acc
decimal acc (c ∷ cs) = decimal (acc * 10 + (c - 48)) cs

-- `std::stol` on digits: `none` where it throws `std::out_of_range`, above the largest `long`.
unfoldable pub stol : List ℕ → Option ℕ
stol digits = if ltb (decimal 0 digits) (2 ^ 63) then some (decimal 0 digits) else none

-- `std::to_string`, on fuel: 20 digits are enough for a 64-bit word.
abbrev pub digits_of : ℕ → ℕ → List ℕ
digits_of zero n = []
digits_of (suc k) n = if ltb n 10 then (48 + n) ∷ [] else digits_of k (n / 10) ++ (48 + n % 10) ∷ []

abbrev pub to_string : ℕ → List ℕ
to_string n = digits_of 20 n

-- The pieces between the bytes `c`: `std::getline` with a delimiter.
abbrev pub cons_head : ℕ → List (List ℕ) → List (List ℕ)
cons_head x [] = (x ∷ []) ∷ []
cons_head x (p ∷ ps) = (x ∷ p) ∷ ps

abbrev pub split : ℕ → List ℕ → List (List ℕ)
split c [] = [] ∷ []
split c (x ∷ xs) = if x == c then [] ∷ split c xs else cons_head x (split c xs)

abbrev pub is_space : ℕ → Bool
is_space c = (c == 32) || (leb 9 c && leb c 13)

abbrev pub flush_word : List ℕ → List (List ℕ) → List (List ℕ)
flush_word [] ws = ws
flush_word (c ∷ cs) ws = (c ∷ cs) ∷ ws

-- `split_ws`: `word` is what of the present word was read.
abbrev pub words_from : List ℕ → List ℕ → List (List ℕ)
words_from word [] = flush_word word []
words_from word (c ∷ cs) =
    if is_space c then flush_word word (words_from [] cs) else words_from (word ++ c ∷ []) cs

abbrev pub split_ws : List ℕ → List (List ℕ)
split_ws s = words_from [] s
