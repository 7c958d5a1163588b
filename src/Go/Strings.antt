-- ===== src/Go/Strings.antt =====
-- Go's package strings over native texts.
pub mod Trim
pub mod Sets
pub mod Splits
pub mod Numbers
use Prim.Native.Char.{Char, code}
use Prim.Native.String.{◌++◌ as cat, compare}
use text.Mathlib.Text.{find?, is_lt, starts_with}
use open_agentic_threat_defe.Go.Runtime.{Platform}
use open_agentic_threat_defe.Prelude.{
  Bool, List, Option, String, [], any, false, if◌then◌else◌, is_some, ltb, nat_eq, none, some, sort,
  suc, true, zero, ℕ, ◌%◌, ◌++◌, ◌/◌, ◌==◌, ◌||◌, ◌∷◌,
}

-- A character in front of a text that is trimmed on the right: a space before nothing goes too.
pub push_right : Bool → Char → String → String
push_right true c String.[] = ""
push_right false c String.[] = String.◌∷◌ c ""
push_right space c (String.◌∷◌ d s) = String.◌∷◌ c (String.◌∷◌ d s)

module _ ⦃p : Platform⦄ where
  unfoldable pub trim_left : String → String
  trim_left String.[] = ""
  trim_left (String.◌∷◌ c s) = if p.is_space c then trim_left s else String.◌∷◌ c s

  unfoldable pub trim_right : String → String
  unfolding push_right
  trim_right String.[] = ""
  trim_right (String.◌∷◌ c s) = push_right (p.is_space c) c (trim_right s)

  -- strings.TrimSpace
  unfoldable pub trim_space : String → String
  unfolding trim_left trim_right
  trim_space s = trim_right (trim_left s)

  -- strings.ToLower
  unfoldable pub lower : String → String
  lower String.[] = ""
  lower (String.◌∷◌ c s) = String.◌∷◌ (p.lower_char c) (lower s)

-- The characters that pass the test.
unfoldable pub keep_chars : (Char → Bool) → String → String
keep_chars f String.[] = ""
keep_chars f (String.◌∷◌ c s) = let rest = keep_chars f s in if f c then String.◌∷◌ c rest else rest

-- What strings.FieldsFunc has read of a field is put before the fields that follow.
flush : String → List String → List String
flush word rest = if word == "" then rest else word ∷ rest

fields_from : (Char → Bool) → String → String → List String
unfolding flush
fields_from sep word String.[] = flush word []
fields_from sep word (String.◌∷◌ c s) =
    let more = fields_from sep (cat word (String.◌∷◌ c "")) s in
    let next = flush word (fields_from sep "" s) in if sep c then next else more

-- strings.FieldsFunc: the longest runs of characters that are no separators
unfoldable pub fields_func : (Char → Bool) → String → List String
unfolding fields_from
fields_func sep s = fields_from sep "" s

-- strings.Join
unfoldable pub join_with : String → List String → String
join_with sep [] = ""
join_with sep (x ∷ []) = x
join_with sep (x ∷ y ∷ xs) = cat x (cat sep (join_with sep (y ∷ xs)))

abbrev pub join : String → String → String
join = cat

unfoldable pub digit_char : ℕ → String
digit_char n =
    if nat_eq n 0
    then "0"
    else if nat_eq n 1
    then "1"
    else if nat_eq n 2
    then "2"
    else if nat_eq n 3
    then "3"
    else if nat_eq n 4
    then "4"
    else if nat_eq n 5
    then "5"
    else if nat_eq n 6
    then "6"
    else if nat_eq n 7
    then "7"
    else if nat_eq n 8
    then "8"
    else "9"

unfoldable pub itoa_fuel : ℕ → ℕ → String
unfolding digit_char
itoa_fuel zero n = ""
itoa_fuel (suc f) n =
    let front = itoa_fuel f (n / 10) in
    if ltb n 10 then digit_char n else cat front (digit_char (n % 10))

-- %d of a number that is not negative; n + 1 digits are always enough
unfoldable pub itoa : ℕ → String
unfolding itoa_fuel
itoa n = itoa_fuel (suc n) n

-- strings.Contains, strings.HasPrefix, strings.HasSuffix
unfoldable pub contains : String → String → Bool
contains s t = is_some (find? s t)

unfoldable pub has_prefix : String → String → Bool
has_prefix s t = starts_with s t

unfoldable pub has_suffix : String → String → Bool
has_suffix String.[] t = t == ""
has_suffix (String.◌∷◌ c s) t = String.◌∷◌ c s == t || has_suffix s t

-- The text before the first occurrence of a one-byte separator.
unfoldable pub text_before : Char → String → String
text_before d String.[] = ""
text_before d (String.◌∷◌ c s) =
    if nat_eq (code c) (code d) then "" else String.◌∷◌ c (text_before d s)

-- strings.Map
unfoldable pub map_chars : (Char → Char) → String → String
map_chars f String.[] = ""
map_chars f (String.◌∷◌ c s) = String.◌∷◌ (f c) (map_chars f s)

-- strings.Trim, for a set of characters
unfoldable pub strip_left : (Char → Bool) → String → String
strip_left f String.[] = ""
strip_left f (String.◌∷◌ c s) = if f c then strip_left f s else String.◌∷◌ c s

unfoldable pub strip_right : (Char → Bool) → String → String
unfolding push_right
strip_right f String.[] = ""
strip_right f (String.◌∷◌ c s) = push_right (f c) c (strip_right f s)

unfoldable pub strip : (Char → Bool) → String → String
unfolding strip_left strip_right
strip f s = strip_right f (strip_left f s)

-- A character in front of the first of a list of texts.
push_first : Char → List String → List String
push_first c [] = String.◌∷◌ c "" ∷ []
push_first c (w ∷ ws) = String.◌∷◌ c w ∷ ws

-- strings.Split with a separator of one character
unfoldable pub split_on : Char → String → List String
unfolding push_first
split_on d String.[] = "" ∷ []
split_on d (String.◌∷◌ c s) =
    let rest = split_on d s in if nat_eq (code c) (code d) then "" ∷ rest else push_first c rest

-- strings.SplitN with such a separator and a count of 2: the text before it and all the text after,
-- `none` where the separator does not occur.
unfoldable pub cut_at : Char → String → Option (String × String)
cut_at d String.[] = none
cut_at d (String.◌∷◌ c s) =
    let rest = cut_at d s in
    if nat_eq (code c) (code d)
    then some ("", s)
    else elim rest [ none ↦ none | some (a, b) ↦ some (String.◌∷◌ c a, b) ]

-- s[n:]
unfoldable pub drop_chars : ℕ → String → String
drop_chars zero s = s
drop_chars (suc n) String.[] = ""
drop_chars (suc n) (String.◌∷◌ c s) = drop_chars n s

-- A text is one of a list's: a set of texts, or the loop that looks for one.
abbrev pub elem : String → List String → Bool
elem x = any (λ y. y == x)

abbrev pub contains_any_text : String → List String → Bool
contains_any_text s = any (contains s)

-- sort.Strings
abbrev pub sort_texts : List String → List String
sort_texts = sort (λ a b. is_lt (compare a b))

-- append(values, value) for a text that is not there yet
abbrev pub add_text : List String → String → List String
add_text values value = if elem value values then values else values ++ value ∷ []

-- A text, or another where it is empty.
abbrev pub or_text : String → String → String
or_text s t = if s == "" then t else s
