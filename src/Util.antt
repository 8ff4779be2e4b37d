-- ===== src/Util.antt =====
-- pkg/util/helpers.go: `SplitComma` and `DeleteEmptyAndTrim`; and what the SDK uses of the
-- standard library's `strings` and `strconv`, on ASCII text.
pub mod Trim
pub mod Text
use app_functions_sdk_go.Prelude.{
  [], ◌∷◌, none, some, true, false, ◌++◌, ◌&&◌, ◌||◌, ◌==◌, leb, ltb, Str, Bool, ℕ, ℤ, pos, negsuc,
  Option, List, is_empty, if◌then◌else◌, str, ◌===◌, not, zero, suc, ◌+◌, ◌*◌, ◌-◌, max_int,
}

-- `unicode.IsSpace`: tab, line feed, vertical tab, form feed, carriage return and space.
unfoldable pub is_space : ℕ → Bool
is_space c = c == 32 || (leb 9 c && leb c 13)

pub trim_left : Str → Str
trim_left [] = []
trim_left (c ∷ s) = let rest = trim_left s in if is_space c then rest else c ∷ s

pub trim_right : Str → Str
trim_right [] = []
trim_right (c ∷ s) = let rest = trim_right s in if is_space c && is_empty rest then [] else c ∷ rest

-- `strings.TrimSpace`
unfoldable pub trim_space : Str → Str
unfolding trim_left trim_right
trim_space s = trim_left (trim_right s)

unfoldable pub split_comma : ℕ → Bool
split_comma c = c == 44

abbrev field : Str → List Str
field s = if is_empty s then [] else s ∷ []

-- `strings.FieldsFunc`, with what was read of the current field.
fields_from : (ℕ → Bool) → Str → Str → List Str
fields_from sep current [] = field current
fields_from sep current (c ∷ s) =
    let rest = fields_from sep (if sep c then [] else current ++ (c ∷ [])) s in
    if sep c then field current ++ rest else rest

unfoldable pub fields_func : Str → (ℕ → Bool) → List Str
unfolding fields_from
fields_func s sep = fields_from sep [] s

unfoldable pub delete_empty_and_trim : List Str → List Str
delete_empty_and_trim [] = []
delete_empty_and_trim (s ∷ strings) =
    let rest = delete_empty_and_trim strings in
    if is_empty (trim_space s) then rest else trim_space s ∷ rest

is_one_of : Str → List Str → Bool
is_one_of s [] = false
is_one_of s (t ∷ texts) = s === t || is_one_of s texts

-- `strconv.ParseBool`
unfoldable pub parse_bool : Str → Option Bool
unfolding is_one_of
parse_bool s =
    if is_one_of s (str "1" ∷ str "t" ∷ str "T" ∷ str "TRUE" ∷ str "true" ∷ str "True" ∷ [])
    then some true
    else if is_one_of s (str "0" ∷ str "f" ∷ str "F" ∷ str "FALSE" ∷ str "false" ∷ str "False" ∷ [])
    then some false
    else none

-- The number of decimal digits, from the value of those before.
digits : ℕ → Str → Option ℕ
digits value [] = some value
digits value (c ∷ s) =
    let rest = digits (10 * value + (c - 48)) s in if leb 48 c && leb c 57 then rest else none

unsigned : Str → Option ℕ
unfolding digits
unsigned s = if is_empty s then none else digits 0 s

positive : Option ℕ → Option ℤ
positive none = none
positive (some n) = if leb n max_int then some (pos n) else none

negative : Option ℕ → Option ℤ
negative none = none
negative (some zero) = some (pos 0)
negative (some (suc n)) = if leb n max_int then some (negsuc n) else none

-- `strconv.Atoi`
unfoldable pub atoi : Str → Option ℤ
unfolding unsigned positive negative
atoi [] = none
atoi (c ∷ s) =
    if c == 45
    then negative (unsigned s)
    else if c == 43
    then positive (unsigned s)
    else positive (unsigned (c ∷ s))
