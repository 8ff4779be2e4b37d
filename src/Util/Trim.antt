-- ===== src/Util/Trim.antt =====
-- pkg/util/helpers.go: what `DeleteEmptyAndTrim` leaves.
use app_functions_sdk_go.Prelude.{
  inr, ◌&&◌, inl, is_empty, ℕ, ◌∙◌, ap, Bool-cases, All, refl, [], ◌∷◌, false, ◌≡◌, Str, List,
}
use app_functions_sdk_go.Util.{trim_right, trim_left, trim_space, delete_empty_and_trim, is_space}

-- The first character is no space.
abbrev Starts : Str → Type 0
Starts [] = Unit
Starts (c ∷ s) = is_space c ≡ false

trim_left-Starts : (s : Str) → Starts s → trim_left s ≡ s
unfolding trim_left
trim_left-Starts [] h = refl
trim_left-Starts (c ∷ s) h = rw h refl

Starts-trim_left : (s : Str) → Starts (trim_left s)
unfolding trim_left
Starts-trim_left [] = tt
Starts-trim_left (c ∷ s) = elim (Bool-cases (is_space c)) [
  | inl e ↦ rw e (Starts-trim_left s)
  | inr e ↦ rw e e
]

-- The text ends without a space.
abbrev Ends : Str → Type 0
Ends s = trim_right s ≡ s

Ends-trim_right : (s : Str) → Ends (trim_right s)
unfolding trim_right
Ends-trim_right [] = refl
Ends-trim_right (c ∷ s) = elim (Bool-cases (is_space c && is_empty (trim_right s))) [
  | inl e ↦ rw e refl
  | inr e ↦ rw (e, Ends-trim_right s, e) refl
]

-- The text after the first character of a text that ends without a space.
Ends-tail : (c : ℕ) (s : Str) → Ends (c ∷ s) → Ends s
unfolding trim_right
Ends-tail c s h = elim (Bool-cases (is_space c && is_empty (trim_right s))) [
  | inl e ↦ cc (h, e)
  | inr e ↦ cc (h, e)
]

Ends-trim_left : (s : Str) → Ends s → Ends (trim_left s)
unfolding trim_left
Ends-trim_left [] h = h
Ends-trim_left (c ∷ s) h = elim (Bool-cases (is_space c)) [
  | inl e ↦ rw e (Ends-trim_left s (Ends-tail c s h))
  | inr e ↦ rw e h
]

trim_space-trim_space : (s : Str) → trim_space (trim_space s) ≡ trim_space s
unfolding trim_space
trim_space-trim_space s =
    ap trim_left (Ends-trim_left (trim_right s) (Ends-trim_right s))
    ∙ trim_left-Starts (trim_left (trim_right s)) (Starts-trim_left (trim_right s))

-- Each text that `DeleteEmptyAndTrim` leaves is not empty, and trimming it again changes nothing.
pub delete_empty_and_trim-trimmed :
    (strings : List Str)
    → All (λ s. (is_empty s ≡ false) × (trim_space s ≡ s)) (delete_empty_and_trim strings)
unfolding delete_empty_and_trim
delete_empty_and_trim-trimmed [] = tt
delete_empty_and_trim-trimmed (s ∷ strings) = elim (Bool-cases (is_empty (trim_space s))) [
  | inl e ↦ rw e (delete_empty_and_trim-trimmed strings)
  | inr e ↦ rw e ((e, trim_space-trim_space s), delete_empty_and_trim-trimmed strings)
]
