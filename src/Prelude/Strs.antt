-- ===== src/Prelude/Strs.antt =====
-- Go strings and byte slices: both are sequences of bytes.
use Prim.Native.Char.{code}
use Prim.Native.String.{String}
use Prim.Native.Nat.{ℕ}
use mathlib.Core.Path.{◌≡◌, refl, ap}
use mathlib.Core.Logic.{◌↔◌, ◌≢◌}
use mathlib.Core.Bool.{Bool, true, false, ◌&&◌}
use mathlib.Core.List.{List, [], ◌∷◌}
use native.Mathlib.Omega.{arith}
use app_functions_sdk_go.Prelude.Tests.{◌==◌}

abbrev pub Str : Type 0
Str = List ℕ

abbrev pub Bytes : Type 0
Bytes = List ℕ

-- The bytes of a literal of the source, all of them ASCII.
unfoldable pub str : String → Str
str String.[] = []
str (String.◌∷◌ c s) = code c ∷ str s

infix 50 ◌===◌
-- `==` of two Go strings.
unfoldable pub ◌===◌ : Str → Str → Bool
[] === [] = true
[] === (y ∷ ys) = false
(x ∷ xs) === [] = false
(x ∷ xs) === (y ∷ ys) = (x == y) && (xs === ys)

pub ===_eq : (s t : Str) → (s === t) ≡ true → s ≡ t
unfolding ◌===◌
===_eq [] [] h = refl
===_eq [] (y ∷ ys) h = cc
===_eq (x ∷ xs) [] h = cc
===_eq (x ∷ xs) (y ∷ ys) h = ground (arith, ===_eq xs ys)

pub ===_refl : (s : Str) → (s === s) ≡ true
unfolding ◌===◌
===_refl [] = refl
===_refl (x ∷ xs) = ground (arith, ===_refl xs)

pub ===_iff : (s t : Str) → ((s === t) ≡ true) ↔ (s ≡ t)
===_iff s t = (===_eq s t, λ p. ground (arith, ===_refl s))

-- `s == ""` and `len(s) == 0`
abbrev pub is_empty {ℓ} : {A : Type ℓ} → List A → Bool
is_empty [] = true
is_empty (_ ∷ _) = false

pub eq-nil_of_is_empty {ℓ} : {A : Type ℓ} (l : List A) → is_empty l ≡ true → l ≡ []
eq-nil_of_is_empty [] h = refl
eq-nil_of_is_empty (x ∷ l) h = cc

pub ne-nil_of_is_empty {ℓ} : {A : Type ℓ} (l : List A) → is_empty l ≡ false → l ≢ []
ne-nil_of_is_empty l h e = cc (ap is_empty e)

pub is_empty_of_ne-nil {ℓ} : {A : Type ℓ} (l : List A) → l ≢ [] → is_empty l ≡ false
is_empty_of_ne-nil [] h = absurd (h refl)
is_empty_of_ne-nil (x ∷ l) h = refl

-- `strings.HasPrefix`, the prefix first.
abbrev pub has_prefix : Str → Str → Bool
has_prefix [] s = true
has_prefix (c ∷ prefix) [] = false
has_prefix (c ∷ prefix) (d ∷ s) = (c == d) && has_prefix prefix s
