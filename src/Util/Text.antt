-- ===== src/Util/Text.antt =====
-- What the SDK uses of the standard library's `strings`, on bytes.
use app_functions_sdk_go.Prelude.{
  ap, Bool-cases, inl, inr, [], ◌∷◌, true, false, ◌++◌, ◌==◌, ◌||◌, Str, Bool, ℕ, List, is_empty,
  if◌then◌else◌, has_prefix, drop, length, ◌≡◌, refl, arith, any, map,
}

abbrev on_first : ℕ → List Str → List Str
on_first c [] = (c ∷ []) ∷ []
on_first c (s ∷ parts) = (c ∷ s) ∷ parts

-- `strings.Split`, with a separator of one byte.
unfoldable pub split : ℕ → Str → List Str
split sep [] = [] ∷ []
split sep (c ∷ s) = let rest = split sep s in if c == sep then [] ∷ rest else on_first c rest

-- `strings.Contains`, the substring first.
unfoldable pub contains : Str → Str → Bool
contains sub [] = is_empty sub
contains sub (c ∷ s) = has_prefix sub (c ∷ s) || contains sub s

-- `strings.Replace`, with the count 1.
unfoldable pub replace_first : Str → Str → Str → Str
replace_first old new [] = if is_empty old then new else []
replace_first old new (c ∷ s) =
    let rest = replace_first old new s in
    if has_prefix old (c ∷ s) then new ++ drop (length old) (c ∷ s) else c ∷ rest

-- `strings.Replace` of every occurrence of one byte.
unfoldable pub replace_byte : ℕ → ℕ → Str → Str
replace_byte old new s = map (λ c. if c == old then new else c) s

-- The byte is somewhere in the string.
abbrev pub has_byte : ℕ → Str → Bool
has_byte sep s = any (λ c. c == sep) s

on_first-cons :
    (c : ℕ) (parts : List Str)
    → (part : Str) × (others : List Str) × (on_first c parts ≡ part ∷ others)
on_first-cons c [] = (c ∷ [], [], refl)
on_first-cons c (s ∷ parts) = (c ∷ s, parts, refl)

-- There is always a first part.
pub split-cons :
    (sep : ℕ) (s : Str) → (part : Str) × (others : List Str) × (split sep s ≡ part ∷ others)
unfolding split
split-cons sep [] = ([], [], refl)
split-cons sep (c ∷ s) = elim (Bool-cases (c == sep)) [
  | inl h ↦ ([], split sep s, rw h refl)
  | inr h ↦ let (part, others, e) = on_first-cons c (split sep s) in (part, others, rw h e)
]

-- A string with the separator has at least two parts.
pub split-several :
    (sep : ℕ) (s : Str)
    → has_byte sep s ≡ true
    → (a b : Str) × (more : List Str) × (split sep s ≡ a ∷ b ∷ more)
unfolding split
split-several sep [] h = absurd (cc h)
split-several sep (c ∷ s) h = elim (Bool-cases (c == sep)) [
  | inl e ↦
      let (part, others, parts) = split-cons sep s in
      ([], part, others, rw e (ap (λ ps. [] ∷ ps) parts))
  | inr e ↦
      let (a, b, more, parts) = split-several sep s (rw e at h) in
      (c ∷ a, b, more, rw e (ap (on_first c) parts))
]

pub split-whole : (sep : ℕ) (s : Str) → has_byte sep s ≡ false → split sep s ≡ s ∷ []
unfolding split
split-whole sep [] h = refl
split-whole sep (c ∷ s) h = ground (arith, split-whole sep s)

pub split-first :
    (sep : ℕ) (s rest : Str)
    → has_byte sep s ≡ false
    → split sep (s ++ (sep ∷ rest)) ≡ s ∷ split sep rest
unfolding split
split-first sep [] rest h = ground arith
split-first sep (c ∷ s) rest h = ground (arith, split-first sep s rest)

has_prefix-append : (prefix s : Str) → has_prefix prefix (prefix ++ s) ≡ true
has_prefix-append [] s = refl
has_prefix-append (c ∷ prefix) s = ground (arith, has_prefix-append prefix s)

pub contains-append : (sub s : Str) → contains sub (sub ++ s) ≡ true
unfolding contains
contains-append [] [] = refl
contains-append [] (c ∷ s) = refl
contains-append (d ∷ sub) s = ground (arith, has_prefix-append (d ∷ sub) s)
