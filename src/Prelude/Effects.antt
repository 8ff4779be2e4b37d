-- ===== src/Prelude/Effects.antt =====
-- Code that reads and writes the world outside the process (databases, brokers, other services)
-- and that may panic, as a monad: `W` is the state of that world.
use mathlib.Core.Path.{◌≡◌, refl, ◌∙◌, ap, fun_ext, subst}
use mathlib.Core.Bool.{Bool, true, false}
use app_functions_sdk_go.Prelude.Tests.{if◌then◌else◌}

-- How a Go call ends.
pub data Go {ℓ} (A : Type ℓ) : Type ℓ where
  returns : A → Go A
  panics : Go A

abbrev pub Act : Type 0 → Type 0 → Type 0
Act W A = W → Go (A × W)

abbrev pub pure : {W A : Type 0} → A → Act W A
pure a w = returns (a, w)

abbrev pub panic : {W A : Type 0} → Act W A
panic w = panics

infixl 5 ◌>>=◌ ◌>>◌
abbrev pub ◌>>=◌ : {W A B : Type 0} → Act W A → (A → Act W B) → Act W B
◌>>=◌ m f w = elim (m w) [ returns (a, w') ↦ f a w' | panics ↦ panics ]

abbrev pub ◌>>◌ : {W A B : Type 0} → Act W A → Act W B → Act W B
m >> k = m >>= λ _. k

pub bind_cong :
    {W A B : Type 0} (m : Act W A) {k k' : A → Act W B}
    → ((a : A) (w : W) → k a w ≡ k' a w)
    → (w : W) → (m >>= k) w ≡ (m >>= k') w
bind_cong m h w = ap (λ k. (m >>= k) w) (fun_ext λ a. fun_ext λ v. h a v)

-- What follows a call that returned.
pub bind-returns :
    {W A B : Type 0} (m : Act W A) (k : A → Act W B) {w w' : W} {a : A}
    → m w ≡ returns (a, w')
    → (m >>= k) w ≡ k a w'
bind-returns m k h = ap (λ r. elim r [ returns (b, v) ↦ k b v | panics ↦ panics ]) h

pub bind-panics :
    {W A B : Type 0} (m : Act W A) (k : A → Act W B) {w : W} → m w ≡ panics → (m >>= k) w ≡ panics
bind-panics m k h = ap (λ r. elim r [ returns (b, v) ↦ k b v | panics ↦ panics ]) h

-- `Ensures P o`: the call returned (it did not panic), and `P` holds of its result and world.
abbrev pub Ensures : {W A : Type 0} → (A → W → Type 0) → Go (A × W) → Type 0
Ensures P (returns (a, w)) = P a w
Ensures P panics = ⊥

-- `Allows P o`: if the call returned, `P` holds of its result and world.
abbrev pub Allows : {W A : Type 0} → (A → W → Type 0) → Go (A × W) → Type 0
Allows P (returns (a, w)) = P a w
Allows P panics = Unit

module _ {W A B : Type 0} where
  pub Ensures-bind :
      (Q : A → W → Type 0) (P : B → W → Type 0) (m : Act W A) (k : A → Act W B) (w : W)
      → Ensures Q (m w)
      → ((a : A) (v : W) → Q a v → Ensures P (k a v))
      → Ensures P ((m >>= k) w)
  Ensures-bind Q P m k w h next = go (m w) h
    where
      go :
          (r : Go (A × W))
          → Ensures Q r
          → Ensures P (elim r [ returns (a, v) ↦ k a v | panics ↦ panics ])
      go (returns (a, v)) q = next a v q
      go panics q = q

  pub Allows-bind :
      (P : B → W → Type 0) (m : Act W A) (k : A → Act W B) (w : W)
      → ((a : A) (v : W) → Allows P (k a v))
      → Allows P ((m >>= k) w)
  Allows-bind P m k w next = go (m w)
    where
      go : (r : Go (A × W)) → Allows P (elim r [ returns (a, v) ↦ k a v | panics ↦ panics ])
      go (returns (a, v)) = next a v
      go panics = tt

  -- The same, where the rest relies on what the call allows.
  pub Allows-then :
      (Q : A → W → Type 0) (P : B → W → Type 0) (m : Act W A) (k : A → Act W B) (w : W)
      → Allows Q (m w)
      → ((a : A) (v : W) → Q a v → Allows P (k a v))
      → Allows P ((m >>= k) w)
  Allows-then Q P m k w h next = go (m w) h
    where
      go :
          (r : Go (A × W))
          → Allows Q r
          → Allows P (elim r [ returns (a, v) ↦ k a v | panics ↦ panics ])
      go (returns (a, v)) q = next a v q
      go panics q = tt

module _ {W A : Type 0} where
  pub Ensures-map :
      (Q P : A → W → Type 0) (r : Go (A × W))
      → Ensures Q r
      → ((a : A) (v : W) → Q a v → P a v)
      → Ensures P r
  Ensures-map Q P (returns (a, v)) q next = next a v q
  Ensures-map Q P panics q next = q

  pub Allows-Ensures : (P : A → W → Type 0) (r : Go (A × W)) → Ensures P r → Allows P r
  Allows-Ensures P (returns (a, v)) p = p
  Allows-Ensures P panics p = tt

  pub Allows-if :
      (P : A → W → Type 0) (b : Bool) (m k : Act W A) (w : W)
      → Allows P (m w)
      → Allows P (k w)
      → Allows P ((if b then m else k) w)
  Allows-if P true m k w p q = p
  Allows-if P false m k w p q = q

  pub Allows_at :
      (P : A → W → Type 0) (r : Go (A × W)) {a : A} {v : W}
      → Allows P r
      → r ≡ returns (a, v)
      → P a v
  Allows_at P r h e = subst (Allows P) e h

-- Two calls that do the same, followed by what does the same after what the call allows.
pub bind-same :
    {W A B : Type 0} (Q : A → W → Type 0) (m m' : Act W A) (k k' : A → Act W B) (w : W)
    → m w ≡ m' w
    → Allows Q (m w)
    → ((a : A) (v : W) → Q a v → k a v ≡ k' a v)
    → (m >>= k) w ≡ (m' >>= k') w
bind-same {W} {A} {B} Q m m' k k' w same h next =
    go (m w) h ∙ ap (λ r. elim r [ returns (a, v) ↦ k' a v | panics ↦ panics ]) same
  where
    go :
        (r : Go (A × W))
        → Allows Q r
        → elim r [ returns (a, v) ↦ k a v | panics ↦ panics ]
          ≡ elim r [ returns (a, v) ↦ k' a v | panics ↦ panics ]
    go (returns (a, v)) q = next a v q
    go panics q = refl

pub bind_assoc :
    {W A B C : Type 0} (m : Act W A) (k : A → Act W B) (l : B → Act W C) (w : W)
    → (m >>= λ a. k a >>= l) w ≡ (m >>= k >>= l) w
bind_assoc {W} {A} {B} {C} m k l w = go (m w)
  where
    go :
        (r : Go (A × W))
        → elim r as (λ x. Go (C × W)) [ returns (a, v) ↦ (k a >>= l) v | panics ↦ panics ]
          ≡ elim (elim r as (λ x. Go (B × W)) [ returns (a, v) ↦ k a v | panics ↦ panics ]) [
            | returns (b, u) ↦ l b u
            | panics ↦ panics
          ]
    go (returns (a, v)) = refl
    go panics = refl
