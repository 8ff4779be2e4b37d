-- ===== src/Store/Redis/Memory.antt =====
-- internal/store/db/redis: a server in memory. Its state is the commands that it executed, the
-- last one first.
use app_functions_sdk_go.Prelude.{
  [], ◌∷◌, none, some, true, false, Str, Bytes, Bool, Option, List, ◌===◌, ◌≡◌, refl, map, is_some,
  is_empty, if◌then◌else◌, str, returns, ◌∙◌, ap, ===_eq, ◌&&◌, Bool-cases, inl, inr, arith,
  Option-cases,
}
use app_functions_sdk_go.AppContext.{Result, ok, err}
use app_functions_sdk_go.Store.Redis.{Connection, Command, set, sadd, srem, hset, unlink}
use app_functions_sdk_go.Store.Redis.Server.{Db, IsServer, elem, Reads, bytes_of, run, apply}

abbrev empty : Db
empty = record { strings = λ k. none; sets = λ k x. false; hashes = λ k f. none }

abbrev pub view : List Command → Db
view [] = empty
view (c ∷ w) = apply c (view w)

abbrev push : List Command → List Command → List Command
push [] w = w
push (c ∷ commands) w = push commands (c ∷ w)

-- The strings that were ever added to a set.
abbrev members : List Command → List Str
members [] = []
members (set k bytes ∷ w) = members w
members (sadd k x ∷ w) = x ∷ members w
members (srem k x ∷ w) = members w
members (hset k f v ∷ w) = members w
members (unlink k ∷ w) = members w

abbrev kept : (Str → Bool) → List Str → List Str
kept p [] = []
kept p (x ∷ xs) = if p x then x ∷ kept p xs else kept p xs

abbrev reply : Option Str → Result Str
reply none = err (str "redigo: nil returned")
reply (some v) = ok v

abbrev pub memory : Connection (List Command)
memory = record {
  exists = λ k w. returns (ok (is_some ((view w).strings k)), w);
  smembers = λ k w. returns (ok (kept (λ x. (view w).sets k x) (members w)), w);
  mget = λ ks w. returns (ok (map (λ k. bytes_of ((view w).strings k)) ks), w);
  hget = λ k f w. returns (reply ((view w).hashes k f), w);
  exec = λ commands w. returns (ok (map (λ c. true) commands), push commands w);
}

view-push : (commands w : List Command) → view (push commands w) ≡ run commands (view w)
view-push [] w = refl
view-push (c ∷ commands) w = view-push commands (c ∷ w)

was_added : (w : List Command) (k x : Str) → (view w).sets k x ≡ true → elem x (members w) ≡ true
was_added [] k x h = cc h
was_added (set j bytes ∷ w) k x h = ground (arith, was_added w k x)
was_added (sadd j y ∷ w) k x h = ground (arith, was_added w k x)
was_added (srem j y ∷ w) k x h = ground (arith, was_added w k x)
was_added (hset j f v ∷ w) k x h = was_added w k x h
was_added (unlink j ∷ w) k x h = ground (arith, was_added w k x)

elem-kept : (p : Str → Bool) (x : Str) (xs : List Str) → elem x (kept p xs) ≡ (p x && elem x xs)
elem-kept p x [] = ground arith
elem-kept p x (y ∷ ys) = elim (Bool-cases (p y)) [
  | inl k ↦ elim (Bool-cases (x === y)) [
    | inl h ↦ rw (k, h, ap p (===_eq x y h) ∙ k) refl
    | inr h ↦ rw (k, h, elem-kept p x ys) refl
  ]
  | inr k ↦ elim (Bool-cases (x === y)) [
    | inl h ↦ rw (k, elem-kept p x ys, ap p (===_eq x y h) ∙ k) refl
    | inr h ↦ rw (k, h, elem-kept p x ys) refl
  ]
]

elem-members :
    (w : List Command) (k x : Str)
    → elem x (kept (λ y. (view w).sets k y) (members w)) ≡ (view w).sets k x
elem-members w k x = elim (Bool-cases ((view w).sets k x)) [
  | inl h ↦ elem-kept (λ y. (view w).sets k y) x (members w) ∙ rw (h, was_added w k x h) refl
  | inr h ↦ elem-kept (λ y. (view w).sets k y) x (members w) ∙ rw h refl
]

reads_none : (found : Option Bytes) → is_some found ≡ false → found ≡ none
reads_none none h = refl
reads_none (some bytes) h = absurd (cc h)

replied :
    (w : List Command) (k f : Str)
    → Reads (λ v. (view w).hashes k f ≡ some v) (view w) (reply ((view w).hashes k f)) (view w)
replied w k f = elim (Option-cases ((view w).hashes k f)) [
  | inl h ↦ rw h refl
  | inr (v, h) ↦ rw h (refl, refl)
]

executed_all : (commands : List Command) → is_empty (map (λ c. true) commands) ≡ is_empty commands
executed_all [] = refl
executed_all (c ∷ commands) = refl

pub memory-IsServer : IsServer memory view
memory-IsServer = record {
  exists = λ k w. (reads_none ((view w).strings k), refl);
  smembers = λ k w. ((λ x. elem-members w k x), refl);
  mget = λ ks w. (refl, refl);
  hget = λ k f w. replied w k f;
  exec = λ commands w. (executed_all commands, view-push commands w);
}
