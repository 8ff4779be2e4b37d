-- ===== src/Store/Redis/Refinement.antt =====
-- internal/store/db/redis/store.go: `Store`, `Update` and `RemoveFromStore` implement a map from
-- ids to stored objects, on a server that behaves as documented.
use app_functions_sdk_go.Prelude.{
  none, some, false, Str, Bytes, Option, List, ◌≡◌, ◌⊎◌, inl, inr, sym, Act, Ensures,
}
use mathlib.Core.Path.{subst}
use app_functions_sdk_go.AppContext.{Result, ok, err, GoError}
use app_functions_sdk_go.Store.Contracts.{StoredObject}
use app_functions_sdk_go.Store.Contracts.Standard.{Standard}
use app_functions_sdk_go.Store.Redis.{Command, Alias}
use app_functions_sdk_go.Store.Redis.Server.{Db, run}
use app_functions_sdk_go.Store.Redis.Represents.{same-Represents, Spec, put, is_key, Represents}

-- What the client relies on besides the server: the standard form of a UUID is no key of the
-- client's own, and drawing a UUID leaves the database as it is.
pub record IsUuidSource {W : Type 0} (view : W → Db) (parse_uuid : Str → Option Str)
    (new_uuid : Act W Str) : Type 0 where
  pub no_key : (given id : Str) → parse_uuid given ≡ some id → is_key id ≡ false
  pub draws : (w : W) → Ensures (λ id w'. view w' ≡ view w) (new_uuid w)

module _ {W : Type 0} (view : W → Db) (parse_uuid : Str → Option Str)
    (json_marshal : Alias → Result Bytes) where
  -- The database represents the map that `change` makes of the object in its standard form.
  abbrev pub Changed : (StoredObject → Spec) → StoredObject → W → Type 0
  Changed change o w =
      (o' : StoredObject) × Standard parse_uuid o o' × Represents json_marshal (view w) (change o')

  -- The change happened as a whole, or it did not happen.
  abbrev pub Undecided : Spec → (StoredObject → Spec) → StoredObject → W → Type 0
  Undecided spec change o w = Represents json_marshal (view w) spec ⊎ Changed change o w

  -- `Update` and `RemoveFromStore` made the change where they give no error.
  abbrev pub Reported : Spec → (StoredObject → Spec) → StoredObject → Option GoError → W → Type 0
  Reported spec change o none w = Changed change o w
  Reported spec change o (some e) w = Undecided spec change o w

  -- `Store` added the object under the id that it gives, which was free.
  abbrev pub Added : Spec → StoredObject → Result Str → W → Type 0
  Added spec o (ok id) w =
      (o' : StoredObject) × Standard parse_uuid o o'
      × (o'.id ≡ id)
      × (spec id ≡ none)
      × Represents json_marshal (view w) (put o' spec)
  Added spec o (err e) w = Undecided spec (λ o'. put o' spec) o w

module _ {W : Type 0} (view : W → Db) (parse_uuid : Str → Option Str)
    (json_marshal : Alias → Result Bytes) (spec : Spec) where
  module _ (o o' : StoredObject) (change : StoredObject → Spec) (commands : List Command) (w : W)
      (standard : Standard parse_uuid o o') (r : Represents json_marshal (view w) spec)
      (r' : Represents json_marshal (run commands (view w)) (change o')) where
    pub transacted :
        (w' : W) → view w' ≡ run commands (view w) → Represents json_marshal (view w') (change o')
    transacted w' same = subst (λ db. Represents json_marshal db (change o')) (sym same) r'

    pub done :
        (w' : W)
        → view w' ≡ run commands (view w)
        → Changed view parse_uuid json_marshal change o w'
    done w' same = (o', standard, transacted w' same)

    pub undecided :
        (w' : W)
        → (view w' ≡ view w) ⊎ (view w' ≡ run commands (view w))
        → Undecided view parse_uuid json_marshal spec change o w'
    undecided w' (inl same) = inl (same-Represents json_marshal spec same r)
    undecided w' (inr same) = inr (done w' same)
