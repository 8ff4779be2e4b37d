-- ===== src/Store/Contracts/Standard.antt =====
-- internal/store/contracts/storedobject.go: the object that `ValidateContract` leaves has a UUID
-- in the standard form for an id, and is otherwise the object that was given.
use app_functions_sdk_go.Prelude.{
  refl, none, some, true, false, inr, inl, Bool-cases, Act, is_empty, ◌≡◌, Str, Option, Bool,
  Ensures, Ensures-bind, pure,
}
use app_functions_sdk_go.Store.Contracts.{
  GoError, check_parsed, check, validate_contract, StoredObject, field_error,
}

-- The object with the standard form of a UUID for its id.
pub record Standard (parse_uuid : Str → Option Str) (o o' : StoredObject) : Type 0 where
  pub given : Str
  pub parsed : parse_uuid given ≡ some o'.id
  pub same : o' ≡ record o { id = o'.id }

abbrev pub Valid : (Str → Option Str) → StoredObject → StoredObject × Option GoError → Type 0
Valid parse_uuid o (o', some e) = Unit
Valid parse_uuid o (o', none) = Standard parse_uuid o o'

any_error :
    (parse_uuid : Str → Option Str) (o o' : StoredObject) (e : Option GoError)
    → Standard parse_uuid o o'
    → Valid parse_uuid o (o', e)
any_error parse_uuid o o' none s = s
any_error parse_uuid o o' (some e) s = tt

check_parsed-Valid :
    (parse_uuid : Str → Option Str) (o : StoredObject) (given : Str) (parsed : Option Str)
    → parse_uuid given ≡ parsed
    → Valid parse_uuid o (check_parsed (record o { id = given }) parsed)
unfolding check_parsed
check_parsed-Valid parse_uuid o given none p = tt
check_parsed-Valid parse_uuid o given (some id) p =
    any_error parse_uuid o (record o { id = id }) (field_error (record o { id = given }))
      (record { given = given; parsed = p; same = refl })

module _ {W D : Type 0} (view : W → D) (parse_uuid : Str → Option Str) (new_uuid : Act W Str)
    (draws : (w : W) → Ensures (λ id w'. view w' ≡ view w) (new_uuid w)) where
  pub validate_contract-Valid :
      (required : Bool) (o : StoredObject) (w : W)
      → Ensures
          (λ r w'. (view w' ≡ view w) × Valid parse_uuid o r)
          (validate_contract parse_uuid new_uuid required o w)
  unfolding validate_contract check
  validate_contract-Valid true o w = elim (Bool-cases (is_empty o.id)) [
    | inl h ↦ rw h (refl, tt)
    | inr h ↦ rw h (refl, check_parsed-Valid parse_uuid o o.id (parse_uuid o.id) refl)
  ]
  validate_contract-Valid false o w = elim (Bool-cases (is_empty o.id)) [
    | inl h ↦ rw h (
        Ensures-bind (λ id w'. view w' ≡ view w) (λ r w'. (view w' ≡ view w) × Valid parse_uuid o r)
          new_uuid (λ id. pure (check parse_uuid new_uuid (record o { id = id }))) w (draws w)
          λ id v same. (same, check_parsed-Valid parse_uuid o id (parse_uuid id) refl))
    | inr h ↦ rw h (refl, check_parsed-Valid parse_uuid o o.id (parse_uuid o.id) refl)
  ]
