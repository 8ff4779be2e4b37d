-- ===== src/Store/Contracts/Valid.antt =====
-- internal/store/contracts/storedobject.go: which objects `ValidateContract` lets through.
use app_functions_sdk_go.Prelude.{
  refl, none, some, true, false, Option-cases, inr, str, inl, Bool-cases, returns, arith, Act,
  is_some, is_empty, ◌≡◌, Str, Option, Bool, ◌&&◌, not,
}
use app_functions_sdk_go.Store.Contracts.{
  GoError, check_parsed, check, validate_contract, field_error, StoredObject,
}

abbrev fields_filled : StoredObject → Bool
fields_filled o =
    not (is_empty o.app_service_key) && (not (is_empty o.payload) && not (is_empty o.version))

-- An object that has an id, a UUID, a service key, a payload and a version.
abbrev pub is_acceptable : (Str → Option Str) → StoredObject → Bool
is_acceptable parse_uuid o = not (is_empty o.id) && (is_some (parse_uuid o.id) && fields_filled o)

field_error-none : (o : StoredObject) → field_error o ≡ none → fields_filled o ≡ true
unfolding field_error
field_error-none o h = ground arith

none-field_error : (o : StoredObject) → fields_filled o ≡ true → field_error o ≡ none
unfolding field_error
none-field_error o h = ground arith

acceptable-parts :
    (parse_uuid : Str → Option Str) (o : StoredObject)
    → is_acceptable parse_uuid o ≡ true
    → (is_empty o.id ≡ false) × (fields_filled o ≡ true)
acceptable-parts parse_uuid o h = elim (Bool-cases (is_empty o.id)) [
  | inl i ↦ cc (h, i)
  | inr i ↦ elim (Option-cases (parse_uuid o.id)) [
    | inl p ↦ cc (h, i, p)
    | inr (id, p) ↦ (i, cc (h, i, p))
  ]
]

module _ {W : Type 0} (parse_uuid : Str → Option Str) (new_uuid : Act W Str) where
  -- Where the id is required, an object that is not acceptable is refused with an error, and the
  -- world stays as it is.
  pub validate_contract-refuses :
      (o : StoredObject) (w : W)
      → is_acceptable parse_uuid o ≡ false
      → (o' : StoredObject) × (e : GoError) × (validate_contract parse_uuid new_uuid true o w
          ≡ returns ((o', some e), w))
  unfolding validate_contract check check_parsed
  validate_contract-refuses o w h = elim (Bool-cases (is_empty o.id)) [
    | inl i ↦ (o, str "invalid contract, ID cannot be empty", rw i refl)
    | inr i ↦ elim (Option-cases (parse_uuid o.id)) [
      | inl p ↦ (o, str "invalid contract, ID must be UUID", rw (i, p) refl)
      | inr (id, p) ↦ elim (Option-cases (field_error o)) [
        | inl f ↦ absurd (cc (h, i, p, field_error-none o f))
        | inr (e, f) ↦ (record o { id = id }, e, rw (i, p, f) refl)
      ]
    ]
  ]

  -- An acceptable object is let through, with its id in the standard form.
  pub validate_contract-accepts :
      (o : StoredObject) (id : Str) (w : W)
      → is_acceptable parse_uuid o ≡ true
      → parse_uuid o.id ≡ some id
      → validate_contract parse_uuid new_uuid true o w ≡ returns ((record o { id = id }, none), w)
  unfolding validate_contract check check_parsed
  validate_contract-accepts o id w h p =
      let parts = acceptable-parts parse_uuid o h in
      rw (parts.0, p, none-field_error o parts.1) refl
