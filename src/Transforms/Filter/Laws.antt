-- ===== src/Transforms/Filter/Laws.antt =====
-- pkg/transforms/filter.go: which events and readings pass.
use app_functions_sdk_go.Transforms.Filter.{
  event, filter_by_device_name, filter_by_value_descriptor, Value, Event, Reading, Context,
  accepted, Filter, select_readings,
}
use app_functions_sdk_go.Prelude.{
  ne-nil_of_is_empty, eq-nil_of_is_empty, ===_iff, is_empty_of_ne-nil, is_empty, ===_refl, arith,
  ===_eq, if◌then◌else◌, inr, ◌∙◌, ap, sym, ◌⊎◌, Ensures, ◌≢◌, inl, Bool-cases, IsIn-append, ◌===◌,
  keep, ◌↔◌, IsIn, ◌≡◌, List, Str, refl, [], ◌∷◌, none, some, true, false,
}

accepted-IsIn :
    (device : Str) (values : List Str) → (accepted device values ≡ true) ↔ IsIn device values
unfolding accepted
accepted-IsIn device [] = (λ h. cc, λ h. absurd h)
accepted-IsIn device (v ∷ values) =
    let ih = accepted-IsIn device values in
    (
      λ h. elim (Bool-cases (device === v)) [
        | inl same ↦ inl (sym (===_eq device v same))
        | inr other ↦ inr (ih.0 (ground (arith, other)))
      ],
      elim [ inl e ↦ rw e (rw (===_refl device)) | inr h ↦ ground (arith, ih.1 h) ],
    )

IsIn-keep :
    (name : Str) (r : Reading) (readings : List Reading)
    → IsIn r (keep (λ (reading : Reading). reading.name === name) readings)
      ↔ (IsIn r readings × (r.name ≡ name))
IsIn-keep name r [] = (λ h. absurd h, λ h. absurd h.0)
IsIn-keep name r (x ∷ readings) =
    let ih = IsIn-keep name r readings in
    elim (Bool-cases (x.name === name)) [
      | inl same ↦ rw same (
        elim [
          | inl e ↦ (inl e, ap (λ (y : Reading). y.name) (sym e) ∙ ===_eq x.name name same)
          | inr h ↦ (inr (ih.0 h).0, (ih.0 h).1)
        ],
        λ h. elim h.0 [ inl e ↦ inl e | inr later ↦ inr (ih.1 (later, h.1)) ],
      )
      | inr other ↦ rw other (
        λ h. (inr (ih.0 h).0, (ih.0 h).1),
        λ h. elim h.0 [
          | inl e ↦
              let found = (===_iff x.name name).1 (ap (λ (y : Reading). y.name) e ∙ h.1) in
              cc (found, other)
          | inr later ↦ ih.1 (later, h.1)
        ],
      )
    ]

IsIn-select_readings :
    (r : Reading) (values : List Str) (readings : List Reading)
    → IsIn r (select_readings values readings) ↔ (IsIn r readings × IsIn r.name values)
unfolding select_readings
IsIn-select_readings r [] readings = (λ h. absurd h, λ h. absurd h.1)
IsIn-select_readings r (v ∷ values) readings =
    let kept = IsIn-keep v r readings in
    let ih = IsIn-select_readings r values readings in
    let split =
      IsIn-append r (keep (λ (reading : Reading). reading.name === v) readings)
        (select_readings values readings) in
    (
      λ h. elim (split.0 h) [
        | inl l ↦ ((kept.0 l).0, inl (sym (kept.0 l).1))
        | inr l ↦ ((ih.0 l).0, inr (ih.0 l).1)
      ],
      λ h. elim h.1 [
        | inl e ↦ split.1 (inl (kept.1 (h.0, sym e)))
        | inr later ↦ split.1 (inr (ih.1 (h.0, later)))
      ],
    )

module _ {W : Type 0} (f : Filter) (context : Context W) (e : Event) (rest : List Value)
    (w : W) where
  -- An event passes the filter by device name exactly when there is no filter value or its
  -- device is one of them; it passes unchanged, an event that does not pass has no result, and
  -- the context and the world are as they were.
  pub filter_by_device_name-passes :
      Ensures
        (λ reply w'.
          ((reply.continue_pipeline ≡ true)
            ↔ ((f.filter_values ≡ []) ⊎ IsIn e.device f.filter_values))
          × (reply.result ≡ (if reply.continue_pipeline then some (event e) else none))
          × (reply.context ≡ context)
          × (w' ≡ w))
        (filter_by_device_name f context (event e ∷ rest) w)
  unfolding filter_by_device_name
  filter_by_device_name-passes = elim (Bool-cases (is_empty f.filter_values)) [
    | inl nothing ↦
        rw nothing
          ((λ _. inl (eq-nil_of_is_empty f.filter_values nothing), λ _. refl), refl, refl, refl)
    | inr some_values ↦
        let given = ne-nil_of_is_empty f.filter_values some_values in
        let passes = accepted-IsIn e.device f.filter_values in
        elim (Bool-cases (accepted e.device f.filter_values)) [
          | inl found ↦
              rw (some_values, found) ((λ _. inr (passes.0 found), λ _. refl), refl, refl, refl)
          | inr missing ↦
              rw (some_values, missing)
                (
                  (
                    λ h. cc,
                    elim [
                      | inl none_given ↦ absurd (given none_given)
                      | inr there ↦ cc (passes.1 there, missing)
                    ],
                  ),
                  refl,
                  refl,
                  refl,
                )
        ]
  ]

  -- Of an event that passes the filter by value descriptor, with filter values given, a reading
  -- is kept exactly when its name is one of them, and the event does not pass exactly when no
  -- reading is kept; with no filter values it passes unchanged. What passes is an event of the
  -- same device and times, and the context and the world are as they were.
  pub filter_by_value_descriptor-passes :
      f.filter_values ≢ []
      → Ensures
          (λ reply w'.
            ((reply.continue_pipeline ≡ true)
              → (out : Event) × (reply.result ≡ some (event out))
                × (out.device ≡ e.device)
                × (out.origin ≡ e.origin)
                × ((r : Reading)
                    → IsIn r out.readings ↔ (IsIn r e.readings × IsIn r.name f.filter_values)))
            × ((reply.continue_pipeline ≡ false)
                → (r : Reading) → IsIn r e.readings
                → ¬ IsIn r.name f.filter_values)
            × (reply.context ≡ context)
            × (w' ≡ w))
          (filter_by_value_descriptor f context (event e ∷ rest) w)
  unfolding filter_by_value_descriptor
  filter_by_value_descriptor-passes some_values =
      let out = record e { id = []; readings = select_readings f.filter_values e.readings } in
      let kept = λ (r : Reading). IsIn-select_readings r f.filter_values e.readings in
      rw (is_empty_of_ne-nil f.filter_values some_values)
        (elim (Bool-cases (is_empty out.readings)) [
          | inl nothing ↦ rw nothing (
            λ h. cc,
            λ _ r there named.
                let found : IsIn r out.readings = (kept r).1 (there, named) in
                (rw (eq-nil_of_is_empty out.readings nothing) at found),
            refl,
            refl,
          )
          | inr something ↦
              rw something ((λ _. (out, refl, refl, refl, kept)), (λ h. cc), refl, refl)
        ])
