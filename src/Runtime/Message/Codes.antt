-- ===== src/Runtime/Message/Codes.antt =====
-- internal/runtime/runtime.go: the error codes of `ProcessMessage`.
use app_functions_sdk_go.Runtime.Pipeline.Codes.{execute_pipeline-PipelineCode, PipelineCode}
use app_functions_sdk_go.Runtime.Types.{no_pointer, bytes_pointer}
use app_functions_sdk_go.Runtime.Pipeline.{status_unprocessable_entity}
use app_functions_sdk_go.AppContext.{err, ok, Value, Result, Context}
use app_functions_sdk_go.Runtime.Types.{GolangRuntime}
use app_functions_sdk_go.Runtime.Message.{
  content_type_cbor, decode, content_type_json, target_or_default, status_internal_server_error,
  status_bad_request, MessageEnvelope, TargetType, run_prepared, prepare, process_message,
  MessageError, told, decode_target, from_cbor, from_json, Decoder,
}
use app_functions_sdk_go.Prelude.{
  false, Allows-then, pure, ◌>>=◌, ◌===◌, Bool-cases, Allows, ◌≡◌, Option, Str, ◌⊎◌, refl, none,
  some, inl, inr,
}

-- A message that is turned down has code 400 or 500.
abbrev Rejects : {A : Type 0} → A ⊎ MessageError → Type 0
Rejects (inl _) = Unit
Rejects (inr e) =
    (e.error_code ≡ status_bad_request) ⊎ (e.error_code ≡ status_internal_server_error)

module _ {W : Type 0} where
  from_json-Rejects : (context : Context W) (r : Result Value) → Rejects (from_json context r)
  unfolding from_json
  from_json-Rejects context (ok target) = tt
  from_json-Rejects context (err e) = inl refl

  from_cbor-Rejects :
      (context : Context W) (checksum : Str) (r : Result Value)
      → Rejects (from_cbor context checksum r)
  unfolding from_cbor
  from_cbor-Rejects context checksum (ok target) = tt
  from_cbor-Rejects context checksum (err e) = inl refl

  module _ (json cbor : Decoder) (context : Context W) where
    decode_target-Rejects :
        (target : TargetType) (envelope : MessageEnvelope)
        → Rejects (decode_target json cbor context target envelope)
    unfolding decode_target
    decode_target-Rejects target envelope =
        elim (Bool-cases (envelope.content_type === content_type_json)) [
          | inl is_json ↦
              rw is_json (from_json-Rejects context (decode json target envelope.payload))
          | inr not_json ↦
              rw not_json (elim (Bool-cases (envelope.content_type === content_type_cbor)) [
                | inl is_cbor ↦ rw is_cbor (
                    from_cbor-Rejects context envelope.checksum
                      (decode cbor target envelope.payload))
                | inr not_cbor ↦ rw not_cbor (inl refl)
              ])
        ]

    told-Rejects : (d : (Context W × Value) ⊎ MessageError) → Rejects d → Rejects (told d)
    unfolding told
    told-Rejects (inl d) h = h
    told-Rejects (inr e) h = h

    prepare-Rejects :
        (target : TargetType) (envelope : MessageEnvelope)
        → Rejects (prepare json cbor context target envelope)
    unfolding prepare
    prepare-Rejects no_pointer envelope = inr refl
    prepare-Rejects bytes_pointer envelope = tt
    prepare-Rejects target envelope =
        told-Rejects (decode_target json cbor context target envelope)
          (decode_target-Rejects target envelope)

  -- What an error of `ProcessMessage` says of the call.
  abbrev pub CodeTells :
      Context W → W → GolangRuntime W × Context W × Option MessageError → W → Type 0
  CodeTells context w (_, _, none) w' = Unit
  CodeTells context w (_, context', some e) w' =
      (e.error_code ≡ status_unprocessable_entity)
      ⊎ (((e.error_code ≡ status_bad_request) ⊎ (e.error_code ≡ status_internal_server_error))
          × (context' ≡ context)
          × (w' ≡ w))

  module _ (gr : GolangRuntime W) (context : Context W) where
    run_prepared-CodeTells :
        (correlation_id : Str) (p : (Context W × Value × Str) ⊎ MessageError) (w : W)
        → Rejects p
        → Allows (CodeTells context w) (
            (do outcome ← run_prepared gr correlation_id context p; pure (gr, outcome.0, outcome.1))
              w)
    unfolding run_prepared
    run_prepared-CodeTells correlation_id (inl (context', target, content_type)) w h =
        Allows-then PipelineCode (CodeTells context w)
          (run_prepared gr correlation_id context (inl (context', target, content_type)))
          (λ outcome. pure (gr, outcome.0, outcome.1)) w
          (execute_pipeline-PipelineCode gr target content_type
            (record context' { correlation_id = correlation_id }) gr.transforms 0 false w)
          (λ outcome v code. told_code outcome v code)
      where
        told_code :
            (outcome : Context W × Option MessageError) (v : W)
            → PipelineCode outcome v
            → CodeTells context w (gr, outcome.0, outcome.1) v
        told_code (c, none) v code = tt
        told_code (c, some e) v code = inl code
    run_prepared-CodeTells correlation_id (inr e) w h = inr (h, refl, refl)

  module _ (json cbor : Decoder) (gr : GolangRuntime W) (context : Context W) where
    -- An error of `ProcessMessage` has code 422, or else code 400 or 500; with these two, no
    -- function has run: the context and the world are as they were.
    pub process_message-CodeTells :
        (envelope : MessageEnvelope) (w : W)
        → Allows (CodeTells context w) (process_message json cbor gr context envelope w)
    unfolding process_message
    process_message-CodeTells envelope w =
        let target = target_or_default gr.target_type in
        run_prepared-CodeTells (record gr { target_type = some target }) context
          envelope.correlation_id (prepare json cbor context target envelope) w
          (prepare-Rejects json cbor context target envelope)
