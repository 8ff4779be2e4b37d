-- ===== src/Runtime/Message.antt =====
-- internal/runtime/runtime.go: `ProcessMessage`. The decoders of JSON and CBOR are parameters, one
-- for each type that the target can have.
pub mod Codes
use app_functions_sdk_go.Prelude.{
  [], ℕ, Str, Bytes, false, Option, none, some, Act, pure, ◌>>=◌, ◌++◌, str, ◌===◌, ◌⊎◌, inl, inr,
  if◌then◌else◌,
}
use app_functions_sdk_go.AppContext.{
  Event, Value, bytes, event, other, Context, GoError, Result, ok, err,
}
use app_functions_sdk_go.Runtime.Types.{
  GolangRuntime, MessageError, MessageEnvelope, TargetType, event_pointer, bytes_pointer,
  other_pointer, no_pointer,
}
use app_functions_sdk_go.Runtime.Pipeline.{execute_pipeline}

abbrev pub status_bad_request : ℕ
status_bad_request = 400

abbrev pub status_internal_server_error : ℕ
status_internal_server_error = 500

-- `clients.ContentTypeJSON` and `clients.ContentTypeCBOR`
abbrev pub content_type_json : Str
content_type_json = str "application/json"

abbrev pub content_type_cbor : Str
content_type_cbor = str "application/cbor"

-- A decoder, for `models.Event` and for the other types.
pub record Decoder : Type 0 where
  pub decode_event : Bytes → Result Event
  pub decode_other : ℕ → Bytes → Result ℕ

pub decoded : Result ℕ → Result Value
decoded (ok v) = ok (other v)
decoded (err e) = err e

decoded_event : Result Event → Result Value
decoded_event (ok e) = ok (event e)
decoded_event (err e) = err e

-- The decoded object; `none` is for a byte slice, which is not decoded.
pub decode : Decoder → TargetType → Bytes → Result Value
unfolding decoded decoded_event
decode d event_pointer payload = decoded_event (d.decode_event payload)
decode d bytes_pointer payload = ok (bytes payload)
decode d (other_pointer t) payload = decoded (d.decode_other t payload)
decode d no_pointer payload = ok (bytes payload)

bad_request : GoError → MessageError
bad_request e = record { error = e; error_code = status_bad_request }

-- `fmt.Errorf("%s : %s", message, err.Error())`
unmarshal_error : Str → GoError → MessageError
unfolding bad_request
unmarshal_error kind e =
    bad_request ((str "Unable to unmarshal message payload as " ++ kind) ++ (str " : " ++ e))

abbrev pub target_or_default : Option TargetType → TargetType
target_or_default none = event_pointer
target_or_default (some target) = target

module _ {W : Type 0} where
  -- Needed for marking the event as handled.
  with_event_id : Context W → Value → Context W
  with_event_id context (event e) = record context { event_id = e.id }
  with_event_id context target = context

  pub from_json : Context W → Result Value → (Context W × Value) ⊎ MessageError
  unfolding with_event_id unmarshal_error
  from_json context (ok target) = inl (with_event_id context target, target)
  from_json context (err e) = inr (unmarshal_error (str "JSON") e)

  pub from_cbor : Context W → Str → Result Value → (Context W × Value) ⊎ MessageError
  unfolding unmarshal_error
  from_cbor context checksum (ok target) =
      inl (record context { event_checksum = checksum }, target)
  from_cbor context checksum (err e) = inr (unmarshal_error (str "CBOR") e)

  pub told : (Context W × Value) ⊎ MessageError → (Context W × Value × Str) ⊎ MessageError
  told (inl (context, value)) = inl (context, value, [])
  told (inr e) = inr e

  unfoldable pub run_prepared :
      GolangRuntime W
      → Str
      → Context W
      → (Context W × Value × Str) ⊎ MessageError
      → Act W (Context W × Option MessageError)
  run_prepared gr correlation_id context (inl (context', target, content_type)) =
      execute_pipeline gr target content_type (record context' { correlation_id = correlation_id })
        gr.transforms 0 false
  run_prepared gr correlation_id context (inr e) = pure (context, some e)

  module _ (json cbor : Decoder) where
    -- The `switch` on the content type.
    pub decode_target :
        Context W → TargetType → MessageEnvelope → (Context W × Value) ⊎ MessageError
    unfolding decode from_json from_cbor bad_request
    decode_target context target envelope =
        if envelope.content_type === content_type_json
        then from_json context (decode json target envelope.payload)
        else if envelope.content_type === content_type_cbor
        then from_cbor context envelope.checksum (decode cbor target envelope.payload)
        else inr (
            bad_request (
              (str "'" ++ envelope.content_type)
              ++ (str "' " ++ str "content type for input data not supported")))

    -- The object for the first function, with the content type that it is told.
    unfoldable pub prepare :
        Context W → TargetType → MessageEnvelope → (Context W × Value × Str) ⊎ MessageError
    unfolding decode_target told
    prepare context no_pointer envelope = inr (record {
      error = str "TargetType must be a pointer, not a value of the target type.";
      error_code = status_internal_server_error;
    })
    prepare context bytes_pointer envelope =
        inl (context, bytes envelope.payload, envelope.content_type)
    prepare context target envelope = told (decode_target context target envelope)

    -- The runtime comes back too: a target type that is nil is set.
    unfoldable pub process_message :
        GolangRuntime W
        → Context W
        → MessageEnvelope
        → Act W (GolangRuntime W × Context W × Option MessageError)
    unfolding prepare run_prepared
    process_message gr context envelope = do
      let target = target_or_default gr.target_type
      let gr' = record gr { target_type = some target }
      (context', e) ←
          run_prepared gr' envelope.correlation_id context (prepare context target envelope)
      pure (gr', context', e)
