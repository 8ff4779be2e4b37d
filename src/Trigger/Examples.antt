-- ===== src/Trigger/Examples.antt =====
-- internal/trigger: messages and requests to a small service.
use app_functions_sdk_go.Prelude.{returns, str, some, [], ◌∷◌, none}
use app_functions_sdk_go.AppContext.{ok, err}
use app_functions_sdk_go.Runtime.{no_pointer, GolangRuntime, MessageEnvelope, MessageError, Decoder}
use app_functions_sdk_go.Runtime.Examples.{runtime, config, Objects, transform}
use app_functions_sdk_go.Trigger.{Publish, Trigger, Request}

abbrev trigger : Trigger Objects
trigger = record { configuration = config; event_client = none }

abbrev refusing : Decoder
refusing = record { decode_event = λ b. err (6 ∷ []); decode_other = λ t b. err (6 ∷ []) }

abbrev request : Request
request = record { content_type = []; correlation_id = 2 ∷ []; body = ok (7 ∷ []) }

-- A runtime whose target type is no pointer.
abbrev wrong : GolangRuntime Objects
wrong = record (runtime (transform ∷ [])) { target_type = some no_pointer }

abbrev message : MessageEnvelope
message = record { correlation_id = 2 ∷ []; payload = 7 ∷ []; content_type = []; checksum = [] }

abbrev not_pointer : MessageError
not_pointer = record {
  error = str "TargetType must be a pointer, not a value of the target type.";
  error_code = 500;
}

abbrev publish : Publish Objects
publish envelope topic w = returns (none, [])
