-- ===== src/AppContext/Helpers.antt =====
-- pkg/util/helpers.go: `CoerceType`.
use app_functions_sdk_go.Prelude.{Bytes, Option, none, some, str}
use app_functions_sdk_go.AppContext.Types.{Value, string, bytes, Result, ok, err}

-- The error of `CoerceType`.
marshaled : Option Bytes → Result Bytes
marshaled (some data_bytes) = ok data_bytes
marshaled none = err (
    str
      "marshaling input data to JSON failed, passed in data must be of type []byte, string, or support marshaling to JSON")

-- `json.Marshal` is a parameter.
unfoldable pub coerce_type : (Value → Option Bytes) → Value → Result Bytes
unfolding marshaled
coerce_type json_marshal (string input) = ok input
coerce_type json_marshal (bytes input) = ok input
coerce_type json_marshal param = marshaled (json_marshal param)
