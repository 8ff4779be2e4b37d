-- ===== src/Transforms/Http.antt =====
-- pkg/transforms/http.go. `http.Post`, and `ioutil.ReadAll` of the response's body, are
-- parameters.
use app_functions_sdk_go.AppContext.{
  bytes, coerce_type, ok, error, replies, err, Reply, GoError, Result, Context, Value,
}
pub mod Laws
use app_functions_sdk_go.Prelude.{
  leb, ◌||◌, ltb, List, ◌++◌, Act, str, Bytes, Option, Bool, is_empty, Str, ℕ, if◌then◌else◌, [],
  ◌∷◌, none, some, true, false, ◌>>=◌,
}

pub record HttpSender : Type 0 where
  pub url : Str
  pub mime_type : Str
  pub persist_on_error : Bool

unfoldable pub new_http_sender : Str → Str → Bool → HttpSender
new_http_sender url mime_type persist_on_error = record {
  url = url;
  mime_type = mime_type;
  persist_on_error = persist_on_error;
}

-- A response, with what reading its body gives.
pub record HttpResponse : Type 0 where
  pub status_code : ℕ
  pub body : Result Bytes

-- An empty mime type stands for JSON.
abbrev pub with_mime_type : HttpSender → HttpSender
with_mime_type sender =
    if is_empty sender.mime_type
    then record sender { mime_type = str "application/json" }
    else sender

-- `fmt.Errorf("export failed with %d HTTP status code", …)`, with the decimal digits of the code.
pub status_error : (ℕ → Str) → ℕ → GoError
status_error decimal code = str "export failed with " ++ (decimal code ++ str " HTTP status code")

module _ {W : Type 0} where
  unfoldable pub save_retry_data : HttpSender → Context W → Bytes → Context W
  save_retry_data sender context export_data =
      if sender.persist_on_error then record context { retry_data = some export_data } else context

  module _ (json_marshal : Value → Option Bytes) (decimal : ℕ → Str)
      (post : Str → Str → Bytes → Act W (Result HttpResponse)) where
    pub export_failed : HttpSender → Context W → Bytes → GoError → Act W (Reply W)
    unfolding save_retry_data
    export_failed sender context export_data e =
        replies (save_retry_data sender context export_data) false (some (error e))

    pub body_reply : HttpSender → Context W → Bytes → ℕ → Result Bytes → Act W (Reply W)
    unfolding export_failed status_error
    body_reply sender context export_data code (err e) = export_failed sender context export_data e
    body_reply sender context export_data code (ok body) =
        if ltb code 200 || leb 300 code
        then export_failed sender context export_data (status_error decimal code)
        else replies context true (some (bytes body))

    pub response_reply : HttpSender → Context W → Bytes → Result HttpResponse → Act W (Reply W)
    unfolding body_reply
    response_reply sender context export_data (err e) = export_failed sender context export_data e
    response_reply sender context export_data (ok response) =
        body_reply sender context export_data response.status_code response.body

    pub export_reply : HttpSender → Context W → Result Bytes → Act W (Reply W)
    unfolding response_reply
    export_reply sender context (err e) = replies context false (some (error e))
    export_reply sender context (ok export_data) = do
      response ← post sender.url sender.mime_type export_data
      response_reply sender context export_data response

    unfoldable pub http_post : HttpSender → Context W → List Value → Act W (Reply W)
    unfolding export_reply
    http_post sender context [] = replies context false (some (error (str "No Data Received")))
    http_post sender context (param ∷ _) =
        export_reply (with_mime_type sender) context (coerce_type json_marshal param)
