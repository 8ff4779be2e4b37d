-- ===== src/Transforms/Http/Laws.antt =====
-- pkg/transforms/http.go: when the pipeline goes on, and what is kept for a retry.
use app_functions_sdk_go.Prelude.{
  bind-returns, is_empty, refl, ◌∷◌, returns, inr, inl, Bool-cases, Ensures, List, arith, true, Act,
  Str, ◌||◌, ℕ, ltb, ◌&&◌, if◌then◌else◌, Bytes, Option, leb, Bool, some, false, ◌≡◌,
}
use app_functions_sdk_go.AppContext.{
  coerce_type, Value, GoError, Result, Reply, Context, ok, err, error,
}
use app_functions_sdk_go.Transforms.Http.{
  status_error, with_mime_type, HttpSender, export_reply, save_retry_data, response_reply,
  http_post, body_reply, export_failed, HttpResponse,
}

-- The response was read, and its code is one of success.
abbrev pub is_delivered : Result HttpResponse → Bool
is_delivered (err e) = false
is_delivered (ok response) = elim response.body [
  | err e ↦ false
  | ok body ↦ leb 200 response.status_code && ltb response.status_code 300
]

-- What is kept for a retry: the data, where the sender persists it.
abbrev pub kept {ℓ} : {A : Type ℓ} → Bool → A → Option A → Option A
kept persists new old = if persists then some new else old

-- A reply that lets the pipeline go on exactly where the data was delivered, and keeps the data
-- exactly where it was not and the sender persists.
pub record IsFaithful {W : Type 0} (delivered persists : Bool) (context : Context W) (data' : Bytes)
    (reply : Reply W) : Type 0 where
  pub goes_on : reply.continue_pipeline ≡ delivered
  pub saves :
      reply.context.retry_data
      ≡ (if delivered then context.retry_data else kept persists data' context.retry_data)
  pub reports : delivered ≡ false → (e : GoError) × (reply.result ≡ some (error e))

not-success :
    (code : ℕ) → (ltb code 200 || leb 300 code) ≡ true → (leb 200 code && ltb code 300) ≡ false
not-success code h = ground arith

success :
    (code : ℕ) → (ltb code 200 || leb 300 code) ≡ false → (leb 200 code && ltb code 300) ≡ true
success code h = ground arith

same_sender :
    (sender : HttpSender)
    → ((with_mime_type sender).url ≡ sender.url)
      × ((with_mime_type sender).persist_on_error ≡ sender.persist_on_error)
same_sender sender = elim (Bool-cases (is_empty sender.mime_type)) [
  | inl e ↦ rw e (refl, refl)
  | inr e ↦ rw e (refl, refl)
]

module _ {W : Type 0} (json_marshal : Value → Option Bytes) (decimal : ℕ → Str)
    (post : Str → Str → Bytes → Act W (Result HttpResponse)) where
  export_failed-IsFaithful :
      (sender : HttpSender) (context : Context W) (export_data : Bytes) (e : GoError) (w : W)
      → Ensures
          (λ reply w'.
            IsFaithful false sender.persist_on_error context export_data reply × (w' ≡ w))
          (export_failed json_marshal decimal post sender context export_data e w)
  unfolding export_failed save_retry_data
  export_failed-IsFaithful sender context export_data e w =
      elim (Bool-cases sender.persist_on_error) [
        | inl p ↦ rw p (record { goes_on = refl; saves = refl; reports = λ _. (e, refl) }, refl)
        | inr p ↦ rw p (record { goes_on = refl; saves = refl; reports = λ _. (e, refl) }, refl)
      ]

  body_reply-IsFaithful :
      (sender : HttpSender) (context : Context W) (export_data : Bytes) (code : ℕ)
      (body : Result Bytes) (w : W)
      → Ensures
          (λ reply w'.
            IsFaithful
              (is_delivered (ok (record { status_code = code; body = body })))
              sender.persist_on_error
              context
              export_data
              reply
            × (w' ≡ w))
          (body_reply json_marshal decimal post sender context export_data code body w)
  unfolding body_reply
  body_reply-IsFaithful sender context export_data code (err e) w =
      export_failed-IsFaithful sender context export_data e w
  body_reply-IsFaithful sender context export_data code (ok body) w =
      elim (Bool-cases (ltb code 200 || leb 300 code)) [
        | inl bad ↦
            rw (bad, not-success code bad)
              (export_failed-IsFaithful sender context export_data (status_error decimal code) w)
        | inr good ↦
            rw (good, success code good)
              (record { goes_on = refl; saves = refl; reports = λ h. cc }, refl)
      ]

  response_reply-IsFaithful :
      (sender : HttpSender) (context : Context W) (export_data : Bytes)
      (response : Result HttpResponse) (w : W)
      → Ensures
          (λ reply w'.
            IsFaithful (is_delivered response) sender.persist_on_error context export_data reply
            × (w' ≡ w))
          (response_reply json_marshal decimal post sender context export_data response w)
  unfolding response_reply
  response_reply-IsFaithful sender context export_data (err e) w =
      export_failed-IsFaithful sender context export_data e w
  response_reply-IsFaithful sender context export_data (ok r) w =
      body_reply-IsFaithful sender context export_data r.status_code r.body w

  -- `HTTPPost` of data that can be coerced posts once, to the sender's URL; the pipeline goes on
  -- exactly where the response was read with a code from 200 to 299, and otherwise the result is
  -- an error, and the data is kept for a retry exactly where the sender persists it.
  pub http_post-IsFaithful :
      (sender : HttpSender) (context : Context W) (param : Value) (rest : List Value)
      (export_data : Bytes) (response : Result HttpResponse) (w w' : W)
      → coerce_type json_marshal param ≡ ok export_data
      → post sender.url (with_mime_type sender).mime_type export_data w ≡ returns (response, w')
      → Ensures
          (λ reply v.
            IsFaithful (is_delivered response) sender.persist_on_error context export_data reply
            × (v ≡ w'))
          (http_post json_marshal decimal post sender context (param ∷ rest) w)
  unfolding http_post export_reply
  http_post-IsFaithful sender context param rest export_data response w w' c h =
      let sender' = with_mime_type sender in
      let answered = response_reply-IsFaithful sender' context export_data response w' in
      let same = same_sender sender in
      let posted : post sender'.url sender'.mime_type export_data w ≡ returns (response, w') =
        rw same.0 h in
      rw
        (
          c,
          bind-returns (post sender'.url sender'.mime_type export_data)
              (response_reply json_marshal decimal post sender' context export_data) posted,
        )
        (rw same.1 at answered)
