-- ===== src/Endpoint/Monitoring.antt =====
-- pkg/endpoint/endpoint.go: the loop of `Monitor`.
use app_functions_sdk_go.Prelude.{
  str, pure, ◌>>=◌, replicate, ap, ◌∙◌, [], ◌∷◌, Str, List, Act, ◌++◌, ℤ, ◌≡◌, refl, Ensures,
  Ensures-bind, ℕ, suc,
}
use app_functions_sdk_go.AppContext.{Result, ok}
use app_functions_sdk_go.Endpoint.{
  Endpoint, Event, tick, done, fetch_url, looped, monitored, fetched,
}

-- The ticks before the context is done.
abbrev pub ticks : List Event → ℕ
ticks [] = 0
ticks (done ∷ events) = 0
ticks (tick ∷ events) = suc (ticks events)

abbrev pub address : (ℤ → Str) → Endpoint → Str → ℤ → Str
address itoa e host port = str "http://" ++ (host ++ (str ":" ++ (itoa port ++ e.path)))

module _ (itoa : ℤ → Str) {W : Type 0} (get_service_endpoint : Str → Act W (Result (Str × ℤ)))
    (e : Endpoint) (host : Str) (port : ℤ)
    (answers : (w : W)
      → Ensures (λ r v. r ≡ ok (host, port)) (get_service_endpoint e.service_key w)) where
  abbrev Addresses : ℕ → List Str → W → Type 0
  Addresses n sent w = sent ≡ replicate n (address itoa e host port)

  fetch_url-address : (w : W) → Ensures (Addresses 1) (fetch_url itoa get_service_endpoint e w)
  unfolding fetch_url fetched
  fetch_url-address w =
      Ensures-bind (λ r v. r ≡ ok (host, port)) (Addresses 1) (get_service_endpoint e.service_key)
        (λ r. pure (fetched itoa e r)) w (answers w) λ r v h. ap (fetched itoa e) h

  -- One round, before the rest.
  round :
      (n : ℕ) (rest : Act W (List Str)) (w : W)
      → ((v : W) → Ensures (Addresses n) (rest v))
      → Ensures (Addresses (suc n)) (
          (fetch_url itoa get_service_endpoint e >>= λ sent. rest >>= λ later. pure (sent ++ later))
            w)
  round n rest w h =
      Ensures-bind (Addresses 1) (Addresses (suc n)) (fetch_url itoa get_service_endpoint e)
        (λ sent. rest >>= λ later. pure (sent ++ later)) w (fetch_url-address w)
        λ sent v one.
          Ensures-bind (Addresses n) (Addresses (suc n)) rest (λ later. pure (sent ++ later)) v
            (h v)
            λ later u all. ap (λ s. s ++ later) one ∙ ap (λ l. address itoa e host port ∷ l) all

  looped-addresses :
      (events : List Event) (w : W)
      → Ensures (Addresses (ticks events)) (looped itoa get_service_endpoint e events w)
  unfolding looped
  looped-addresses [] w = refl
  looped-addresses (done ∷ events) w = refl
  looped-addresses (tick ∷ events) w =
      round (ticks events) (looped itoa get_service_endpoint e events) w (looped-addresses events)

  -- Where the registry answers each time, the goroutine of `Monitor` sends the address of the
  -- service once at the start and once for each tick until the context is done, and ends.
  pub monitored-addresses :
      (events : List Event) (w : W)
      → Ensures
          (λ sent v. sent ≡ replicate (suc (ticks events)) (address itoa e host port))
          (monitored itoa get_service_endpoint e events w)
  unfolding monitored
  monitored-addresses events w =
      round (ticks events) (looped itoa get_service_endpoint e events) w (looped-addresses events)
