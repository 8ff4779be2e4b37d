-- ===== src/Trigger/Responses.antt =====
-- internal/trigger: what the triggers answer and publish.
use app_functions_sdk_go.Prelude.{◌⊎◌, ◌≡◌}
use app_functions_sdk_go.Trigger.{Trigger, Response}

-- What the status of a response says of the call, by the world before it and after it.
abbrev pub StatusTells : {W : Type 0} → W → Response → W → Type 0
StatusTells w response w' =
    (response.status ≡ 200)
    ⊎ (response.status ≡ 422)
    ⊎ (((response.status ≡ 400) ⊎ (response.status ≡ 500)) × (w' ≡ w))
