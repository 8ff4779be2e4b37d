-- ===== src/AppSdk/Pipeline/Kept.antt =====
-- appsdk/sdk.go: what `LoadConfigurablePipeline` and `SetFunctionsPipeline` leave as it is.
use app_functions_sdk_go.Prelude.{
  inr, inl, Bool-cases, [], none, some, true, Option, List, ◌≡◌, refl, ℤ, Allows, Allows-bind,
  Allows-then, Allows-if,
}
use app_functions_sdk_go.AppContext.{Result, AppFunction, GoError}
use app_functions_sdk_go.Runtime.{GolangRuntime, set_transforms}
use app_functions_sdk_go.Transforms.Mqtt.{MqttClient}
use app_functions_sdk_go.Transforms.Mqtt.Sender.{KeyPairs, ClientOptions}
use app_functions_sdk_go.AppSdk.Configurable.{Method}
use app_functions_sdk_go.AppSdk.Pipeline.{
  with_target, with_functions, load_functions, is_empty, split_comma, fields_func, ◌∷◌, pure,
  delete_empty_and_trim, Str, AppFunctionsSdk, set_functions_pipeline, load_configurable_pipeline,
  set_runtime,
}

module _ {W : Type 0} where
  -- The runtime is there and was initialized.
  abbrev pub Ready : Option (GolangRuntime W) → Type 0
  Ready none = ⊥
  Ready (some runtime) = runtime.store_forward.runtime_set ≡ true

  -- The section of Store and Forward and the runtime of an SDK that loads a pipeline.
  abbrev pub Same : AppFunctionsSdk W → AppFunctionsSdk W → Type 0
  Same sdk sdk' =
      (sdk'.config.writable.store_and_forward ≡ sdk.config.writable.store_and_forward)
      × (sdk'.runtime ≡ sdk.runtime)

  abbrev Loading :
      AppFunctionsSdk W → AppFunctionsSdk W × Result (List (Option (Method W))) → W → Type 0
  Loading sdk r w = Same sdk r.0

  pub load-Same :
      (key_pairs : KeyPairs W) (new_client : ClientOptions → MqttClient W) (itoa : ℤ → Str)
      (sdk : AppFunctionsSdk W) (w : W)
      → Allows (Loading sdk) (load_configurable_pipeline key_pairs new_client itoa sdk w)
  unfolding load_configurable_pipeline
  load-Same key_pairs new_client itoa sdk w =
      let order =
        delete_empty_and_trim
          (fields_func sdk.config.writable.pipeline.execution_order split_comma) in
      elim (Bool-cases (is_empty order)) [
        | inl h ↦ rw h (refl, refl)
        | inr h ↦ rw h (
            Allows-bind (Loading sdk)
              (load_functions key_pairs new_client itoa order
                sdk.config.writable.pipeline.functions)
              (λ loaded. pure (with_functions (with_target sdk) loaded.0, loaded.1)) w
              λ loaded w'. (refl, refl))
      ]

  abbrev pub Setting : AppFunctionsSdk W → AppFunctionsSdk W × Option GoError → W → Type 0
  Setting sdk r w = (r.0.config ≡ sdk.config) × Ready r.0.runtime

  set_runtime-Ready :
      (sdk : AppFunctionsSdk W) (functions : List (AppFunction W))
      (runtime : Option (GolangRuntime W)) (w : W)
      → Ready runtime
      → Allows (Setting sdk) (set_runtime sdk functions runtime w)
  unfolding set_runtime set_transforms
  set_runtime-Ready sdk functions none w ready = absurd ready
  set_runtime-Ready sdk functions (some runtime) w ready =
      Allows-then (λ r w'. r.store_forward.runtime_set ≡ true) (Setting sdk)
        (set_transforms runtime functions)
        (λ runtime'. pure (
          record sdk {
            transforms = functions;
            runtime = some (record runtime' { target_type = sdk.target_type });
          },
          none,
        ))
        w
        (Allows-if (λ r w'. r.store_forward.runtime_set ≡ true) runtime.store_forward.runtime_set _
          _ w ready tt)
        λ runtime' w' ready'. (refl, ready')

  pub set_functions_pipeline-Ready :
      (sdk : AppFunctionsSdk W) (functions : List (AppFunction W)) (w : W)
      → Ready sdk.runtime
      → Allows (Setting sdk) (set_functions_pipeline sdk functions w)
  unfolding set_functions_pipeline
  set_functions_pipeline-Ready sdk [] w ready = (refl, ready)
  set_functions_pipeline-Ready sdk (f ∷ functions) w ready =
      set_runtime-Ready sdk (f ∷ functions) sdk.runtime w ready
