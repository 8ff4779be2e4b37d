-- ===== src/AppSdk/Pipeline/Loaded.antt =====
-- appsdk/sdk.go: what `LoadConfigurablePipeline` loads.
use app_functions_sdk_go.Prelude.{
  Allows-then, Allows-bind, ℕ, refl, [], ◌∷◌, none, some, ◌≡◌, Str, Act, Allows, Option, List,
  length, suc, ap,
}
use app_functions_sdk_go.AppContext.{Result, ok, err}
use app_functions_sdk_go.AppSdk.Pipeline.{
  insert, Loaded, lower_keys, BuiltIn, load_function, trim_space, lookup, PipelineFunction, Map, ℤ,
  MqttClient, ClientOptions, Method, KeyPairs, appended, load_functions, built_ins,
}

-- A loaded pipeline has a function for each name.
abbrev pub HasLength : {A : Type 0} → ℕ → Result (List A) → Type 0
HasLength n (err e) = Unit
HasLength n (ok pipeline) = length pipeline ≡ n

appended-HasLength :
    {W : Type 0} (n : ℕ) (function : Option (Method W))
    (pipeline : Result (List (Option (Method W))))
    → HasLength n pipeline
    → HasLength (suc n) (appended function pipeline)
unfolding appended
appended-HasLength n function (err e) h = tt
appended-HasLength n function (ok pipeline) h = ap suc h

module _ {W : Type 0} (key_pairs : KeyPairs W) (new_client : ClientOptions → MqttClient W)
    (itoa : ℤ → Str) where
  load_function-HasLength :
      (n : ℕ) (name : Str) (configuration : Option PipelineFunction) (built_in : Option (BuiltIn W))
      (functions : Map PipelineFunction) (rest : Map PipelineFunction → Act W (Loaded W)) (w : W)
      → ((f : Map PipelineFunction) (v : W) → Allows (λ loaded _. HasLength n loaded.1) (rest f v))
      → Allows
          (λ loaded _. HasLength (suc n) loaded.1)
          (load_function key_pairs new_client itoa name configuration built_in functions rest w)
  unfolding load_function
  load_function-HasLength n name none built_in functions rest w ih = tt
  load_function-HasLength n name (some c) none functions rest w ih = tt
  load_function-HasLength n name (some c) (some built_in) functions rest w ih =
      let parameters = lower_keys c.parameters c.parameters in
      let later = insert name (record c { parameters = parameters }) functions in
      Allows-bind (λ loaded _. HasLength (suc n) loaded.1) (built_in parameters c.addressable) _ w
        (λ function v.
          Allows-then (λ loaded _. HasLength n loaded.1) (λ loaded _. HasLength (suc n) loaded.1)
            (rest later) _ v (ih later v) (λ loaded u h. appended-HasLength n function loaded.1 h))

  -- A pipeline that is loaded has exactly one function for each name of the execution order.
  pub load_functions-HasLength :
      (names : List Str) (functions : Map PipelineFunction) (w : W)
      → Allows
          (λ loaded _. HasLength (length names) loaded.1)
          (load_functions key_pairs new_client itoa names functions w)
  unfolding load_functions
  load_functions-HasLength [] functions w = refl
  load_functions-HasLength (function_name ∷ names) functions w =
      let name = trim_space function_name in
      load_function-HasLength (length names) name (lookup name functions)
        (lookup name (built_ins key_pairs new_client itoa)) functions
        (load_functions key_pairs new_client itoa names) w
        (λ f v. load_functions-HasLength names f v)
