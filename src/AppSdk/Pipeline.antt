-- ===== src/AppSdk/Pipeline.antt =====
-- appsdk/sdk.go: `LoadConfigurablePipeline` and `SetFunctionsPipeline`. Reflection finds a built-in
-- function by its name; that is a table here, with the parameters that a function wants.
pub mod Loaded
pub mod Kept
use app_functions_sdk_go.Prelude.{
  [], ◌∷◌, none, some, true, false, Str, Bool, Option, List, Act, pure, ◌>>=◌, ◌++◌, str, Map,
  lookup, insert, is_empty, if◌then◌else◌, ℤ,
}
use app_functions_sdk_go.Common.{PipelineFunction, PipelineInfo, Addressable, ConfigurationStruct}
use app_functions_sdk_go.AppContext.{Result, ok, err, GoError, AppFunction}
use app_functions_sdk_go.Runtime.{GolangRuntime, TargetType, bytes_pointer, set_transforms}
use app_functions_sdk_go.Util.{trim_space, delete_empty_and_trim, fields_func, split_comma}
use app_functions_sdk_go.AppSdk.Configurable.{
  Method, filter_devices, filter_descriptors, to_xml, to_json, mark_pushed, push_to_core,
  compress_gzip, compress_zlib, encrypt_aes, post, post_json, post_xml, send_mqtt, set_output,
}
use app_functions_sdk_go.Transforms.Mqtt.{MqttClient}
use app_functions_sdk_go.Transforms.Mqtt.Sender.{KeyPairs, ClientOptions, to_lower}

-- A call of a built-in function with its parameters; `none` is nil.
abbrev pub BuiltIn : Type 0 → Type 0
BuiltIn W = Map Str → Addressable → Act W (Option (Method W))

-- `configuration.Parameters[strings.ToLower(key)] = configuration.Parameters[key]`, for each key.
unfoldable pub lower_keys : Map Str → Map Str → Map Str
lower_keys [] parameters = parameters
lower_keys ((key, _) ∷ keys) parameters = lower_keys keys (elim (lookup key parameters) [
  | none ↦ parameters
  | some value ↦ insert (to_lower key) value parameters
])

-- The section of functions, and the pipeline or the error.
abbrev pub Loaded : Type 0 → Type 0
Loaded W = Map PipelineFunction × Result (List (Option (Method W)))

abbrev with_parameters : PipelineFunction → Map Str → PipelineFunction
with_parameters configuration parameters = record configuration { parameters = parameters }

module _ {W : Type 0} where
  -- The function in front of the rest of the pipeline, if that was loaded.
  pub appended :
      Option (Method W) → Result (List (Option (Method W))) → Result (List (Option (Method W)))
  appended function (err e) = err e
  appended function (ok pipeline) = ok (function ∷ pipeline)

  module _ (key_pairs : KeyPairs W) (new_client : ClientOptions → MqttClient W)
      (itoa : ℤ → Str) where
    unfoldable pub built_ins : Map (BuiltIn W)
    built_ins =
        (str "FilterByDeviceName", λ p addr. pure (filter_devices p))
        ∷ (str "FilterByValueDescriptor", λ p addr. pure (filter_descriptors p))
        ∷ (str "TransformToXML", λ p addr. pure to_xml)
        ∷ (str "TransformToJSON", λ p addr. pure to_json)
        ∷ (str "MarkAsPushed", λ p addr. pure mark_pushed)
        ∷ (str "PushToCore", λ p addr. pure (push_to_core p))
        ∷ (str "CompressWithGZIP", λ p addr. pure compress_gzip)
        ∷ (str "CompressWithZLIB", λ p addr. pure compress_zlib)
        ∷ (str "EncryptWithAES", λ p addr. pure (encrypt_aes p))
        ∷ (str "HTTPPost", λ p addr. pure (post p))
        ∷ (str "HTTPPostJSON", λ p addr. pure (post_json p))
        ∷ (str "HTTPPostXML", λ p addr. pure (post_xml p))
        ∷ (str "MQTTSend", λ p addr. send_mqtt key_pairs new_client itoa p addr)
        ∷ (str "SetOutputData", λ p addr. pure set_output)
        ∷ []

    -- One round of the loop; `rest` is the rounds of the later names. The keys in lower case stay
    -- in the configuration. A function that is nil is appended as well.
    pub load_function :
        Str
        → Option PipelineFunction
        → Option (BuiltIn W)
        → Map PipelineFunction
        → (Map PipelineFunction → Act W (Loaded W))
        → Act W (Loaded W)
    unfolding lower_keys appended
    load_function name none built_in functions rest = pure (
      functions,
      err (
          str "function "
          ++ (name ++ str " configuration not found in Pipeline.Functions section")),
    )
    load_function name (some configuration) none functions rest =
        pure (functions, err (str "function " ++ (name ++ str " is not a built in SDK function")))
    load_function name (some configuration) (some built_in) functions rest = do
      let parameters = lower_keys configuration.parameters configuration.parameters
      function ← built_in parameters configuration.addressable
      loaded ← rest (insert name (with_parameters configuration parameters) functions)
      pure (loaded.0, appended function loaded.1)

    -- The loop over the names, with the section of functions that comes back.
    pub load_functions : List Str → Map PipelineFunction → Act W (Loaded W)
    unfolding load_function
    load_functions [] functions = pure (functions, ok [])
    load_functions (function_name ∷ names) functions =
        let rest = load_functions names in
        let name = trim_space function_name in
        load_function name (lookup name functions) (lookup name built_ins) functions rest

-- `AppFunctionsSDK`, as far as the two functions below use it.
pub record AppFunctionsSdk (W : Type 0) : Type 0 where
  pub config : ConfigurationStruct
  pub using_configurable_pipeline : Bool
  pub target_type : Option TargetType
  pub transforms : List (AppFunction W)
  pub runtime : Option (GolangRuntime W)

module _ {W : Type 0} where
  -- The section of functions as the loop leaves it.
  abbrev with_functions : AppFunctionsSdk W → Map PipelineFunction → AppFunctionsSdk W
  with_functions sdk functions = record sdk {
    config = record sdk.config {
      writable = record sdk.config.writable {
        pipeline = record sdk.config.writable.pipeline { functions = functions };
      };
    };
  }

  abbrev with_target : AppFunctionsSdk W → AppFunctionsSdk W
  with_target sdk = record sdk {
    using_configurable_pipeline = true;
    target_type =
        if sdk.config.writable.pipeline.use_target_type_of_byte_array
        then some bytes_pointer
        else none;
  }

  unfoldable pub load_configurable_pipeline :
      KeyPairs W
      → (ClientOptions → MqttClient W)
      → (ℤ → Str)
      → AppFunctionsSdk W
      → Act W (AppFunctionsSdk W × Result (List (Option (Method W))))
  unfolding load_functions
  load_configurable_pipeline key_pairs new_client itoa sdk =
      let pipeline_config = sdk.config.writable.pipeline in
      let order = delete_empty_and_trim (fields_func pipeline_config.execution_order split_comma) in
      if is_empty order
      then pure (
        with_target sdk,
        err (
            str
              "execution Order has 0 functions specified. You must have a least one function in the pipeline"),
      )
      else do
        (functions, pipeline) ←
            load_functions key_pairs new_client itoa order pipeline_config.functions
        pure (with_functions (with_target sdk) functions, pipeline)

  -- The runtime is brought up to date where there is one.
  pub set_runtime :
      AppFunctionsSdk W
      → List (AppFunction W)
      → Option (GolangRuntime W)
      → Act W (AppFunctionsSdk W × Option GoError)
  set_runtime sdk transforms none = pure (record sdk { transforms = transforms }, none)
  set_runtime sdk transforms (some runtime) = do
    runtime' ← set_transforms runtime transforms
    pure (
      record sdk {
        transforms = transforms;
        runtime = some (record runtime' { target_type = sdk.target_type });
      },
      none,
    )

  unfoldable pub set_functions_pipeline :
      AppFunctionsSdk W → List (AppFunction W) → Act W (AppFunctionsSdk W × Option GoError)
  unfolding set_runtime
  set_functions_pipeline sdk transforms =
      if is_empty transforms
      then pure (sdk, some (str "no transforms provided to pipeline"))
      else set_runtime sdk transforms sdk.runtime
