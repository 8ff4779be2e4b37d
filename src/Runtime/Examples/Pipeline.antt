-- ===== src/Runtime/Examples/Pipeline.antt =====
-- Runs of the pipeline.
use app_functions_sdk_go.Prelude.{refl, [], ◌∷◌, none, some, true, false, returns, ◌≡◌, inl}
use app_functions_sdk_go.AppContext.{bytes, error, Context, Reply, Value}
use app_functions_sdk_go.Runtime.{GolangRuntime, execute_pipeline, item_for_retry}
use app_functions_sdk_go.Runtime.Pipeline.Stored.{
  StopsAt, failure_is_stored, failure_is_not_stored, unprocessable,
}
use app_functions_sdk_go.Runtime.Pipeline.Passes.{Passes, done, next, execute_pipeline-Passes}
use app_functions_sdk_go.Runtime.Pipeline.Resume.{resume_at_position, retry_never_stores}
use app_functions_sdk_go.Runtime.Examples.{
  Objects, runtime, context, transform, export, discard, client, store_forward,
}

abbrev gr : GolangRuntime Objects
gr = runtime []

abbrev target : Value
target = bytes (7 ∷ [])

abbrev transformed : Reply Objects
transformed = record { context = context; continue_pipeline = true; result = some (bytes (9 ∷ [])) }

abbrev failed_context : Context Objects
failed_context = record context { retry_data = some (9 ∷ []) }

abbrev export_failed : Reply Objects
export_failed = record {
  context = failed_context;
  continue_pipeline = false;
  result = some (error (4 ∷ []));
}

abbrev discarded : Reply Objects
discarded = record { context = context; continue_pipeline = false; result = none }

transform-Passes :
    Passes target [] (transform ∷ []) none context [] (some (bytes (9 ∷ []))) context []
transform-Passes = next transformed refl refl done

abbrev at_export : StopsAt target [] gr false (transform ∷ []) export context [] export_failed []
at_export = record {
  result = some (bytes (9 ∷ []));
  context = context;
  world = [];
  passed = transform-Passes;
  called = refl;
  stops = refl;
}

abbrev retry_at_export :
    StopsAt target [] gr true (transform ∷ []) export context [] export_failed []
retry_at_export = record {
  result = some (bytes (9 ∷ []));
  context = context;
  world = [];
  passed = transform-Passes;
  called = refl;
  stops = refl;
}

abbrev at_discard : StopsAt target [] gr false (transform ∷ []) discard context [] discarded []
at_discard = record {
  result = some (bytes (9 ∷ []));
  context = context;
  world = [];
  passed = transform-Passes;
  called = refl;
  stops = refl;
}

failure_is_stored_example :
    execute_pipeline gr target [] context (transform ∷ export ∷ transform ∷ []) 0 false []
    ≡ returns (
      (failed_context, some (unprocessable (4 ∷ []))),
      item_for_retry gr (9 ∷ []) failed_context 1 ∷ [],
    )
failure_is_stored_example =
    failure_is_stored target [] gr (transform ∷ []) at_export (4 ∷ []) refl (9 ∷ []) client refl
      refl refl refl refl

failure_is_not_stored_example :
    execute_pipeline gr target [] context (transform ∷ export ∷ []) 0 true []
    ≡ returns ((failed_context, some (unprocessable (4 ∷ []))), [])
failure_is_not_stored_example =
    failure_is_not_stored target [] gr [] retry_at_export (4 ∷ []) refl refl (inl refl)

execute_pipeline-Passes_example :
    execute_pipeline gr target [] context (transform ∷ []) 0 false []
    ≡ returns ((context, none), [])
execute_pipeline-Passes_example =
    execute_pipeline-Passes target [] gr false context [] transform-Passes

resume_at_position_example :
    execute_pipeline gr target [] context (transform ∷ export ∷ []) 1 true []
    ≡ execute_pipeline gr target [] context (export ∷ []) 0 true []
resume_at_position_example =
    resume_at_position target [] gr context (transform ∷ []) (export ∷ []) []

retry_never_stores_example :
    execute_pipeline gr target [] context (transform ∷ export ∷ []) 0 true []
    ≡ execute_pipeline
        (record gr { store_forward = record store_forward { store_client = none } })
        target
        []
        context
        (transform ∷ export ∷ [])
        0
        true
        []
retry_never_stores_example =
    retry_never_stores target [] gr (record store_forward { store_client = none }) context
      (transform ∷ export ∷ []) 0 []
