-- ===== src/Transforms/JsonLogic/Laws.antt =====
-- pkg/transforms/jsonlogic.go: the rule at a second evaluation.
use app_functions_sdk_go.Prelude.{List, Bytes, Option, refl, [], ◌∷◌, ◌≡◌, Act, ◌>>=◌}
use app_functions_sdk_go.AppContext.{Result, Value, Reply, Context, ok, err, coerce_type}
use app_functions_sdk_go.Transforms.JsonLogic.{
  apply_rule, decided, evaluate, JsonLogic, JsonLogicLib, new_json_logic,
}

module _ {W : Type 0} (lib : JsonLogicLib) (json_marshal : Value → Option Bytes) where
  decided-keeps :
      (logic : JsonLogic) (context : Context W) (param : Value) (r : Result Bytes)
      (k : JsonLogic → Act W (JsonLogic × Reply W)) (w : W)
      → (decided lib json_marshal logic context param r >>= λ x. k x.0) w ≡ k logic w
  unfolding decided
  decided-keeps logic context param (err e) k w = refl
  decided-keeps logic context param (ok r) k w = refl

  -- Once an evaluation has read the rule to its end, the next one evaluates the empty rule, not
  -- the rule that the transform was made with.
  pub evaluate_consumes_rule :
      (logic : JsonLogic) (context next : Context W) (param param' : Value)
      (rest rest' : List Value) (input : Bytes) (w : W)
      → coerce_type json_marshal param ≡ ok input
      → lib.unread logic.rule input ≡ []
      → (evaluate lib json_marshal logic context (param ∷ rest) >>= λ r.
            evaluate lib json_marshal r.0 next (param' ∷ rest'))
          w
        ≡ evaluate lib json_marshal (new_json_logic []) next (param' ∷ rest') w
  unfolding evaluate apply_rule new_json_logic
  evaluate_consumes_rule logic context next param param' rest rest' input w c u =
      rw (c, u)
        (decided-keeps (new_json_logic []) context param (lib.apply logic.rule input)
          (λ l. evaluate lib json_marshal l next (param' ∷ rest')) w)
