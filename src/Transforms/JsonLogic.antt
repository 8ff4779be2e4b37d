-- ===== src/Transforms/JsonLogic.antt =====
-- pkg/transforms/jsonlogic.go. `jsonlogic.Apply` and the JSON decoder are parameters. The rule is
-- a reader: applying it takes bytes from it, and nothing puts them back.
use app_functions_sdk_go.AppContext.{
  coerce_type, ok, error, replies, err, Reply, Context, Result, Value,
}
pub mod Laws
use app_functions_sdk_go.Prelude.{
  pure, ◌>>=◌, str, List, Bool, Act, Option, Str, Bytes, [], ◌∷◌, none, some, true, false,
}

-- What is left to read of the rule.
pub record JsonLogic : Type 0 where
  pub rule : Bytes

unfoldable pub new_json_logic : Str → JsonLogic
new_json_logic rule = record { rule = rule }

-- `Apply` on the rest of the rule and the data: the result, and what it left of the rule;
-- `decode_bool` is the Boolean that `Decode` leaves, `false` for what is no Boolean.
pub record JsonLogicLib : Type 0 where
  pub apply : Bytes → Bytes → Result Bytes
  pub unread : Bytes → Bytes → Bytes
  pub decode_bool : Bytes → Bool

module _ {W : Type 0} (lib : JsonLogicLib) (json_marshal : Value → Option Bytes) where
  abbrev with_logic : JsonLogic → Act W (Reply W) → Act W (JsonLogic × Reply W)
  with_logic logic m = do reply ← m; pure (logic, reply)

  decided : JsonLogic → Context W → Value → Result Bytes → Act W (JsonLogic × Reply W)
  decided logic context param (err e) = with_logic logic (replies context false (some (error e)))
  decided logic context param (ok logic_result) =
      with_logic logic (replies context (lib.decode_bool logic_result) (some param))

  apply_rule : JsonLogic → Context W → Value → Result Bytes → Act W (JsonLogic × Reply W)
  unfolding decided
  apply_rule logic context param (err e) = with_logic logic (replies context false (some (error e)))
  apply_rule logic context param (ok input) =
      decided (record logic { rule = lib.unread logic.rule input }) context param
        (lib.apply logic.rule input)

  unfoldable pub evaluate : JsonLogic → Context W → List Value → Act W (JsonLogic × Reply W)
  unfolding apply_rule
  evaluate logic context [] =
      with_logic logic (replies context false (some (error (str "No Data Received"))))
  evaluate logic context (param ∷ _) =
      apply_rule logic context param (coerce_type json_marshal param)
