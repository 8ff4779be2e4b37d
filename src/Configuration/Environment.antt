-- ===== src/Configuration/Environment.antt =====
-- internal/config/environment.go. `url.Parse`, `strconv.ParseInt` of its port, and the TOML tree are
-- parameters. The order of the variables is that in which the `range` loop meets them.
use app_functions_sdk_go.Prelude.{
  ap, ◌∙◌, [], ◌∷◌, none, some, false, Str, Bool, Option, List, ◌++◌, Map, insert, ℤ, is_empty,
  if◌then◌else◌, not, ◌&&◌, ◌≡◌, refl, Bool-cases, inl, inr,
}
use app_functions_sdk_go.Common.{RegistryInfo, ServiceInfo}
use app_functions_sdk_go.Util.Text.{
  split, replace_byte, has_byte, split-several, split-whole, split-first,
}

-- The key and the value of a variable, where it is taken.
entry_of : List Str → Option (Str × Str)
entry_of (k ∷ v ∷ []) = if not (is_empty k) && not (is_empty v) then some (k, v) else none
entry_of parts = none

unfoldable pub variable : Str → Option (Str × Str)
unfolding entry_of
variable env = entry_of (split 61 env)

abbrev added : Option (Str × Str) → Map Str → Map Str
added none env = env
added (some (k, v)) env = insert k v env

variables_from : List Str → Map Str → Map Str
variables_from [] env = env
variables_from (s ∷ os_env) env = variables_from os_env (added (variable s) env)

unfoldable pub new_environment : List Str → Map Str
unfolding variables_from
new_environment os_env = variables_from os_env []

-- What `url.Parse` gives, with its host name and its port where that is a number.
pub record Url : Type 0 where
  pub scheme : Str
  pub hostname : Str
  pub port : Option ℤ

module _ (parse : Str → Option Url) where
  registry_with : RegistryInfo → Option Url → RegistryInfo
  registry_with registry none = registry
  registry_with registry (some u) = elim u.port [
    | none ↦ registry
    | some port ↦ record { host = u.hostname; port = port; type_name = u.scheme }
  ]

  unfoldable pub override_registry_info : Str → RegistryInfo → RegistryInfo
  unfolding registry_with
  override_registry_info edgex_registry registry =
      if is_empty edgex_registry then registry else registry_with registry (parse edgex_registry)

  service_with : ServiceInfo → Option Url → ServiceInfo
  service_with service none = service
  service_with service (some u) = elim u.port [
    | none ↦ service
    | some port ↦ record service { host = u.hostname; port = port; protocol = u.scheme }
  ]

  unfoldable pub override_service_info : Str → ServiceInfo → ServiceInfo
  unfolding service_with
  override_service_info edgex_service service =
      if is_empty edgex_service then service else service_with service (parse edgex_service)

-- `toml.Tree`
pub record Tree (T : Type 0) : Type 0 where
  pub has : T → Str → Bool
  pub set : T → Str → Str → T

module _ {T : Type 0} (toml : Tree T) where
  abbrev overridden : T → Str → Str → T
  overridden tree key value = if toml.has tree key then toml.set tree key value else tree

  -- `_` in a name separates the sections.
  unfoldable pub override_from_environment : Map Str → T → T
  override_from_environment [] tree = tree
  override_from_environment ((k, v) ∷ env) tree =
      override_from_environment env (overridden tree (replace_byte 95 46 k) v)

-- An environment variable with a name and a value that are not empty is taken exactly where there
-- is no `=` in the value.
pub variable-taken :
    (k v : Str)
    → is_empty k ≡ false
    → is_empty v ≡ false
    → has_byte 61 k ≡ false
    → variable (k ++ (61 ∷ v)) ≡ (if has_byte 61 v then none else some (k, v))
unfolding variable entry_of
variable-taken k v hk hv no_equals =
    ap entry_of (split-first 61 k v no_equals) ∙ elim (Bool-cases (has_byte 61 v)) [
      | inl h ↦
          let (a, b, more, e) = split-several 61 v h in
          ap (λ parts. entry_of (k ∷ parts)) e ∙ rw h refl
      | inr h ↦ ap (λ parts. entry_of (k ∷ parts)) (split-whole 61 v h) ∙ rw (h, hk, hv) refl
    ]
