-- ===== src/AppSdk/CommandLine.antt =====
-- appsdk/sdk.go: `applyCommandlineEnvironmentOverrides`, and what `Initialize` makes of the service
-- key. The value of the environment variable `edgex_profile` and the arguments are given.
use app_functions_sdk_go.Prelude.{
  [], ◌∷◌, true, false, Str, Bool, List, ◌++◌, str, is_empty, if◌then◌else◌, ◌||◌, not, keep, any,
  All, ◌≡◌,
}
use app_functions_sdk_go.Util.Text.{contains, replace_first}

-- The arguments that are taken for the option.
unfoldable pub is_profile : Str → Bool
is_profile option = contains (str "-p=") option || contains (str "--profile=") option

abbrev pub profile_option : Str → Str
profile_option profile_name = str "--profile=" ++ profile_name

-- The loop over the arguments, with `found`.
overridden : Str → List Str → List Str × Bool
overridden profile_name [] = ([], false)
overridden profile_name (option ∷ args) =
    let (args', found) = overridden profile_name args in
    if is_profile option
    then (profile_option profile_name ∷ args', true)
    else (option ∷ args', found)

abbrev appended : Str → List Str × Bool → List Str
appended profile_name (args, true) = args
appended profile_name (args, false) = args ++ (profile_option profile_name ∷ [])

unfoldable pub apply_overrides : Str → List Str → List Str
unfolding overridden
apply_overrides profile_name args =
    if is_empty profile_name then args else appended profile_name (overridden profile_name args)

-- The service key with its placeholder resolved.
unfoldable pub resolved_key : Str → Str → Str
resolved_key config_profile service_key =
    if contains (str "<profile>") service_key
    then (if is_empty config_profile
        then replace_first (str "<profile>") [] service_key
        else replace_first (str "<profile>") (str "-" ++ config_profile) service_key)
    else service_key

abbrev is_other : Str → Bool
is_other a = not (is_profile a)

-- The profile options of the arguments are all `--profile=` and the name.
abbrev pub AllSet : Str → List Str → Type 0
AllSet name args = All (λ a. is_profile a ≡ true → a ≡ profile_option name) args

module _ (name : Str) where
  abbrev Set : List Str → List Str → Type 0
  Set args args' =
      AllSet name args' × (any is_profile args' ≡ true) × (keep is_other args' ≡ keep is_other args)
