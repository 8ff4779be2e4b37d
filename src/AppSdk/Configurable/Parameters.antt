-- ===== src/AppSdk/Configurable/Parameters.antt =====
-- appsdk/configurable.go: what the parameters of a configured function become.
use app_functions_sdk_go.Util.Trim.{delete_empty_and_trim-trimmed}
use app_functions_sdk_go.Prelude.{All, refl, none, some, false, ◌≡◌, Str, Map}
use app_functions_sdk_go.Transforms.Filter.{new_filter}
use app_functions_sdk_go.AppSdk.Configurable.{
  split_comma, fields_func, ◌given◌, Filter, [], filter_by_value_descriptor, filter_by_device_name,
  str, trim_space, lookup, List, is_empty, Option, names, filter_devices, filter_descriptors,
  Method,
}

-- The names that a filter looks for, if it is a filter.
abbrev pub filter_names : {W : Type 0} → Option (Method W) → List Str
filter_names (some (filter_by_device_name f)) = f.filter_values
filter_names (some (filter_by_value_descriptor f)) = f.filter_values
filter_names _ = []

abbrev pub IsName : Str → Type 0
IsName s = (is_empty s ≡ false) × (trim_space s ≡ s)

given-names :
    {W : Type 0} (text : Option Str) (method : Filter → Method W)
    → ((f : Filter) → filter_names (some (method f)) ≡ f.filter_values)
    → All IsName (filter_names (text given λ t. some (method (new_filter (names t)))))
unfolding names new_filter
given-names none method h = tt
given-names (some text) method h =
    rw (h (new_filter (names text))) (delete_empty_and_trim-trimmed (fields_func text split_comma))

-- Whatever the parameters are, a configured filter looks only for names that are not empty and
-- have no spaces around them.
pub configured_filters-IsName :
    (W : Type 0) (parameters : Map Str)
    → All IsName (filter_names {W = W} (filter_devices parameters))
      × All IsName (filter_names {W = W} (filter_descriptors parameters))
unfolding filter_devices filter_descriptors
configured_filters-IsName W parameters = (
  given-names (lookup (str "devicenames") parameters) filter_by_device_name (λ f. refl),
  given-names (lookup (str "valuedescriptors") parameters) filter_by_value_descriptor (λ f. refl),
)
