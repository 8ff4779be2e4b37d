-- ===== src/AppSdk/Version.antt =====
-- appsdk/sdk.go: `validateVersionMatch`. The request to core data,
-- the route and `json.Unmarshal` are parameters.
use app_functions_sdk_go.Prelude.{
  [], ◌∷◌, none, some, true, false, Str, Bytes, Bool, Option, List, Act, pure, ◌>>=◌, ◌===◌, ◌++◌,
  str, Map, lookup, ℤ, pos, if◌then◌else◌, ◌≡◌, returns, ap, ◌∙◌, bind-returns,
}
use app_functions_sdk_go.Common.{ClientInfo, url}
use app_functions_sdk_go.AppContext.{Result, ok, err}
use app_functions_sdk_go.Util.Text.{
  split, replace_first, has_byte, split-whole, split-first, split-cons,
}

abbrev pub dot : Str
dot = 46 ∷ []

-- A missing section is the zero value.
unfoldable pub client_info : Option ClientInfo → ClientInfo
client_info none = record { host = []; port = pos 0; protocol = [] }
client_info (some info) = info

-- Three parts, and the major version.
same_major : Str → List Str → Bool
same_major major (core_major ∷ core_minor ∷ core_patch ∷ []) = core_major === major
same_major major parts = false

with_version : Str → Option Str → Bool
unfolding same_major
with_version major none = false
with_version major (some version) = same_major major (split 46 version)

with_data : Str → Result (Map Str) → Bool
unfolding with_version
with_data major (err e) = false
with_data major (ok versions) = with_version major (lookup (str "version") versions)

module _ {W : Type 0} (itoa : ℤ → Str) (api_version_route : Str)
    (get_request : Str → Act W (Result Bytes)) (unmarshal : Bytes → Result (Map Str)) where
  with_reply : Str → Result Bytes → Act W Bool
  unfolding with_data
  with_reply major (err e) = pure false
  with_reply major (ok bytes) = pure (with_data major (unmarshal bytes))

  -- The parts of the version of the SDK, of which there must be three or more.
  with_parts : Map ClientInfo → List Str → Act W Bool
  unfolding with_reply client_info
  with_parts clients (first ∷ minor ∷ patch ∷ more) =
      let major = replace_first (str "v") [] first in
      if major === str "0" then pure true else do
        reply ←
            get_request
              (url itoa (client_info (lookup (str "CoreData") clients)) ++ api_version_route)
        with_reply major reply
  with_parts clients parts = pure false

  unfoldable pub validate_version_match : Bool → Str → Map ClientInfo → Act W Bool
  unfolding with_parts
  validate_version_match skip_version_check sdk_version clients =
      if skip_version_check then pure true else with_parts clients (split 46 sdk_version)

  -- The version check accepts a core data service whose reply gives the version
  -- `major.minor.patch` exactly where its major version is that of an SDK version
  -- `v` `sdk_major.sdk_minor.rest`; where `sdk_major` is not 0 and holds no `v`.
  pub validate_version_match-compares :
      (clients : Map ClientInfo) (sdk_major sdk_minor rest major minor patch : Str) (bytes : Bytes)
      (versions : Map Str) (w v : W)
      → has_byte 46 sdk_major ≡ false
      → has_byte 46 sdk_minor ≡ false
      → has_byte 46 major ≡ false
      → has_byte 46 minor ≡ false
      → has_byte 46 patch ≡ false
      → (sdk_major === str "0") ≡ false
      → get_request
          (url itoa (client_info (lookup (str "CoreData") clients)) ++ api_version_route)
          w
        ≡ returns (ok bytes, v)
      → unmarshal bytes ≡ ok versions
      → lookup (str "version") versions ≡ some (major ++ (dot ++ (minor ++ (dot ++ patch))))
      → validate_version_match false
          (str "v" ++ (sdk_major ++ (dot ++ (sdk_minor ++ (dot ++ rest)))))
          clients
          w
        ≡ returns (major === sdk_major, v)
  unfolding validate_version_match with_parts with_reply with_data with_version same_major str
      replace_first
  validate_version_match-compares clients sdk_major sdk_minor rest major minor patch bytes versions
        w v m n p q s t r u l =
      let (third, more, e) = split-cons 46 rest in
      let parts =
        split-first 46 (118 ∷ sdk_major) (sdk_minor ++ (dot ++ rest)) m
        ∙ ap (λ x. (118 ∷ sdk_major) ∷ x)
            (split-first 46 sdk_minor rest n ∙ ap (λ x. sdk_minor ∷ x) e) in
      let core =
        split-first 46 major (minor ++ (dot ++ patch)) p
        ∙ ap (λ x. major ∷ x)
            (split-first 46 minor patch q ∙ ap (λ x. minor ∷ x) (split-whole 46 patch s)) in
      ap (λ x. with_parts clients x w) parts
      ∙ rw t (
          bind-returns (get_request _) (with_reply sdk_major) r
          ∙ ap (λ b. returns (b, v))
              (ap (with_data sdk_major) u
                ∙ ap (with_version sdk_major) l
                ∙ ap (same_major sdk_major) core))
