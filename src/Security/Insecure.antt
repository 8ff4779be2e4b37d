-- ===== src/Security/Insecure.antt =====
-- internal/security/credentials.go, `getInsecureSecrets`: what an answer without an error holds.
use app_functions_sdk_go.Prelude.{
  eq-nil_of_is_empty, Bool-cases, lookup-insert, ===_refl, is_empty, insert, All, inr, inl, ◌⊎◌,
  ◌≢◌, lookup, ◌===◌, List, is_some, refl, [], ◌∷◌, none, some, true, ◌≡◌, ◌++◌, Str, Option, Map,
}
use mathlib.Core.Path.{subst}
use app_functions_sdk_go.Security.{
  InsecureSecretsInfo, nothing_found, SecretProvider, scan, ok, Found, find_keys, insecure_result,
  found_key, get_insecure_secrets,
}

abbrev pub Has : Map Str → Str → Type 0
Has m key = is_some (lookup key m) ≡ true

Has-insert :
    (key other value : Str) (m : Map Str)
    → (key === other) ≡ true ⊎ Has m other
    → Has (insert key value m) other
Has-insert key other value m h =
    rw (lookup-insert key other value m) (elim (Bool-cases (key === other)) [
      | inl e ↦ rw e refl
      | inr e ↦ rw e (elim h [ inl d ↦ cc (d, e) | inr d ↦ d ])
    ])

Has-found_key :
    (key other : Str) (value : Option Str) (found : Found)
    → Has found.secrets other
    → Has (found_key key value found).secrets other
unfolding found_key
Has-found_key key other none found h = h
Has-found_key key other (some value) found h = Has-insert key other value found.secrets (inr h)

Has-find_keys :
    (section : Map Str) (other : Str) (keys : List Str) (found : Found)
    → Has found.secrets other
    → Has (find_keys section keys found).secrets other
unfolding find_keys
Has-find_keys section other [] found h = h
Has-find_keys section other (key ∷ keys) found h =
    Has-find_keys section other keys (found_key key (lookup key section) found)
      (Has-found_key key other (lookup key section) found h)

snoc-ne_nil : (keys : List Str) (key : Str) → keys ++ (key ∷ []) ≢ []
snoc-ne_nil [] key e = cc
snoc-ne_nil (k ∷ keys) key e = cc

-- A key that was looked up without one missing was found, and none was missing before.
found_key-missing :
    (key : Str) (value : Option Str) (found : Found)
    → (found_key key value found).missing_keys ≡ []
    → Has (found_key key value found).secrets key × (found.missing_keys ≡ [])
unfolding found_key
found_key-missing key none found e = absurd (snoc-ne_nil found.missing_keys key e)
found_key-missing key (some value) found e =
    (Has-insert key key value found.secrets (inl (===_refl key)), e)

find_keys-missing :
    (section : Map Str) (keys : List Str) (found : Found)
    → (find_keys section keys found).missing_keys ≡ []
    → All (Has (find_keys section keys found).secrets) keys × (found.missing_keys ≡ [])
unfolding find_keys
find_keys-missing section [] found e = (tt, e)
find_keys-missing section (key ∷ keys) found e =
    let found' = found_key key (lookup key section) found in
    let rest = find_keys-missing section keys found' e in
    let here = found_key-missing key (lookup key section) found rest.1 in
    ((Has-find_keys section key keys found' here.0, rest.0), here.1)

-- What the variables of the loops say of the keys, once a section of the path was read.
IsSound : List Str → Found → Type 0
IsSound keys found =
    found.path_exists ≡ true → found.missing_keys ≡ [] → All (Has found.secrets) keys

insecure_result-ok :
    (path : Str) (found : Found) (m : Map Str)
    → insecure_result path found ≡ ok m
    → (found.path_exists ≡ true) × (found.missing_keys ≡ []) × (found.secrets ≡ m)
unfolding insecure_result
insecure_result-ok path found m h = elim (Bool-cases (is_empty found.missing_keys)) [
  | inl e ↦ elim (Bool-cases found.path_exists) [
    | inl p ↦ (p, eq-nil_of_is_empty found.missing_keys e, cc (h, e, p))
    | inr p ↦ cc (h, e, p)
  ]
  | inr e ↦ cc (h, e)
]

All-Has-eq : (keys : List Str) {m n : Map Str} → m ≡ n → All (Has m) keys → All (Has n) keys
All-Has-eq keys p h = subst (λ m. All (Has m) keys) p h

section_read :
    (section : Map Str) (keys : List Str) (found : Found)
    → IsSound keys (find_keys section keys found)
unfolding IsSound
section_read section keys found exists e = (find_keys-missing section keys found e).0

scan-Has :
    (path key : Str) (keys : List Str) (sections : Map InsecureSecretsInfo) (found : Found)
    (m : Map Str)
    → IsSound (key ∷ keys) found
    → scan path (key ∷ keys) sections found ≡ ok m
    → All (Has m) (key ∷ keys)
unfolding scan IsSound
scan-Has path key keys [] found m sound h =
    let r = insecure_result-ok path found m h in All-Has-eq (key ∷ keys) r.2 (sound r.0 r.1)
scan-Has path key keys ((name, info) ∷ sections) found m sound h =
    elim (Bool-cases (info.path === path)) [
      | inl e ↦
          scan-Has path key keys sections
            (find_keys info.secrets (key ∷ keys) (record found { path_exists = true })) m
            (section_read info.secrets (key ∷ keys) (record found { path_exists = true }))
            (rw e at h)
      | inr e ↦ scan-Has path key keys sections found m sound (rw e at h)
    ]

-- An answer of the configuration's insecure secrets without an error holds a value for every key
-- that was asked for.
pub get_insecure_secrets-Has :
    {W : Type 0} (s : SecretProvider W) (path : Str) (keys : List Str) (m : Map Str)
    → get_insecure_secrets s path keys ≡ ok m
    → All (Has m) keys
unfolding get_insecure_secrets IsSound
get_insecure_secrets-Has s path [] m h = tt
get_insecure_secrets-Has s path (key ∷ keys) m h =
    scan-Has path key keys s.configuration.writable.insecure_secrets nothing_found m
      (λ exists e. cc exists) h
