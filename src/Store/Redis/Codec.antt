-- ===== src/Store/Redis/Codec.antt =====
-- internal/store/db/redis/models/storedobject.go: a concrete encoding of the stored objects.
use app_functions_sdk_go.Prelude.{
  [], ◌∷◌, none, some, Str, Bytes, Option, ◌++◌, ◌≡◌, refl, ℕ, zero, suc, ℤ, pos, negsuc,
}
use app_functions_sdk_go.AppContext.{Result, ok}
use app_functions_sdk_go.Store.Redis.{Alias}

abbrev size : Bytes → ℕ
size [] = 0
size (_ ∷ bytes) = suc (size bytes)

abbrev encode_string : Option Str → Bytes → Bytes
encode_string none rest = 0 ∷ rest
encode_string (some s) rest = suc (size s) ∷ (s ++ rest)

abbrev cut : ℕ → Bytes → Str × Bytes
cut zero bytes = ([], bytes)
cut (suc n) [] = ([], [])
cut (suc n) (c ∷ bytes) = let (s, rest) = cut n bytes in (c ∷ s, rest)

abbrev decode_string : Bytes → Option Str × Bytes
decode_string [] = (none, [])
decode_string (zero ∷ rest) = (none, rest)
decode_string (suc n ∷ rest) = let (s, rest') = cut n rest in (some s, rest')

abbrev encode_int : ℤ → Bytes → Bytes
encode_int (pos n) rest = 0 ∷ n ∷ rest
encode_int (negsuc n) rest = 1 ∷ n ∷ rest

abbrev decode_int : Bytes → ℤ × Bytes
decode_int (zero ∷ n ∷ rest) = (pos n, rest)
decode_int (suc _ ∷ n ∷ rest) = (negsuc n, rest)
decode_int bytes = (pos 0, [])

abbrev encode_bytes : Bytes → Bytes → Bytes
encode_bytes [] rest = 0 ∷ rest
encode_bytes (c ∷ s) rest = suc (size s) ∷ c ∷ (s ++ rest)

abbrev decode_bytes : Bytes → Bytes × Bytes
decode_bytes [] = ([], [])
decode_bytes (n ∷ rest) = cut n rest

abbrev head : Bytes → ℕ
head [] = 0
head (n ∷ _) = n

abbrev pub encode : Alias → Bytes
encode a = encode_string a.id (
    encode_string a.app_service_key (
      encode_bytes a.payload (
        encode_int a.retry_count (
          encode_string a.version (
            encode_string a.correlation_id (
              encode_string a.event_id
                (encode_string a.event_checksum (a.pipeline_position ∷ []))))))))

abbrev pub decode : Bytes → Alias
decode b0 =
    let (id, b1) = decode_string b0 in
    let (app_service_key, b2) = decode_string b1 in
    let (payload, b3) = decode_bytes b2 in
    let (retry_count, b4) = decode_int b3 in
    let (version, b5) = decode_string b4 in
    let (correlation_id, b6) = decode_string b5 in
    let (event_id, b7) = decode_string b6 in
    let (event_checksum, b8) = decode_string b7 in
    record {
      id = id;
      app_service_key = app_service_key;
      payload = payload;
      retry_count = retry_count;
      pipeline_position = head b8;
      version = version;
      correlation_id = correlation_id;
      event_id = event_id;
      event_checksum = event_checksum;
    }

cut-size : (s rest : Bytes) → cut (size s) (s ++ rest) ≡ (s, rest)
cut-size [] rest = refl
cut-size (c ∷ s) rest = rw (cut-size s rest) refl

decode-encode_string :
    (s : Option Str) (rest : Bytes) → decode_string (encode_string s rest) ≡ (s, rest)
decode-encode_string none rest = refl
decode-encode_string (some s) rest = rw (cut-size s rest) refl

decode-encode_int : (n : ℤ) (rest : Bytes) → decode_int (encode_int n rest) ≡ (n, rest)
decode-encode_int (pos n) rest = refl
decode-encode_int (negsuc n) rest = refl

decode-encode_bytes : (s rest : Bytes) → decode_bytes (encode_bytes s rest) ≡ (s, rest)
decode-encode_bytes [] rest = refl
decode-encode_bytes (c ∷ s) rest = cut-size (c ∷ s) rest

pub decode-encode : (a : Alias) → decode (encode a) ≡ a
decode-encode a = simp (decode-encode_string, decode-encode_bytes, decode-encode_int)

abbrev pub json_marshal : Alias → Result Bytes
json_marshal a = ok (encode a)

abbrev pub json_unmarshal : Bytes → Result Alias
json_unmarshal bytes = ok (decode bytes)
