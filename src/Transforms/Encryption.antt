-- ===== src/Transforms/Encryption.antt =====
-- pkg/transforms/encryption.go. SHA-1, AES in CBC mode and base64 are parameters.
use app_functions_sdk_go.AppContext.{
  bytes, coerce_type, ok, error, replies, err, Reply, Result, Value, Context,
}
pub mod Padding
use app_functions_sdk_go.Prelude.{
  zero, take, str, replicate, ◌++◌, ◌%◌, List, Act, length, Option, suc, ◌-◌, Bytes, ℕ, Str, [],
  ◌∷◌, none, some, true, false,
}

pub record Encryption : Type 0 where
  pub key : Str
  pub initialization_vector : Str

unfoldable pub new_encryption : Str → Str → Encryption
new_encryption key initialization_vector = record {
  key = key;
  initialization_vector = initialization_vector;
}

abbrev pub block_size : ℕ
block_size = 16

unfoldable pub pkcs5_padding : Bytes → ℕ → Bytes
pkcs5_padding ciphertext size =
    let padding = size - length ciphertext % size in ciphertext ++ replicate padding (padding % 256)

-- `iv := make([]byte, blockSize); copy(iv, …)`: cut or filled up with zeros to `n` bytes.
unfoldable pub fixed_size : ℕ → Bytes → Bytes
fixed_size zero source = []
fixed_size (suc n) [] = 0 ∷ fixed_size n []
fixed_size (suc n) (b ∷ source) = b ∷ fixed_size n source

-- The library's functions: the digest, the encryption by key and initialization vector, or the
-- error of a key that AES refuses, and the encoding.
pub record Crypto : Type 0 where
  pub sha1 : Bytes → Bytes
  pub encrypt_cbc : Bytes → Bytes → Bytes → Result Bytes
  pub base64_encode : Bytes → Bytes

module _ {W : Type 0} (crypto : Crypto) where
  encrypted : Context W → Result Bytes → Act W (Reply W)
  encrypted context (err e) = replies context false (some (error e))
  encrypted context (ok crypted) =
      replies context true (some (bytes (crypto.base64_encode crypted)))

  encrypt_data : Encryption → Context W → Result Bytes → Act W (Reply W)
  unfolding encrypted fixed_size pkcs5_padding
  encrypt_data aes_data context (err e) = replies context false (some (error e))
  encrypt_data aes_data context (ok input) = encrypted context (
      crypto.encrypt_cbc (take block_size (crypto.sha1 aes_data.key))
        (fixed_size block_size aes_data.initialization_vector) (pkcs5_padding input block_size))

  unfoldable pub encrypt_with_aes :
      (Value → Option Bytes) → Encryption → Context W → List Value → Act W (Reply W)
  unfolding encrypt_data
  encrypt_with_aes json_marshal aes_data context [] =
      replies context false (some (error (str "no data received to encrypt")))
  encrypt_with_aes json_marshal aes_data context (param ∷ _) =
      encrypt_data aes_data context (coerce_type json_marshal param)
