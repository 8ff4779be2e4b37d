-- ===== src/Transforms/Compression.antt =====
-- pkg/transforms/compression.go. The gzip and zlib writers of the standard library and base64 are
-- parameters. A writer is made at the first use and reset at later ones, and gives the same
-- bytes for the same data either way; of its state the model keeps whether it was made.
use app_functions_sdk_go.AppContext.{
  bytes, coerce_type, ok, error, replies, err, Reply, Result, Context, Value,
}
use app_functions_sdk_go.Prelude.{
  str, pure, ◌>>=◌, Act, List, Option, Bool, Bytes, [], ◌∷◌, some, true, false,
}

pub record Compression : Type 0 where
  pub gzip_writer : Bool
  pub zlib_writer : Bool

unfoldable pub new_compression : Compression
new_compression = record { gzip_writer = false; zlib_writer = false }

-- What the two formats make of the data written.
pub record Compressors : Type 0 where
  pub gzip : Bytes → Bytes
  pub zlib : Bytes → Bytes
  pub base64_encode : Bytes → Bytes

module _ {W : Type 0} (compressors : Compressors) (json_marshal : Value → Option Bytes) where
  compressed :
      (Bytes → Bytes)
      → Compression
      → Compression
      → Context W
      → Result Bytes
      → Act W (Compression × Reply W)
  compressed format old new context (err e) = do
    reply ← replies context false (some (error e))
    pure (old, reply)
  compressed format old new context (ok input) = do
    reply ← replies context true (some (bytes (compressors.base64_encode (format input))))
    pure (new, reply)

  unfoldable pub compress_with_gzip :
      Compression → Context W → List Value → Act W (Compression × Reply W)
  unfolding compressed
  compress_with_gzip compression context [] = do
    reply ← replies context false (some (error (str "No Data Received")))
    pure (compression, reply)
  compress_with_gzip compression context (param ∷ _) =
      compressed compressors.gzip compression (record compression { gzip_writer = true }) context
        (coerce_type json_marshal param)

  unfoldable pub compress_with_zlib :
      Compression → Context W → List Value → Act W (Compression × Reply W)
  unfolding compressed
  compress_with_zlib compression context [] = do
    reply ← replies context false (some (error (str "No Data Received")))
    pure (compression, reply)
  compress_with_zlib compression context (param ∷ _) =
      compressed compressors.zlib compression (record compression { zlib_writer = true }) context
        (coerce_type json_marshal param)
