-- ===== src/Transforms/Encryption/Padding.antt =====
-- pkg/transforms/encryption.go: the padding fills whole blocks and can be taken off again.
use app_functions_sdk_go.Transforms.Encryption.{pkcs5_padding}
use native.Mathlib.Nat.{div-add-mod, mod-lt, mul-mod_right}
use app_functions_sdk_go.Prelude.{
  ◌/◌, take-append, ◌*◌, refl, zero, length-replicate, arith, length-append, ◌+◌, ◌≤◌, suc, ◌≡◌,
  ◌%◌, replicate, ◌-◌, ◌++◌, ◌<◌, length, ℕ, take, Bytes, [], ◌∷◌,
}

-- How a receiver takes the padding off: the last byte says how many bytes to drop.
last_byte : Bytes → ℕ
last_byte [] = 0
last_byte (b ∷ []) = b
last_byte (_ ∷ b ∷ rest) = last_byte (b ∷ rest)

pub unpad : Bytes → Bytes
unfolding last_byte
unpad padded = take (length padded - last_byte padded) padded

last_byte-append : (xs : Bytes) (n b : ℕ) → last_byte (xs ++ replicate (suc n) b) ≡ b
unfolding last_byte
last_byte-append [] zero b = refl
last_byte-append [] (suc n) b = last_byte-append [] n b
last_byte-append (x ∷ []) n b = last_byte-append [] n b
last_byte-append (x ∷ y ∷ xs) n b = last_byte-append (y ∷ xs) n b

whole_blocks : (n size : ℕ) → 0 < size → (n + (size - n % size)) % size ≡ 0
whole_blocks n size h =
    let blocks : n + (size - n % size) ≡ size * (n / size + 1) =
      omega (arith, div-add-mod n size, mod-lt n h) in
    rw blocks (mul-mod_right size (n / size + 1))

-- A padding of `p` bytes, each of them `p`.
unpad-append : (plain : Bytes) (p : ℕ) → 0 < p → unpad (plain ++ replicate p p) ≡ plain
unfolding unpad
unpad-append plain zero h = elim h [ ]
unpad-append plain (suc m) h =
    let total : length (plain ++ replicate (suc m) (suc m)) - suc m ≡ length plain =
      omega (
        arith,
        length-append plain (replicate (suc m) (suc m)),
        length-replicate (suc m) (suc m),
      ) in
    rw (last_byte-append plain m (suc m), total) (take-append plain (replicate (suc m) (suc m)))

-- The padding is between one byte and a whole block, fills up the last block, and the receiver
-- gets the data back, for every block size that fits in a byte.
pub pkcs5_padding_lem :
    (plain : Bytes) (size : ℕ)
    → 0 < size
    → size < 256
    → (length (pkcs5_padding plain size) % size ≡ 0)
      × (length plain < length (pkcs5_padding plain size))
      × (length (pkcs5_padding plain size) ≤ length plain + size)
      × (unpad (pkcs5_padding plain size) ≡ plain)
unfolding pkcs5_padding
pkcs5_padding_lem plain size some_size small =
    let n = length plain in
    let p = size - n % size in
    let byte : p % 256 ≡ p = omega (arith, mod-lt n some_size) in
    let total : length (plain ++ replicate p p) ≡ n + p =
      omega (arith, length-append plain (replicate p p), length-replicate p p) in
    rw byte (
      rw total (whole_blocks n size some_size),
      omega (arith, total, mod-lt n some_size),
      omega (arith, total),
      unpad-append plain p (omega (arith, mod-lt n some_size)),
    )
