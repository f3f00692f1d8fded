-- ===== src/Crypto/Nonce.antt =====
-- tribecrypto/fileboxer.go, `updateNonce`: a 24-byte nonce as three big-endian 64-bit words.
pub mod Value
use ipfs_share.Prelude.{
  ℕ, ◌+◌, ◌*◌, ◌/◌, ◌%◌, ◌^◌, ◌-◌, [], ◌∷◌, ◌++◌, Bytes, Option, none, some, ◌==◌, if◌then◌else◌,
}

-- `maxUint`.
abbrev max_uint : ℕ
max_uint = 2 ^ 64 - 1

-- `binary.Read(reader, binary.BigEndian, &x)`: an error where fewer than eight bytes are left.
read_u64 : Bytes → Option (ℕ × Bytes)
read_u64 (a ∷ b ∷ c ∷ d ∷ e ∷ f ∷ g ∷ h ∷ rest) = some (word, rest)
  where
    word : ℕ
    word =
        a * 2 ^ 56 + b * 2 ^ 48 + c * 2 ^ 40 + d * 2 ^ 32 + e * 2 ^ 24 + f * 2 ^ 16 + g * 2 ^ 8 + h
read_u64 _ = none

-- `binary.Write(buffer, binary.BigEndian, &x)`.
write_u64 : ℕ → Bytes
write_u64 x =
    x / 2 ^ 56 % 256
    ∷ x / 2 ^ 48 % 256
    ∷ x / 2 ^ 40 % 256
    ∷ x / 2 ^ 32 % 256
    ∷ x / 2 ^ 24 % 256
    ∷ x / 2 ^ 16 % 256
    ∷ x / 2 ^ 8 % 256
    ∷ x % 256
    ∷ []

-- `x++` on a uint64.
abbrev increment : ℕ → ℕ
increment x = (x + 1) % 2 ^ 64

-- The carries of `updateNonce`, from the last word to the first.
carry : ℕ → ℕ → ℕ → ℕ × ℕ × ℕ
carry chunk1 chunk2 chunk3 =
    if chunk3 == max_uint
    then (
      (if chunk2 == max_uint then increment chunk1 else chunk1),
      increment chunk2,
      increment chunk3,
    )
    else (chunk1, chunk2, increment chunk3)

infixl 5 ◌>>=◌
abbrev ◌>>=◌ : {A B : Type 0} → Option A → (A → Option B) → Option B
none >>= f = none
some a >>= f = f a

abbrev write_words : ℕ × ℕ × ℕ → Bytes
write_words (c1, c2, c3) = write_u64 c1 ++ write_u64 c2 ++ write_u64 c3

pub update_nonce : Bytes → Option Bytes
unfolding carry
update_nonce base = do
  (chunk1, rest1) ← read_u64 base
  (chunk2, rest2) ← read_u64 rest1
  (chunk3, _) ← read_u64 rest2
  some (write_words (carry chunk1 chunk2 chunk3))
