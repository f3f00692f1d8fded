-- ===== src/Crypto/SymmetricKey.antt =====
-- tribecrypto/symmetrickey.go: a secretbox key. A box carries its nonce in front.
pub mod RoundTrip
use ipfs_share.Prelude.{ℕ, ◌++◌, Bytes, Option, none, some, length, take, drop, ltb, if◌then◌else◌}
use ipfs_share.Crypto.SecretBox.{SecretBox}

-- The field `RNG` is an argument here: the nonce that it gives.
pub record SymmetricKey : Type 0 where
  pub key : Bytes

module _ (b : SecretBox) where
  unfoldable pub box_seal : SymmetricKey → Bytes → Bytes → Bytes
  box_seal k nonce message = nonce ++ b.seal_box message nonce k.key

  -- `none` where the source returns `false`.
  unfoldable pub box_open : SymmetricKey → Bytes → Option Bytes
  box_open k bytes_box =
      if ltb (length bytes_box) 24
      then none
      else b.open_box (drop 24 bytes_box) (take 24 bytes_box) k.key
