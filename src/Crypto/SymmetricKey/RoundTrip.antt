-- ===== src/Crypto/SymmetricKey/RoundTrip.antt =====
-- A sealed box opens under its key; what is too short for a nonce and a tag does not.
use ipfs_share.Prelude.{
  ℕ, ◌+◌, ◌≡◌, ◌++◌, Bytes, some, false, length, length-append, ltb, arith, take-append,
  drop-append,
}
use ipfs_share.Crypto.SecretBox.{SecretBox, IsSecretBox}
use ipfs_share.Crypto.SymmetricKey.{SymmetricKey, box_seal, box_open}

long_enough : (n k : ℕ) → n ≡ 24 + k → ltb n 24 ≡ false
long_enough n k h = ground arith

module _ (b : SecretBox) (laws : IsSecretBox b) where
  -- Under the laws of the box: BoxOpen of what BoxSeal made under the same key and a nonce of 24
  -- bytes gives the message back.
  pub box_open-box_seal :
      (k : SymmetricKey) (nonce message : Bytes)
      → length nonce ≡ 24
      → box_open b k (box_seal b k nonce message) ≡ some message
  unfolding box_open box_seal
  box_open-box_seal k nonce message h =
      rw
        (
          long_enough (length (nonce ++ c)) (length c) (omega (arith, length-append nonce c)),
          drop-append 24 nonce c h,
          take-append 24 nonce c h,
        )
        (laws.opens message nonce k.key)
    where
      c : Bytes
      c = b.seal_box message nonce k.key

  -- A box is longer than its message by the nonce and the tag.
  pub length-box_seal :
      (k : SymmetricKey) (nonce message : Bytes)
      → length nonce ≡ 24
      → length (box_seal b k nonce message) ≡ 40 + length message
  unfolding box_seal
  length-box_seal k nonce message h = omega (
    arith,
    length-append nonce (b.seal_box message nonce k.key),
    laws.overhead message nonce k.key,
  )
