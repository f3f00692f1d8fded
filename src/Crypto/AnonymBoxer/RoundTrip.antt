-- ===== src/Crypto/AnonymBoxer/RoundTrip.antt =====
-- A box sealed to a public key opens with its private key.
use mathlib.Core.Path.{◌≡◌}
use ipfs_share.Prelude.{
  ℕ, ◌+◌, ◌≤◌, ◌++◌, Bytes, false, length, length-append, ltb, leb, arith, take-append, drop-append,
  ok, some,
}
use ipfs_share.Crypto.AnonymBoxer.{
  Box, IsBox, AnonymBoxer, get_nonce, seal, strip, open_anonym, auth_seal, auth_open,
}

-- The guards of `Open` and of `AuthOpen` let through what is long enough.
past_key : (n k : ℕ) → n ≡ 32 + k → 16 ≤ k → leb n 32 ≡ false
past_key n k h l = ground arith

past_random : (n k : ℕ) → n ≡ 32 + k → ltb n 32 ≡ false
past_random n k h = ground arith

past_nonce : (n k : ℕ) → n ≡ 24 + k → ltb n 24 ≡ false
past_nonce n k h = ground arith

module _ (b : Box) (laws : IsBox b) where
  strip-append : (r m : Bytes) → length r ≡ 32 → strip b (some (r ++ m)) ≡ ok m
  unfolding strip
  strip-append r m h =
      rw (past_random (length (r ++ m)) (length m) (omega (arith, length-append r m)))
        (rw (drop-append 32 r m h))

  -- Under the laws of the box: the owner of a key pair opens what anybody sealed to the pair's
  -- public key with an ephemeral pair and 32 random bytes.
  pub open_anonym-seal :
      (boxer : AnonymBoxer) (ephemeral_pk ephemeral_sk r m : Bytes)
      → b.Pair boxer.public_key boxer.private_key
      → b.Pair ephemeral_pk ephemeral_sk
      → length r ≡ 32
      → open_anonym b boxer (seal b boxer.public_key ephemeral_pk ephemeral_sk r m) ≡ ok m
  unfolding open_anonym seal
  open_anonym-seal boxer e_pk e_sk r m mine ephemeral h =
      rw (past_key (length (e_pk ++ c)) (length c) (omega (arith, length-append e_pk c, size)) tail)
        (rw (take-append 32 e_pk c size) (
          rw (drop-append 32 e_pk c size) (
            rw
              (laws.opens (r ++ m) nonce e_pk e_sk boxer.public_key boxer.private_key ephemeral
                mine)
              (strip-append r m h))))
    where
      nonce : Bytes
      nonce = get_nonce b e_pk boxer.public_key

      c : Bytes
      c = b.seal_box (r ++ m) nonce boxer.public_key e_sk

      size : length e_pk ≡ 32
      size = laws.key_length e_pk e_sk ephemeral

      tail : 16 ≤ length c
      tail = laws.longer (r ++ m) nonce boxer.public_key e_sk

  -- Under the laws of the box, for two key pairs: a receiver opens with AuthOpen what AuthSeal
  -- made for it under a nonce of 24 bytes.
  pub auth_open-auth_seal :
      (nonce m my_pk my_sk other_pk other_sk : Bytes)
      → b.Pair my_pk my_sk
      → b.Pair other_pk other_sk
      → length nonce ≡ 24
      → auth_open b (auth_seal b nonce m other_pk my_sk) my_pk other_sk ≡ ok m
  unfolding auth_open auth_seal
  auth_open-auth_seal nonce m my_pk my_sk other_pk other_sk mine other h =
      rw (past_nonce (length (nonce ++ c)) (length c) (omega (arith, length-append nonce c))) (
        rw (drop-append 24 nonce c h) (
          rw (take-append 24 nonce c h)
            (rw (laws.opens m nonce my_pk my_sk other_pk other_sk mine other))))
    where
      c : Bytes
      c = b.seal_box m nonce other_pk my_sk
