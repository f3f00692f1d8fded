-- ===== src/Crypto/AnonymBoxer.antt =====
-- tribecrypto/anonymboxer.go: sealed boxes to a public key, from a sender who stays unknown.
pub mod RoundTrip
use ipfs_share.Prelude.{
  ℕ, ◌≤◌, ◌≡◌, ◌++◌, Bytes, Option, none, some, length, take, drop, ltb, leb, if◌then◌else◌, Result,
  ok, err, panic,
}

-- nacl/box and sha3, which the source calls: `Seal(nil, m, nonce, peers, mine)`, `Open` and
-- `Sum512`. `Pair pk sk` says that `GenerateKey` may give this pair.
pub record Box : Type 1 where
  pub Pair : Bytes → Bytes → Type 0
  pub seal_box : Bytes → Bytes → Bytes → Bytes → Bytes
  pub open_box : Bytes → Bytes → Bytes → Bytes → Option Bytes
  pub sum512 : Bytes → Bytes

pub record IsBox (b : Box) : Type 0 where
  pub opens :
      (m nonce pk1 sk1 pk2 sk2 : Bytes)
      → b.Pair pk1 sk1
      → b.Pair pk2 sk2
      → b.open_box (b.seal_box m nonce pk2 sk1) nonce pk1 sk2 ≡ some m
  pub key_length : (pk sk : Bytes) → b.Pair pk sk → length pk ≡ 32
  pub longer : (m nonce pk sk : Bytes) → 16 ≤ length (b.seal_box m nonce pk sk)

pub data BoxError : Type 0 where
  too_short not_decrypted : BoxError

pub record AnonymBoxer : Type 0 where
  pub public_key : Bytes
  pub private_key : Bytes

module _ (b : Box) where
  get_nonce : Bytes → Bytes → Bytes
  get_nonce pk1 pk2 = take 24 (b.sum512 (pk1 ++ pk2))

  -- `AnonymPublicKey.Seal`, with the ephemeral pair and the 32 random bytes that it draws.
  pub seal : Bytes → Bytes → Bytes → Bytes → Bytes → Bytes
  unfolding get_nonce
  seal pk ephemeral_pk ephemeral_sk r m =
      ephemeral_pk ++ b.seal_box (r ++ m) (get_nonce ephemeral_pk pk) pk ephemeral_sk

  -- `m[32:]` panics on a shorter `m`.
  strip : Option Bytes → Result BoxError Bytes
  strip none = err not_decrypted
  strip (some m) = if ltb (length m) 32 then panic else ok (drop 32 m)

  pub open_anonym : AnonymBoxer → Bytes → Result BoxError Bytes
  unfolding get_nonce strip
  open_anonym boxer ct =
      let ephemeral_pk = take 32 ct in
      if leb (length ct) 32
      then err too_short
      else strip (
          b.open_box (drop 32 ct) (get_nonce ephemeral_pk boxer.public_key) ephemeral_pk
            boxer.private_key)

  pub auth_seal : Bytes → Bytes → Bytes → Bytes → Bytes
  auth_seal nonce message other_pk my_sk = nonce ++ b.seal_box message nonce other_pk my_sk

  -- `bytesBox[:24]` panics on a shorter box; `err` stands for the returned `false`.
  pub auth_open : Bytes → Bytes → Bytes → Result BoxError Bytes
  auth_open bytes_box other_pk my_sk =
      if ltb (length bytes_box) 24
      then panic
      else authenticated (b.open_box (drop 24 bytes_box) (take 24 bytes_box) other_pk my_sk)
    where
      authenticated : Option Bytes → Result BoxError Bytes
      authenticated none = err not_decrypted
      authenticated (some m) = ok m
