-- ===== src/Crypto/SecretBox.antt =====
-- golang.org/x/crypto/nacl/secretbox, which the program calls: its two operations as parameters,
-- and what its documentation promises of them.
use ipfs_share.Prelude.{◌+◌, ◌≡◌, Bytes, Option, some, length}

-- `Seal(nil, message, nonce, key)` and `Open(nil, box, nonce, key)`.
pub record SecretBox : Type 0 where
  pub seal_box : Bytes → Bytes → Bytes → Bytes
  pub open_box : Bytes → Bytes → Bytes → Option Bytes

-- A sealed message opens under the same nonce and key, and is longer by `secretbox.Overhead`.
pub record IsSecretBox (b : SecretBox) : Type 0 where
  pub opens : (m nonce key : Bytes) → b.open_box (b.seal_box m nonce key) nonce key ≡ some m
  pub overhead : (m nonce key : Bytes) → length (b.seal_box m nonce key) ≡ 16 + length m
