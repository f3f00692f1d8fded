-- ===== src/Tests/CryptoTests.antt =====
-- The theorems on tribecrypto and utils at concrete inputs.
use ipfs_share.Prelude.{
  ◌+◌, ◌%◌, ◌^◌, ◌≡◌, ◌≢◌, refl, [], ◌∷◌, ◌++◌, Bytes, Bool, true, ◌&&◌, some, length, drop, ltb,
  arith, ok, length-append,
}
use ipfs_share.Crypto.SymmetricKey.{SymmetricKey}
use ipfs_share.Crypto.Nonce.{update_nonce}
use ipfs_share.Crypto.Nonce.Value.{Octets, nonce_value, update_nonce-increments}
use ipfs_share.Crypto.FileBoxer.{FileBoxer, done, exhausted, seal, open_file}
use ipfs_share.Crypto.FileBoxer.Termination.{loops_end}
use ipfs_share.Crypto.FileBoxer.RoundTrip.{IsNonce, open_file-seal}
use ipfs_share.Crypto.AnonymBoxer.{Box, IsBox, AnonymBoxer, open_anonym, auth_seal, auth_open}
use ipfs_share.Crypto.AnonymBoxer as AnonymBoxing
use ipfs_share.Crypto.AnonymBoxer.RoundTrip.{open_anonym-seal}
use ipfs_share.Tests.World.{tagged, tagged-IsSecretBox}

abbrev pub eight : Bytes
eight = 1 ∷ 2 ∷ 3 ∷ 4 ∷ 5 ∷ 6 ∷ 7 ∷ 255 ∷ []

abbrev pub nonce24 : Bytes
nonce24 = eight ++ (eight ++ eight)

abbrev all_octets : Bytes → Bool
all_octets [] = true
all_octets (b ∷ bs) = ltb b 256 && all_octets bs

all_octets-Octets : (bs : Bytes) → all_octets bs ≡ true → Octets bs
all_octets-Octets [] h = tt
all_octets-Octets (b ∷ bs) h = (ground arith, all_octets-Octets bs (ground arith))

pub nonce24-IsNonce : IsNonce nonce24
nonce24-IsNonce = (all_octets-Octets nonce24 refl, refl)

abbrev hello : Bytes
hello = b'h' ∷ b'e' ∷ b'l' ∷ b'l' ∷ b'o' ∷ []

abbrev key1 : SymmetricKey
key1 = record { key = 7 ∷ 7 ∷ [] }

update_nonce-increments_example :
    (next : Bytes) × (update_nonce nonce24 ≡ some next)
    × Octets next
    × (length next ≡ 24)
    × (nonce_value next ≡ (nonce_value nonce24 + 1) % 2 ^ 192)
update_nonce-increments_example =
    update_nonce-increments nonce24 (all_octets-Octets nonce24 refl) refl

abbrev file_key : FileBoxer
file_key = record { key = 9 ∷ [] }

-- Two chunks and a rest.
abbrev long_text : Bytes
long_text = nonce24 ++ (nonce24 ++ (nonce24 ++ (nonce24 ++ (nonce24 ++ (nonce24 ++ hello)))))

open_file-seal_example :
    (c : Bytes) × (seal tagged file_key nonce24 long_text ≡ done c)
    × (open_file tagged file_key c ≡ (done tt, long_text))
open_file-seal_example =
    open_file-seal tagged tagged-IsSecretBox file_key nonce24 long_text nonce24-IsNonce

-- A box without secrets: a pair is twice the same 32 bytes.
abbrev open_box : Box
open_box = record {
  Pair = λ pk sk. (pk ≡ sk) × (length pk ≡ 32);
  seal_box = λ m nonce pk sk. nonce24 ++ m;
  open_box = λ c nonce pk sk. some (drop 24 c);
  sum512 = λ m. m;
}

open_box-IsBox : IsBox open_box
open_box-IsBox = record {
  opens = λ m nonce pk1 sk1 pk2 sk2 p q. refl;
  key_length = λ pk sk p. p.1;
  longer = λ m nonce pk sk. omega (arith, length-append nonce24 m);
}

abbrev key32 : Bytes
key32 = nonce24 ++ eight

abbrev boxer32 : AnonymBoxer
boxer32 = record { public_key = key32; private_key = key32 }

open_anonym-seal_example :
    open_anonym open_box boxer32 (AnonymBoxing.seal open_box key32 key32 key32 key32 hello)
    ≡ ok hello
open_anonym-seal_example =
    open_anonym-seal open_box open_box-IsBox boxer32 key32 key32 key32 hello (refl, refl)
      (refl, refl) refl

abbrev pub signature : Bytes
signature = key32 ++ (key32 ++ 27 ∷ [])

loops_end_example :
    (seal tagged file_key nonce24 long_text ≢ exhausted)
    × ((open_file tagged file_key long_text).0 ≢ exhausted)
loops_end_example = loops_end tagged file_key nonce24 long_text
