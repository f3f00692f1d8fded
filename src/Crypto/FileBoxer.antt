-- ===== src/Crypto/FileBoxer.antt =====
-- tribecrypto/fileboxer.go: a file sealed in chunks of at most 64 bytes, each behind its nonce.
pub mod RoundTrip
pub mod Termination
use ipfs_share.Prelude.{
  ℕ, zero, suc, ◌-◌, [], ◌++◌, Bytes, true, false, Option, none, some, length, take, drop, ltb,
  ◌==◌, if◌then◌else◌,
}
use ipfs_share.Crypto.SecretBox.{SecretBox}
use ipfs_share.Crypto.Nonce.{update_nonce}

-- `chunkSize` and `overheadSize`.
abbrev pub chunk_size : ℕ
chunk_size = 104

abbrev pub overhead_size : ℕ
overhead_size = 40

pub record FileBoxer : Type 0 where
  pub key : Bytes

-- How a call ends: with its result, with an error, or with a slice out of range. `exhausted` is
-- the model's own: its fuel ran out.
pub data Outcome (A : Type 0) : Type 0 where
  done : A → Outcome A
  failed : Outcome A
  panicked : Outcome A
  exhausted : Outcome A

-- `append(nonce[:], enc...)` in front of what the later rounds write.
abbrev put_front : Bytes → Outcome Bytes → Outcome Bytes
put_front enc (done rest) = done (enc ++ rest)
put_front enc failed = failed
put_front enc panicked = panicked
put_front enc exhausted = exhausted

-- What a round of `Open` does: it ends the loop, or writes what it has decrypted.
pub data Round : Type 0 where
  stop panics fails : Round
  writes : Bytes → Round

abbrev decrypted : Option Bytes → Round
decrypted none = fails
decrypted (some dec) = writes dec

module _ (b : SecretBox) where
  -- The loop of `Seal`. A read takes up to 64 bytes of what is left, and all of a shorter rest.
  seal_loop : ℕ → FileBoxer → Bytes → Bytes → Outcome Bytes
  seal_loop zero boxer nonce reader = exhausted
  seal_loop (suc fuel) boxer nonce reader =
      let chunk = take (chunk_size - overhead_size) reader in
      let enc = nonce ++ b.seal_box chunk nonce boxer.key in
      elim (length chunk == 0) [
        | true ↦ done []
        | false ↦ elim (update_nonce nonce) [
          | none ↦ failed
          | some next ↦
              put_front enc (seal_loop fuel boxer next (drop (chunk_size - overhead_size) reader))
        ]
      ]

  -- `nonce` is what `rand.Read` gave.
  pub seal : FileBoxer → Bytes → Bytes → Outcome Bytes
  unfolding seal_loop
  seal boxer nonce reader = seal_loop (suc (length reader)) boxer nonce reader

  -- One round of `Open` on the chunk that it has read. `chunk[24:n]` panics below 24.
  open_chunk : FileBoxer → Bytes → Round
  open_chunk boxer chunk =
      if length chunk == 0
      then stop
      else if ltb (length chunk) 24
      then Round.panics
      else decrypted (b.open_box (drop 24 chunk) (take 24 chunk) boxer.key)

  -- The loop of `Open`, with what it has written to `out`.
  open_loop : ℕ → FileBoxer → Bytes → Bytes → Outcome (Unit {0}) × Bytes
  open_loop zero boxer reader out = (exhausted, out)
  open_loop (suc fuel) boxer reader out = elim (open_chunk boxer (take chunk_size reader)) [
    | stop ↦ (done tt, out)
    | panics ↦ (panicked, out)
    | fails ↦ (failed, out)
    | writes dec ↦ open_loop fuel boxer (drop chunk_size reader) (out ++ dec)
  ]

  unfoldable pub open_file : FileBoxer → Bytes → Outcome (Unit {0}) × Bytes
  unfolding open_loop open_chunk
  open_file boxer reader = open_loop (suc (length reader)) boxer reader []
