-- ===== src/Crypto/FileBoxer/Termination.antt =====
-- The loops of `Seal` and `Open` end, whatever the box does: a round takes at least one byte.
use ipfs_share.Prelude.{
  ℕ, zero, suc, ◌<◌, ◌≡◌, ◌≢◌, refl, [], ◌∷◌, ◌++◌, Bytes, false, Option, none, some, length, take,
  drop, ◌==◌, arith, length-drop,
}
use ipfs_share.Crypto.SecretBox.{SecretBox}
use ipfs_share.Crypto.Nonce.{update_nonce}
use ipfs_share.Crypto.FileBoxer.{
  FileBoxer, Outcome, done, failed, panicked, exhausted, put_front, seal_loop, seal, Round, stop,
  panics, fails, writes, open_chunk, open_loop, open_file,
}

not_zero : (n : ℕ) → (suc n == 0) ≡ false
not_zero n = ground arith

module _ (b : SecretBox) (boxer : FileBoxer) where
  put_front-ends : (enc : Bytes) (r : Outcome Bytes) → r ≢ exhausted → put_front enc r ≢ exhausted
  put_front-ends enc (done rest) h e = cc
  put_front-ends enc failed h e = cc
  put_front-ends enc panicked h e = cc
  put_front-ends enc exhausted h e = h refl

  seal_loop-ends :
      (fuel : ℕ) (nonce reader : Bytes)
      → length reader < fuel
      → seal_loop b fuel boxer nonce reader ≢ exhausted
  unfolding seal_loop
  seal_loop-ends zero nonce reader h = absurd (omega (arith, h))
  seal_loop-ends (suc fuel) nonce [] h = λ e. cc
  seal_loop-ends (suc fuel) nonce (x ∷ reader) h =
      rw (not_zero (length (take 63 reader)), seal_loop)
        (by_nonce
          (λ next.
            seal_loop-ends fuel next (drop 64 (x ∷ reader))
              (omega (arith, h, length-drop 64 (x ∷ reader))))
          (update_nonce nonce))
    where
      by_nonce :
          ((next : Bytes) → seal_loop b fuel boxer next (drop 64 (x ∷ reader)) ≢ exhausted)
          → (o : Option Bytes)
          → (elim o [
            | none ↦ failed
            | some next ↦
                put_front
                  (nonce ++ b.seal_box (take 64 (x ∷ reader)) nonce boxer.key)
                  (seal_loop b fuel boxer next (drop 64 (x ∷ reader)))
          ])
            ≢ exhausted
      by_nonce rest none = λ e. cc
      by_nonce rest (some next) = put_front-ends _ _ (rest next)

  open_loop-ends :
      (fuel : ℕ) (reader out : Bytes)
      → length reader < fuel
      → (open_loop b fuel boxer reader out).0 ≢ exhausted
  unfolding open_loop open_chunk
  open_loop-ends zero reader out h = absurd (omega (arith, h))
  open_loop-ends (suc fuel) [] out h = λ e. cc
  open_loop-ends (suc fuel) (x ∷ reader) out h =
      by_round
        (λ dec.
          open_loop-ends fuel (drop 104 (x ∷ reader)) (out ++ dec)
            (omega (arith, h, length-drop 104 (x ∷ reader))))
        (open_chunk b boxer (take 104 (x ∷ reader)))
    where
      by_round :
          ((dec : Bytes)
            → (open_loop b fuel boxer (drop 104 (x ∷ reader)) (out ++ dec)).0 ≢ exhausted)
          → (r : Round)
          → (elim r as (λ q. Outcome (Unit {0}) × Bytes) [
            | stop ↦ (done tt, out)
            | panics ↦ (panicked, out)
            | fails ↦ (failed, out)
            | writes dec ↦ open_loop b fuel boxer (drop 104 (x ∷ reader)) (out ++ dec)
          ]).0
            ≢ exhausted
      by_round rest stop = λ e. cc
      by_round rest panics = λ e. cc
      by_round rest fails = λ e. cc
      by_round rest (writes dec) = rest dec

  -- Whatever the box and the input are, the loops of Seal and Open end: neither runs out of the
  -- fuel of one round more than the input has bytes.
  pub loops_end :
      (nonce reader : Bytes)
      → (seal b boxer nonce reader ≢ exhausted) × ((open_file b boxer reader).0 ≢ exhausted)
  unfolding seal open_file
  loops_end nonce reader = (
    seal_loop-ends (suc (length reader)) nonce reader (omega arith),
    open_loop-ends (suc (length reader)) reader [] (omega arith),
  )
