-- ===== src/Crypto/FileBoxer/RoundTrip.antt =====
-- `Open` gives back what `Seal` was given.
use mathlib.Core.List.{append_assoc, append-nil}
use ipfs_share.Prelude.{
  ℕ, zero, suc, ◌+◌, ◌≤◌, ◌<◌, ◌≡◌, refl, ap, ◌∙◌, [], ◌∷◌, ◌++◌, Bytes, some, false, length, take,
  drop, ltb, ◌==◌, arith, length-append, length-take, length-drop, take-append, drop-append,
  take-all, drop-all, take-append-drop,
}
use native.Mathlib.Decide.{dec_lt}
use ipfs_share.Crypto.SecretBox.{SecretBox, IsSecretBox}
use ipfs_share.Crypto.Nonce.{update_nonce}
use ipfs_share.Crypto.Nonce.Value.{Octets, update_nonce-increments}
use ipfs_share.Crypto.FileBoxer.{
  FileBoxer, done, seal_loop, seal, open_chunk, writes, open_loop, open_file,
}

-- A nonce as `rand.Read` fills it.
abbrev pub IsNonce : Bytes → Type 0
IsNonce nonce = Octets nonce × (length nonce ≡ 24)

-- The two tests that `Open` makes of a chunk's length.
not_empty : (n k : ℕ) → n ≡ 40 + k → (n == 0) ≡ false
not_empty n k h = ground arith

suc_not_zero : (n : ℕ) → (suc n == 0) ≡ false
suc_not_zero n = ground arith

not_short : (n k : ℕ) → n ≡ 40 + k → ltb n 24 ≡ false
not_short n k h = ground arith

cut_last :
    (enc c : Bytes)
    → length enc ≤ 104
    → c ≡ []
    → (take 104 (enc ++ c) ≡ enc) × (drop 104 (enc ++ c) ≡ c)
cut_last enc c h e = rw (e, append-nil) (take-all 104 enc h, drop-all 104 enc h)

module _ (b : SecretBox) (laws : IsSecretBox b) (boxer : FileBoxer) where
  abbrev sealed : Bytes → Bytes → Bytes
  sealed nonce part = nonce ++ b.seal_box part nonce boxer.key

  length-sealed :
      (nonce part : Bytes) → length nonce ≡ 24 → length (sealed nonce part) ≡ 40 + length part
  length-sealed nonce part h = omega (
    arith,
    length-append nonce (b.seal_box part nonce boxer.key),
    laws.overhead part nonce boxer.key,
  )

  open_chunk-sealed :
      (nonce part : Bytes)
      → length nonce ≡ 24
      → open_chunk b boxer (sealed nonce part) ≡ writes part
  unfolding open_chunk
  open_chunk-sealed nonce part l = rw (not_empty _ (length part) (length-sealed nonce part l)) (
      rw (not_short _ (length part) (length-sealed nonce part l)) (
        rw (drop-append 24 nonce (b.seal_box part nonce boxer.key) l) (
          rw (take-append 24 nonce (b.seal_box part nonce boxer.key) l)
            (rw (laws.opens part nonce boxer.key)))))

  -- At a chunk that `Seal` made, `Open` writes the chunk's plaintext and goes on.
  open_round :
      (g : ℕ) (reader out part rest : Bytes)
      → open_chunk b boxer (take 104 reader) ≡ writes part
      → drop 104 reader ≡ rest
      → open_loop b (suc g) boxer reader out ≡ open_loop b g boxer rest (out ++ part)
  unfolding open_loop
  open_round g reader out part rest e d = rw (e, open_loop) (rw d)

  -- `c` is what `Seal` made of `m`, and `Open` takes it back with any fuel beyond its length.
  record Opens (m c : Bytes) : Type 0 where
    empty : m ≡ [] → c ≡ []
    opens : (g : ℕ) (out : Bytes) → length c < g → open_loop b g boxer c out ≡ (done tt, out ++ m)

  Opens-nil : Opens [] []
  unfolding open_loop open_chunk
  Opens-nil = record { empty = λ e. refl; opens = opens_nil }
    where
      opens_nil : (g : ℕ) (out : Bytes) → 0 < g → open_loop b g boxer [] out ≡ (done tt, out ++ [])
      opens_nil zero out h = absurd (omega arith)
      opens_nil (suc g) out h = rw append-nil

  -- A chunk as `Open` cuts it off: all of a full one, and all there is of a last one.
  cut_chunk :
      (nonce m c : Bytes)
      → length nonce ≡ 24
      → (drop 64 m ≡ [] → c ≡ [])
      → (take 104 (sealed nonce (take 64 m) ++ c) ≡ sealed nonce (take 64 m))
        × (drop 104 (sealed nonce (take 64 m) ++ c) ≡ c)
  cut_chunk nonce m c l e = elim (dec_lt (length m) 64) [
    | yes p ↦
        cut_last (sealed nonce (take 64 m)) c
          (omega
            (arith, length-sealed nonce (take 64 m) l, ap length (take-all 64 m (omega arith))))
          (e (drop-all 64 m (omega arith)))
    | no p ↦ (
      take-append 104 (sealed nonce (take 64 m)) c (full (omega arith)),
      drop-append 104 (sealed nonce (take 64 m)) c (full (omega arith)),
    )
  ]
    where
      full : 64 ≤ length m → length (sealed nonce (take 64 m)) ≡ 104
      full h = omega (arith, length-sealed nonce (take 64 m) l, length-take 64 m h)

  Opens-chunk :
      (nonce m c : Bytes)
      → length nonce ≡ 24
      → 0 < length m
      → Opens (drop 64 m) c
      → Opens m (sealed nonce (take 64 m) ++ c)
  Opens-chunk nonce m c l h o = record {
    empty = λ e. absurd (omega (arith, ap length e));
    opens = opens;
  }
    where
      enc : Bytes
      enc = sealed nonce (take 64 m)

      opens :
          (g : ℕ) (out : Bytes)
          → length (enc ++ c) < g
          → open_loop b g boxer (enc ++ c) out ≡ (done tt, out ++ m)
      opens zero out f = absurd (omega arith)
      opens (suc g) out f =
          let (front, rest) = cut_chunk nonce m c l o.empty in
          open_round g (enc ++ c) out (take 64 m) c
            (ap (open_chunk b boxer) front ∙ open_chunk-sealed nonce (take 64 m) l) rest
          ∙ o.opens g (out ++ take 64 m)
              (omega (arith, length-append enc c, length-sealed nonce (take 64 m) l))
          ∙ ap (λ (t : Bytes). (done tt, t))
              (append_assoc out (take 64 m) (drop 64 m) ∙ ap (◌++◌ out) (take-append-drop 64 m))

  seal_round :
      (fuel : ℕ) (nonce m next c : Bytes)
      → (length (take 64 m) == 0) ≡ false
      → update_nonce nonce ≡ some next
      → seal_loop b fuel boxer next (drop 64 m) ≡ done c
      → seal_loop b (suc fuel) boxer nonce m ≡ done (sealed nonce (take 64 m) ++ c)
  unfolding seal_loop
  seal_round fuel nonce m next c nonempty found rest =
      rw (nonempty, seal_loop) (rw (found, seal_loop) (rw rest))

  seal_loop-Opens :
      (fuel : ℕ) (nonce m : Bytes)
      → IsNonce nonce
      → length m < fuel
      → (c : Bytes) × (seal_loop b fuel boxer nonce m ≡ done c) × Opens m c
  unfolding seal_loop
  seal_loop-Opens zero nonce m i h = absurd (omega arith)
  seal_loop-Opens (suc fuel) nonce [] i h = ([], refl, Opens-nil)
  seal_loop-Opens (suc fuel) nonce (x ∷ m) i h =
      let (next, found, octets, size, _) = update_nonce-increments nonce i.0 i.1 in
      let (c, sealed_rest, o) =
        seal_loop-Opens fuel next (drop 64 (x ∷ m)) (octets, size)
          (omega (arith, length-drop 64 (x ∷ m))) in
      (
        sealed nonce (take 64 (x ∷ m)) ++ c,
        seal_round fuel nonce (x ∷ m) next c (suc_not_zero (length (take 63 m))) found sealed_rest,
        Opens-chunk nonce (x ∷ m) c i.1 (omega arith) o,
      )

  -- Under the laws of the box: Seal ends without an error on every input and every nonce of 24
  -- bytes, and Open of its result under the same key ends without an error and writes the input.
  pub open_file-seal :
      (nonce m : Bytes)
      → IsNonce nonce
      → (c : Bytes) × (seal b boxer nonce m ≡ done c) × (open_file b boxer c ≡ (done tt, m))
  unfolding seal open_file
  open_file-seal nonce m i =
      let (c, e, o) = seal_loop-Opens (suc (length m)) nonce m i (omega arith) in
      (c, e, o.opens (suc (length c)) [] (omega arith))
