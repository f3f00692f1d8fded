-- ===== src/Crypto/Signature.antt =====
-- utils/signatureutils.go, `SigToRSV`: a 65-byte Ethereum signature in its three parts.
use Prim.Native.Nat.add
use ipfs_share.Prelude.{
  ℕ, zero, suc, ◌+◌, ◌≢◌, ◌∙◌, ap, sym, ==_iff, ◌≡◌, refl, ◌⊎◌, inl, inr, [], ◌∷◌, ◌++◌, Bytes,
  Option, none, some, length, take, drop, ◌==◌, if◌then◌else◌, take-append-drop, length-take,
  length-drop, arith, Bool-cases, not,
}

pub record Rsv : Type 0 where
  pub r : Bytes
  pub s : Bytes
  pub v : ℕ

-- `sig[64]`, at a length that the guard has fixed.
abbrev head_or_zero : Bytes → ℕ
head_or_zero [] = 0
head_or_zero (x ∷ xs) = x

-- `none` where the source returns its error.
pub sig_to_rsv : Bytes → Option Rsv
sig_to_rsv sig =
    if not (length sig == 65)
    then none
    else some
        (record { r = take 32 sig; s = take 32 (drop 32 sig); v = head_or_zero (drop 64 sig) })

-- A list of one element is its head.
singleton_lem : (xs : Bytes) → length xs ≡ 1 → head_or_zero xs ∷ [] ≡ xs
singleton_lem [] h = absurd (omega arith)
singleton_lem (x ∷ []) h = refl
singleton_lem (x ∷ y ∷ xs) h = absurd (omega arith)

drop-nil : (k : ℕ) → drop {A = ℕ} k [] ≡ []
drop-nil zero = refl
drop-nil (suc k) = refl

drop-drop : (k n : ℕ) (xs : Bytes) → drop k (drop n xs) ≡ drop (n + k) xs
drop-drop k zero xs = rw add.zero
drop-drop k (suc n) [] = rw (drop-nil k, drop-nil (suc n + k))
drop-drop k (suc n) (x ∷ xs) = rw add.suc (drop-drop k n xs)

parts_join :
    (sig : Bytes)
    → length sig ≡ 65
    → take 32 sig ++ (take 32 (drop 32 sig) ++ head_or_zero (drop 64 sig) ∷ []) ≡ sig
parts_join sig h =
    ap (λ (t : Bytes). take 32 sig ++ (take 32 (drop 32 sig) ++ t))
      (singleton_lem (drop 64 sig) (omega (arith, length-drop 64 sig)) ∙ sym (drop-drop 32 32 sig))
    ∙ ap (◌++◌ (take 32 sig)) (take-append-drop 32 (drop 32 sig))
    ∙ take-append-drop 32 sig

-- Exactly the signatures of 65 bytes are taken apart by SigToRSV, into 32, 32 and 1 bytes that
-- make them up.
pub sig_to_rsv-parts :
    (sig : Bytes)
    → ((length sig ≢ 65) × (sig_to_rsv sig ≡ none))
      ⊎ ((p : Rsv) × (sig_to_rsv sig ≡ some p)
          × (p.r ++ (p.s ++ p.v ∷ []) ≡ sig)
          × (length p.r ≡ 32)
          × (length p.s ≡ 32))
unfolding sig_to_rsv
sig_to_rsv-parts sig = elim (Bool-cases (length sig == 65)) [
  | inr e ↦ inl (ground arith, rw e)
  | inl e ↦
      let h : length sig ≡ 65 = (==_iff (length sig) 65).0 e in
      inr (
        parts,
        rw e,
        parts_join sig h,
        length-take 32 sig (omega arith),
        length-take 32 (drop 32 sig) (omega (arith, length-drop 32 sig)),
      )
]
  where
    parts : Rsv
    parts = record { r = take 32 sig; s = take 32 (drop 32 sig); v = head_or_zero (drop 64 sig) }
