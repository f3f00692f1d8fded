-- ===== src/Crypto/Nonce/Value.antt =====
-- The nonce as a number: one update adds one, modulo 2 ^ 192.
use mathlib.Core.List.{append-nil}
use ipfs_share.Prelude.{
  ℕ, ◌+◌, ◌*◌, ◌%◌, ◌^◌, ◌<◌, ◌≤◌, ◌≡◌, refl, ap, sym, ◌∙◌, [], ◌∷◌, ◌++◌, Bytes, some, arith,
  length,
}
use ipfs_share.Crypto.Nonce.{read_u64, write_u64, update_nonce, carry, ◌>>=◌, write_words}

-- Every element is a byte.
abbrev pub Octets : Bytes → Type 0
Octets [] = Unit
Octets (b ∷ bs) = (b < 256) × Octets bs

-- The big-endian number that the bytes write, after `acc`.
from_be : ℕ → Bytes → ℕ
from_be acc [] = acc
from_be acc (b ∷ bs) = from_be (acc * 256 + b) bs

-- What one read leaves and finds.
record Word (bs : Bytes) (x : ℕ) (rest : Bytes) : Type 0 where
  found : read_u64 bs ≡ some (x, rest)
  small : x < 2 ^ 64
  shorter : length bs ≡ 8 + length rest
  octets : Octets rest
  value : (acc : ℕ) → from_be acc bs ≡ from_be (acc * 2 ^ 64 + x) rest

read-Word : (bs : Bytes) → Octets bs → 8 ≤ length bs → (x : ℕ) × (rest : Bytes) × Word bs x rest
unfolding read_u64 from_be
read-Word (a ∷ b ∷ c ∷ d ∷ e ∷ f ∷ g ∷ h ∷ rest) o l = (
  _,
  rest,
  record {
    found = refl;
    small = omega arith;
    shorter = omega arith;
    octets = o.1.1.1.1.1.1.1.1;
    value = λ acc. ap (λ (t : ℕ). from_be t rest) (omega arith);
  },
)
read-Word [] o l = absurd (omega arith)
read-Word _ o l = absurd (omega arith)

pub nonce_value : Bytes → ℕ
nonce_value = from_be 0

write_u64-value :
    (acc x : ℕ) (rest : Bytes)
    → x < 2 ^ 64
    → from_be acc (write_u64 x ++ rest) ≡ from_be (acc * 2 ^ 64 + x) rest
unfolding write_u64 from_be
write_u64-value acc x rest h = ap (λ (t : ℕ). from_be t rest) (omega arith)

abbrev words_value : ℕ × ℕ × ℕ → ℕ
words_value (a, b, c) = (a * 2 ^ 64 + b) * 2 ^ 64 + c

abbrev Words : ℕ × ℕ × ℕ → Type 0
Words (a, b, c) = (a < 2 ^ 64) × (b < 2 ^ 64) × (c < 2 ^ 64)

carry-Words : (a b c : ℕ) → Words (a, b, c) → Words (carry a b c)
unfolding carry
carry-Words a b c h = ground arith

carry-value :
    (a b c : ℕ)
    → Words (a, b, c)
    → words_value (carry a b c) ≡ (words_value (a, b, c) + 1) % 2 ^ 192
unfolding carry
carry-value a b c h = ground arith

write_words-value : (w : ℕ × ℕ × ℕ) → Words w → nonce_value (write_words w) ≡ words_value w
unfolding nonce_value from_be write_u64
write_words-value (a, b, c) h =
    write_u64-value 0 a (write_u64 b ++ write_u64 c) h.0
    ∙ write_u64-value (0 * 2 ^ 64 + a) b (write_u64 c) h.1
    ∙ ap (from_be ((0 * 2 ^ 64 + a) * 2 ^ 64 + b)) (sym (append-nil (write_u64 c)))
    ∙ write_u64-value ((0 * 2 ^ 64 + a) * 2 ^ 64 + b) c [] h.2
    ∙ omega arith

write_words-Octets : (w : ℕ × ℕ × ℕ) → Octets (write_words w) × (length (write_words w) ≡ 24)
unfolding write_u64
write_words-Octets w = omega arith

from_be-empty : (acc : ℕ) (bs : Bytes) → length bs ≡ 0 → from_be acc bs ≡ acc
unfolding from_be
from_be-empty acc [] h = refl
from_be-empty acc (b ∷ bs) h = absurd (omega arith)

-- `w` is what `update_nonce` reads from `base`.
record Reads (base : Bytes) (w : ℕ × ℕ × ℕ) : Type 0 where
  small : Words w
  value : nonce_value base ≡ words_value w
  found : update_nonce base ≡ some (write_words (carry w.0 w.1 w.2))

join_words :
    {base rest1 rest2 rest3 : Bytes} {a b c : ℕ}
    → Word base a rest1
    → Word rest1 b rest2
    → Word rest2 c rest3
    → length base ≡ 24
    → Reads base (a, b, c)
unfolding update_nonce nonce_value
join_words {base} {rest1} {rest2} {rest3} {a} {b} {c} first second third l = record {
  small = (first.small, second.small, third.small);
  value =
      first.value 0
      ∙ second.value (0 * 2 ^ 64 + a)
      ∙ third.value ((0 * 2 ^ 64 + a) * 2 ^ 64 + b)
      ∙ from_be-empty (((0 * 2 ^ 64 + a) * 2 ^ 64 + b) * 2 ^ 64 + c) rest3
          (omega (arith, first.shorter, second.shorter, third.shorter))
      ∙ omega arith;
  found = rw (first.found, ◌>>=◌) (rw (second.found, ◌>>=◌) (rw (third.found, ◌>>=◌) refl));
}

read_words : (base : Bytes) → Octets base → length base ≡ 24 → (w : ℕ × ℕ × ℕ) × Reads base w
read_words base o l =
    let (a, rest1, first) = read-Word base o (omega arith) in
    let (b, rest2, second) = read-Word rest1 first.octets (omega (arith, first.shorter)) in
    let (c, rest3, third) =
      read-Word rest2 second.octets (omega (arith, first.shorter, second.shorter)) in
    ((a, b, c), join_words first second third l)

-- On every nonce of 24 bytes updateNonce succeeds, gives 24 bytes, and adds one to the big-endian
-- number that they write, modulo 2 ^ 192.
pub update_nonce-increments :
    (base : Bytes)
    → Octets base
    → length base ≡ 24
    → (next : Bytes) × (update_nonce base ≡ some next)
      × Octets next
      × (length next ≡ 24)
      × (nonce_value next ≡ (nonce_value base + 1) % 2 ^ 192)
update_nonce-increments base o l =
    let (w, r) = read_words base o l in
    let next = carry w.0 w.1 w.2 in
    let shape = write_words-Octets next in
    (
      write_words next,
      r.found,
      shape.0,
      shape.1,
      write_words-value next (carry-Words w.0 w.1 w.2 r.small)
          ∙ carry-value w.0 w.1 w.2 r.small
          ∙ ap (λ (n : ℕ). (n + 1) % 2 ^ 192) (sym r.value),
    )
