-- ===== src/Prelude/Utf8.antt =====
-- Which byte strings are valid UTF-8, as Go's `utf8.Valid` tells: what the packages that the
-- program calls keep unchanged in a string.
use Prim.Native.Nat.{ℕ, zero, suc}
use mathlib.Core.Path.{◌≡◌, refl}
use mathlib.Core.Bool.{Bool, true, false, ◌&&◌}
use mathlib.Core.Option.{Option, none, some}
use mathlib.Core.List.{[], ◌∷◌}
use ipfs_share.Prelude.Tests.{leb, ◌==◌, if◌then◌else◌}
use ipfs_share.Prelude.ByteString.{Bytes}

-- How many bytes follow a first one, and the bounds of the next of them.
record Lead : Type 0 where
  more : ℕ
  low : ℕ
  high : ℕ

abbrev lead : ℕ → ℕ → ℕ → Option Lead
lead more low high = some (record { more = more; low = low; high = high })

abbrev lead_of : ℕ → Option Lead
lead_of b =
    if leb b 127
    then lead 0 0 0
    else if leb b 193
    then none
    else if leb b 223
    then lead 1 128 191
    else if b == 224
    then lead 2 160 191
    else if b == 237
    then lead 2 128 159
    else if leb b 239
    then lead 2 128 191
    else if b == 240
    then lead 3 144 191
    else if leb b 243
    then lead 3 128 191
    else if b == 244
    then lead 3 128 143
    else none

-- The rest of a string where `more` bytes of a character are to follow.
utf8_from : (more low high : ℕ) → Bytes → Bool
utf8_from zero low high [] = true
utf8_from (suc n) low high [] = false
utf8_from zero low high (b ∷ bs) = elim (lead_of b) [
  | none ↦ false
  | some l ↦ utf8_from l.more l.low l.high bs
]
utf8_from (suc n) low high (b ∷ bs) = (leb low b && leb b high) && utf8_from n 128 191 bs

unfoldable pub is_utf8 : Bytes → Bool
unfolding utf8_from
is_utf8 = utf8_from 0 0 0

is_utf8_runs :
    (is_utf8 (b'a' ∷ 195 ∷ 169 ∷ 226 ∷ 130 ∷ 172 ∷ 240 ∷ 159 ∷ 152 ∷ 128 ∷ []) ≡ true)
    × (is_utf8 (192 ∷ 128 ∷ []) ≡ false)
    × (is_utf8 (237 ∷ 160 ∷ 128 ∷ []) ≡ false)
    × (is_utf8 (195 ∷ []) ≡ false)
unfolding is_utf8
is_utf8_runs = (refl, refl, refl, refl)
