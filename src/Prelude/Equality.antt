-- ===== src/Prelude/Equality.antt =====
-- Equality tests on the types that the program uses as keys, as instances.
use Prim.Native.Nat.{ℕ}
use mathlib.Core.Path.{◌≡◌}
use mathlib.Core.Bool.{Bool, true}
use mathlib.Core.Logic.{◌↔◌}
use ipfs_share.Prelude.Tests.{◌==◌, ==_iff}
use ipfs_share.Prelude.ByteString.{Bytes, bytes_equal, bytes_equal_iff}

pub record Eq {ℓ} (A : Type ℓ) : Type ℓ where
  pub equal : A → A → Bool
  pub equal_iff : (a b : A) → (equal a b ≡ true) ↔ (a ≡ b)

instance abbrev pub nat_eq : Eq ℕ
nat_eq = record { equal = ◌==◌; equal_iff = ==_iff }

instance abbrev pub bytes_eq : Eq Bytes
bytes_eq = record { equal = bytes_equal; equal_iff = bytes_equal_iff }
