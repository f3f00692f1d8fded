-- ===== src/Tests/StateTests.antt =====
-- The theorems on collections, groups and the disk at concrete inputs.
use ipfs_share.Prelude.{
  ℕ, ◌≡◌, refl, ◌↔◌, [], ◌∷◌, Bytes, true, false, ◌==◌, none, some, if◌then◌else◌, nat_eq,
}
use ipfs_share.Collections.Map.{Map, put, get, count}
use ipfs_share.Collections.Map.Laws.{IsMap, put_refines}
use ipfs_share.Group.{Group}
use ipfs_share.Group.Members.{IsGroup}
use ipfs_share.Crypto.SymmetricKey.{box_seal}
use ipfs_share.Fs.Disk.{Disk}
use ipfs_share.Fs.Meta.{FileMeta, equal}
use ipfs_share.Fs.Meta.Equality.{SameMeta, equal_iff}
use ipfs_share.Tests.World.{tagged}
use ipfs_share.Tests.CryptoTests.{nonce24}

abbrev ages : Map ℕ ℕ
ages = record { entries = (1, some 30) ∷ (2, some 40) ∷ [] }

ages-IsMap : IsMap ages
ages-IsMap = (refl, (refl, tt))

abbrev pub group1 : Group
group1 = record {
  address = 100;
  name = b'g' ∷ [];
  ipfs_hash = [];
  encrypted_ipfs_hash = [];
  members = 11 ∷ 12 ∷ [];
  boxer = record { key = 7 ∷ 7 ∷ [] };
}

group1-IsGroup : IsGroup group1
group1-IsGroup = (refl, (refl, tt))

abbrev sealed_hash : Bytes
sealed_hash = box_seal tagged group1.boxer nonce24 (b'Q' ∷ [])

put_refines_example :
    IsMap (put 2 none ages)
    × ((j : ℕ) → get j (put 2 none ages) ≡ (if 2 == j then none else get j ages))
    × (count (put 2 none ages) ≡ count ages)
put_refines_example = put_refines 2 none ages ages-IsMap

abbrev pub disk1 : Disk
disk1 = record { files = (b'a' ∷ [], 1 ∷ 2 ∷ []) ∷ []; denied = λ p. false; full = λ p. false }

abbrev pub meta1 : FileMeta
meta1 = record {
  file_name = b'f' ∷ [];
  ipfs_hash = [];
  data_key = record { key = 9 ∷ [] };
  write_access_list = some (11 ∷ []);
}

equal_iff_example :
    (equal meta1 (record meta1 { write_access_list = none }) ≡ true)
    ↔ SameMeta meta1 (record meta1 { write_access_list = none })
equal_iff_example = equal_iff meta1 (record meta1 { write_access_list = none })
