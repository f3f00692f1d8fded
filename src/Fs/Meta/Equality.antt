-- ===== src/Fs/Meta/Equality.antt =====
-- `Equal` decides equality up to a nil access list, which counts as an empty one.
use ipfs_share.Prelude.{◌≡◌, refl, ◌↔◌, List, [], ◌∷◌, true, bytes_equal_iff, length, arith}
use ipfs_share.Fs.Meta.{FileMeta, Address, elements, same_members, equal}

same_members-eq :
    (xs ys : List Address) → length xs ≡ length ys → same_members xs ys ≡ true → xs ≡ ys
unfolding same_members
same_members-eq [] [] l h = refl
same_members-eq [] (y ∷ ys) l h = absurd (omega arith)
same_members-eq (x ∷ xs) [] l h = absurd (omega arith)
same_members-eq (x ∷ xs) (y ∷ ys) l h = ground (arith, same_members-eq xs ys)

same_members_refl : (xs : List Address) → same_members xs xs ≡ true
unfolding same_members
same_members_refl [] = refl
same_members_refl (x ∷ xs) = ground (arith, same_members_refl xs)

-- `m` and `o` agree in the name, the hash, the key and the members of the access list.
pub record SameMeta (m o : FileMeta) : Type 0 where
  pub name : m.file_name ≡ o.file_name
  pub hash : m.ipfs_hash ≡ o.ipfs_hash
  pub key : m.data_key.key ≡ o.data_key.key
  pub members : elements m.write_access_list ≡ elements o.write_access_list

-- FileMeta.Equal returns true exactly where the two have the same name, hash, key and members, a
-- nil access list counting as an empty one.
pub equal_iff : (m o : FileMeta) → (equal m o ≡ true) ↔ SameMeta m o
unfolding equal
equal_iff m o = (
  (λ h. ground (
    arith,
    bytes_equal_iff m.file_name o.file_name,
    bytes_equal_iff m.ipfs_hash o.ipfs_hash,
    bytes_equal_iff m.data_key.key o.data_key.key,
    same_members-eq (elements m.write_access_list) (elements o.write_access_list),
  )),
  (λ s. ground (
    arith,
    bytes_equal_iff m.file_name o.file_name,
    bytes_equal_iff m.ipfs_hash o.ipfs_hash,
    bytes_equal_iff m.data_key.key o.data_key.key,
    same_members_refl (elements m.write_access_list),
  )),
)
