-- ===== src/Group/Frame.antt =====
-- What `Update`, `SetIpfsHash` and `AddMember` of a group leave alone.
use ipfs_share.Prelude.{
  ◌≡◌, refl, List, [], ◌∷◌, ◌++◌, Bytes, true, contains, ==_refl, Option, none, some, ltb, length,
  Bool-cases, inl, inr, arith,
}
use ipfs_share.Crypto.SecretBox.{SecretBox}
use ipfs_share.Crypto.SymmetricKey.{box_open}
use ipfs_share.Fs.Meta.{Address}
use ipfs_share.Group.{Group, is_member, add_member, decrypted_hash, set_ipfs_hash, update}

module _ (b : SecretBox) where
  -- The address and the key, whatever the result.
  pub update_keeps :
      (name : Bytes) (members : List Address) (enc : Bytes) (g : Group)
      → let (r, g') = update b name members enc g in (g'.address ≡ g.address) × (g'.boxer ≡ g.boxer)
  unfolding update
  update_keeps name members enc g = elim (Bool-cases (ltb 0 (length enc))) [
    | inl some_hash ↦ rw some_hash (decrypted (box_open b g.boxer enc))
    | inr no_hash ↦ rw no_hash (refl, refl)
  ]
    where
      decrypted :
          (o : Option Bytes)
          → let (r, g') = decrypted_hash b name members enc g o in
            (g'.address ≡ g.address) × (g'.boxer ≡ g.boxer)
      decrypted none = (refl, refl)
      decrypted (some h) = (refl, refl)

  pub set_ipfs_hash_keeps :
      (enc : Bytes) (g : Group)
      → let (r, g') = set_ipfs_hash b enc g in (g'.address ≡ g.address) × (g'.boxer ≡ g.boxer)
  unfolding set_ipfs_hash
  set_ipfs_hash_keeps enc g = ground arith

pub add_member_keeps :
    (account : Address) (g : Group)
    → let g' = add_member account g in
      (g'.address ≡ g.address) × (g'.boxer ≡ g.boxer) × (is_member account g' ≡ true)
unfolding add_member is_member
add_member_keeps account g = elim (Bool-cases (contains account g.members)) [
  | inl there ↦ rw there (refl, refl, there)
  | inr new ↦ rw new (refl, refl, contains-last account g.members)
]
  where
    contains-last : (a : Address) (as' : List Address) → contains a (as' ++ a ∷ []) ≡ true
    contains-last a [] = rw (==_refl a) refl
    contains-last a (b ∷ as') = ground (arith, contains-last a as')
