-- ===== src/Group.antt =====
-- client/group.go: the mirror of a Group contract. Each method holds the group's lock, so it is one
-- step.
pub mod Members
pub mod Frame
pub mod Hash
use ipfs_share.Prelude.{
  ℕ, List, [], ◌∷◌, ◌++◌, Bytes, Bool, Option, none, some, if◌then◌else◌, ltb, length, contains,
  remove_first, Result, ok, err, Eq,
}
use ipfs_share.Crypto.SecretBox.{SecretBox}
use ipfs_share.Crypto.SymmetricKey.{SymmetricKey, box_open}
use ipfs_share.Fs.Meta.{Address, GroupMeta}

-- The field `storage` is an argument of the methods that use it. A nil slice is an empty one here:
-- the source does not tell them apart.
pub record Group : Type 0 where
  pub address : Address
  pub name : Bytes
  pub ipfs_hash : Bytes
  pub encrypted_ipfs_hash : Bytes
  pub members : List Address
  pub boxer : SymmetricKey

-- "could not decrypt …".
pub data GroupError : Type 0 where
  not_decrypted : GroupError

-- `NewGroup`, with the key that it draws.
unfoldable pub new_group : Address → Bytes → SymmetricKey → Group
new_group address name boxer = record {
  address = address;
  name = name;
  ipfs_hash = [];
  encrypted_ipfs_hash = [];
  members = [];
  boxer = boxer;
}

unfoldable pub new_group_from_meta : GroupMeta → Group
unfolding new_group
new_group_from_meta meta = new_group meta.address [] meta.boxer

unfoldable pub is_member : Address → Group → Bool
is_member account g = contains account g.members

pub add_member : Address → Group → Group
unfolding is_member
add_member account g =
    if is_member account g then g else record g { members = g.members ++ account ∷ [] }

pub remove_member : Address → Group → Group
remove_member account g = record g { members = remove_first account g.members }

pub count_members : Group → ℕ
count_members g = length g.members

unfoldable pub set_boxer : SymmetricKey → Group → Group
set_boxer boxer g = record g { boxer = boxer }

-- What `Save` and `Encode` write of the group.
unfoldable pub group_meta : Group → GroupMeta
group_meta g = record { address = g.address; boxer = g.boxer }

module _ (b : SecretBox) where
  -- `SetIpfsHash`.
  pub set_ipfs_hash : Bytes → Group → Result GroupError (Unit {0}) × Group
  set_ipfs_hash enc_ipfs_hash g = elim (box_open b g.boxer enc_ipfs_hash) [
    | none ↦ (err not_decrypted, g)
    | some hash ↦ (ok tt, record g { ipfs_hash = hash; encrypted_ipfs_hash = enc_ipfs_hash })
  ]

  -- The last three assignments of `Update`.
  refreshed : Bytes → List Address → Bytes → Group → Result GroupError (Unit {0}) × Group
  refreshed name members enc g =
      (ok tt, record g { name = name; members = members; encrypted_ipfs_hash = enc })

  decrypted_hash :
      Bytes → List Address → Bytes → Group → Option Bytes → Result GroupError (Unit {0}) × Group
  unfolding refreshed
  decrypted_hash name members enc g none = (err not_decrypted, g)
  decrypted_hash name members enc g (some hash) =
      refreshed name members enc (record g { ipfs_hash = hash })

  -- `Update`: an empty encrypted hash leaves the hash as it is.
  unfoldable pub update :
      Bytes → List Address → Bytes → Group → Result GroupError (Unit {0}) × Group
  unfolding refreshed decrypted_hash
  update name members enc g =
      if ltb 0 (length enc)
      then decrypted_hash name members enc g (box_open b g.boxer enc)
      else refreshed name members enc g
