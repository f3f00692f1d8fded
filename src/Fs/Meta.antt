-- ===== src/Fs/Meta.antt =====
-- client/fs/meta/filemeta.go and groupmeta.go.
pub mod Equality
use ipfs_share.Prelude.{
  ℕ, List, [], ◌∷◌, Bool, true, false, not, Option, none, some, Bytes, bytes_equal, length, ◌==◌,
  if◌then◌else◌,
}
use ipfs_share.Crypto.FileBoxer.{FileBoxer}
use ipfs_share.Crypto.SymmetricKey.{SymmetricKey}

-- A Go slice, which may be nil.
abbrev pub Slice : Type 0 → Type 0
Slice A = Option (List A)

-- What `range` goes through.
abbrev pub elements : {A : Type 0} → Slice A → List A
elements none = []
elements (some xs) = xs

-- An address is its 20 bytes read as a number: the program compares addresses, and no more.
abbrev pub Address : Type 0
Address = ℕ

pub record FileMeta : Type 0 where
  pub file_name : Bytes
  pub ipfs_hash : Bytes
  pub data_key : FileBoxer
  pub write_access_list : Slice Address

pub record GroupMeta : Type 0 where
  pub address : Address
  pub boxer : SymmetricKey

-- The loop over the indices of both lists, which the test before it has found equally long.
same_members : List Address → List Address → Bool
same_members [] ys = true
same_members (x ∷ xs) [] = false
same_members (x ∷ xs) (y ∷ ys) =
    let rest = same_members xs ys in if not (x == y) then false else rest

-- `FileMeta.Equal`.
pub equal : FileMeta → FileMeta → Bool
unfolding same_members
equal meta other =
    if not (bytes_equal meta.file_name other.file_name)
    then false
    else if not (bytes_equal meta.ipfs_hash other.ipfs_hash)
    then false
    else if not (bytes_equal meta.data_key.key other.data_key.key)
    then false
    else if not (length mine == length theirs)
    then false
    else same_members mine theirs
  where
    mine : List Address
    mine = elements meta.write_access_list

    theirs : List Address
    theirs = elements other.write_access_list

-- `NewFileMeta`, with the key that `rand.Read` gave, or `none` where that fails.
pub new_file_meta : Bytes → Slice Address → Option Bytes → Option FileMeta
new_file_meta file_name has_write_access none = none
new_file_meta file_name has_write_access (some key) = some (record {
  file_name = file_name;
  ipfs_hash = [];
  data_key = record { key = key };
  write_access_list = has_write_access;
})
