-- ===== src/Fs/Storage.antt =====
-- client/fs/storage.go: the directories of a user, and downloads through the temporary one.
pub mod Downloads
pub mod Kept
pub mod Listing
pub mod UserFiles
use ipfs_share.Prelude.{
  ℕ, List, [], ◌∷◌, ◌++◌, Bytes, Option, none, some, Bool, Result, ok, err, panic,
}
use ipfs_share.Crypto.FileBoxer.{FileBoxer, Outcome, done, failed, panicked, exhausted, open_file}
use ipfs_share.Crypto.SymmetricKey.{SymmetricKey, box_open}
use ipfs_share.Fs.Disk.{
  Disk, Action, ipfs_failed, not_encoded, not_decrypted, out_of_fuel, ◌>>=◌, ◌>>◌, pure, fail,
  crash, require, read_file, create_and_write_file, remove,
}
use ipfs_share.Fs.Meta.{Address}
use ipfs_share.Fs.External.{External, Codec}
use ipfs_share.Fs.Meta.{GroupMeta}

-- "/", and the constant parts of the paths, as ASCII.
abbrev pub slash : Bytes
slash = b'/' ∷ []

pub record Storage : Type 0 where
  pub base_path : Bytes
  pub data_path : Bytes
  pub user_data_path : Bytes
  pub metas_path : Bytes
  pub orig_path : Bytes
  pub metas_ga_path : Bytes
  pub file_root_path : Bytes
  pub tmp_path : Bytes
  pub my_files_path : Bytes
  pub context_data_path : Bytes

-- "/filetribe/", ".userdata/", "metas/", "orig/", "GA/", "MyFiles/", "tmp/", "context/".
abbrev filetribe_dir : Bytes
filetribe_dir = slash ++ b'f' ∷ b'i' ∷ b'l' ∷ b'e' ∷ b't' ∷ b'r' ∷ b'i' ∷ b'b' ∷ b'e' ∷ b'/' ∷ []

abbrev userdata_dir : Bytes
userdata_dir = b'.' ∷ b'u' ∷ b's' ∷ b'e' ∷ b'r' ∷ b'd' ∷ b'a' ∷ b't' ∷ b'a' ∷ b'/' ∷ []

abbrev metas_dir : Bytes
metas_dir = userdata_dir ++ b'm' ∷ b'e' ∷ b't' ∷ b'a' ∷ b's' ∷ b'/' ∷ []

-- `metaExt`, ".met".
abbrev pub meta_ext : Bytes
meta_ext = b'.' ∷ b'm' ∷ b'e' ∷ b't' ∷ []

-- `NewStorage`; the paths that `Init` sets are empty until then.
unfoldable pub new_storage : Bytes → Storage
new_storage base = record {
  base_path = base ++ filetribe_dir;
  data_path = [];
  user_data_path = [];
  metas_path = [];
  orig_path = [];
  metas_ga_path = [];
  file_root_path = [];
  tmp_path = [];
  my_files_path = [];
  context_data_path = [];
}

-- `Init`, without the making of the directories.
unfoldable pub init : Bytes → Storage → Storage
init username s = record s {
  data_path = user_dir;
  user_data_path = user_dir ++ userdata_dir;
  metas_path = user_dir ++ metas_dir;
  orig_path = user_dir ++ (userdata_dir ++ b'o' ∷ b'r' ∷ b'i' ∷ b'g' ∷ b'/' ∷ []);
  metas_ga_path = user_dir ++ (metas_dir ++ b'G' ∷ b'A' ∷ b'/' ∷ []);
  file_root_path = user_dir;
  my_files_path = user_dir ++ b'M' ∷ b'y' ∷ b'F' ∷ b'i' ∷ b'l' ∷ b'e' ∷ b's' ∷ b'/' ∷ [];
  tmp_path = user_dir ++ (userdata_dir ++ b't' ∷ b'm' ∷ b'p' ∷ b'/' ∷ []);
  context_data_path =
      user_dir ++ (userdata_dir ++ b'c' ∷ b'o' ∷ b'n' ∷ b't' ∷ b'e' ∷ b'x' ∷ b't' ∷ b'/' ∷ []);
}
  where
    user_dir : Bytes
    user_dir = s.base_path ++ (username ++ slash)

unfoldable pub group_file_meta_dir : Bytes → Storage → Bytes
group_file_meta_dir id s = s.metas_path ++ (id ++ slash)

pub group_file_orig_dir : Bytes → Storage → Bytes
group_file_orig_dir id s = s.orig_path ++ (id ++ slash)

unfoldable pub group_file_data_dir : Bytes → Storage → Bytes
group_file_data_dir group_name s = s.file_root_path ++ (group_name ++ slash)

-- `boxer.Open`'s result. The deferred removal of the file stands behind the call, so a panic of it
-- leaves the file there.
abbrev pub opened : Bytes → Outcome (Unit {0}) × Bytes → Action Bytes
opened path (done _, out) = remove path >> pure out
opened path (failed, out) = remove path >> fail not_decrypted
opened path (panicked, out) = crash
opened path (exhausted, out) = remove path >> fail out_of_fuel

module _ (x : External) where
  -- `ipfs.Get(hash, path)`: it puts the contents into the file `path`.
  fetch : Bytes → Bytes → Action (Unit {0})
  fetch ipfs_hash path = do
    contents ← require (x.ipfs_get ipfs_hash) ipfs_failed
    create_and_write_file path contents

  pub download_tmp_file : Bytes → Storage → Action Bytes
  download_tmp_file ipfs_hash s = do
    fetch ipfs_hash (s.tmp_path ++ (slash ++ ipfs_hash))
    pure (s.tmp_path ++ (slash ++ ipfs_hash))

  -- The deferred removal of the file comes before the result of the decryption is returned.
  pub download_and_decrypt_with_symmetric_key : SymmetricKey → Bytes → Storage → Action Bytes
  download_and_decrypt_with_symmetric_key boxer ipfs_hash s = do
    fetch ipfs_hash (s.tmp_path ++ ipfs_hash)
    enc_data ← read_file (s.tmp_path ++ ipfs_hash)
    remove (s.tmp_path ++ ipfs_hash)
    require (box_open x.box boxer enc_data) not_decrypted

  pub download_and_decrypt_with_file_boxer : FileBoxer → Bytes → Storage → Action Bytes
  download_and_decrypt_with_file_boxer boxer ipfs_hash s = do
    tmp_file_path ← download_tmp_file ipfs_hash s
    enc_data ← read_file tmp_file_path
    opened tmp_file_path (open_file x.box boxer enc_data)

  -- `SaveGroupMeta`.
  unfoldable pub save_group_meta : Codec GroupMeta → GroupMeta → Storage → Action (Unit {0})
  save_group_meta group_codec meta s = do
    meta_json ← require (group_codec.marshal meta) not_encoded
    create_and_write_file (s.metas_ga_path ++ (x.address_string meta.address ++ meta_ext)) meta_json
