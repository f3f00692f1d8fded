-- ===== src/Fs/Storage/Listing.antt =====
-- client/fs/storage.go: the metadata that are loaded from the directories of a user.
pub mod Saved
use ipfs_share.Prelude.{
  List, [], ◌∷◌, ◌++◌, Bytes, Option, none, some, if◌then◌else◌, Result, ok, err, panic,
}
use ipfs_share.Fs.Disk.{Disk, FsError, Action, ◌>>=◌, read_file}
use ipfs_share.Fs.Disk.Directory.{Entry, read_dir, clean}
use ipfs_share.Fs.Meta.{GroupMeta, FileMeta}
use ipfs_share.Fs.External.{Codec}
use ipfs_share.Fs.Storage.{Storage, slash, group_file_meta_dir}

module _ {A : Type 0} (c : Codec A) where
  -- A file that cannot be read or decoded is passed over.
  abbrev pub decoded : Result FsError Bytes → Option A
  decoded (ok bs) = c.unmarshal bs
  decoded (err e) = none
  decoded panic = none

  abbrev pub add_meta : Option A → List A → List A
  add_meta none ms = ms
  add_meta (some m) ms = m ∷ ms

  -- The loops of `GetGroupMetas` and `GetGroupFileMetas`, over the entries of `dir`.
  pub load_metas : Bytes → List Entry → Disk → List A
  load_metas dir [] d = []
  load_metas dir (e ∷ es) d =
      let rest = load_metas dir es d in
      if e.is_dir
      then rest
      else add_meta (decoded (read_file (clean (dir ++ (slash ++ e.name))) d).0) rest

  abbrev pub load_dir : Bytes → List Entry → Action (List A)
  load_dir dir es d = (ok (load_metas dir es d), d)

-- `GetGroupMetas`.
unfoldable pub get_group_metas : Codec GroupMeta → Storage → Action (List GroupMeta)
unfolding load_metas
get_group_metas c s = read_dir s.metas_ga_path >>= load_dir c s.metas_ga_path

-- `GetGroupFileMetas`, for the address of a group as a string.
unfoldable pub get_group_file_metas : Codec FileMeta → Bytes → Storage → Action (List FileMeta)
unfolding load_metas
get_group_file_metas c group_address s = do
  es ← read_dir (group_file_meta_dir group_address s)
  load_dir c (group_file_meta_dir group_address s) es
