-- ===== src/Fs/Repo/Opening.antt =====
-- `NewGroupRepo` and `Files` of client/fs/grouprepo.go.
use ipfs_share.Prelude.{List, [], ◌∷◌, Bytes, Option, none, some, Result, ok, err, panic}
use ipfs_share.Crypto.SymmetricKey.{box_seal}
use ipfs_share.Collections.Map.{new_concurrent_map, v_iterator}
use ipfs_share.Group.{Group}
use ipfs_share.Fs.Disk.{Disk, FsError, Action, not_encoded, ipfs_failed, ◌>>=◌, pure, require}
use ipfs_share.Fs.Meta.{Address, FileMeta}
use ipfs_share.Fs.External.{External, File}
use ipfs_share.Fs.Storage.{Storage}
use ipfs_share.Fs.Storage.Listing.{get_group_file_metas}
use ipfs_share.Fs.Repo.{GroupRepo}
use ipfs_share.Fs.Repo.Commit.{appended}

-- `Files`. A nil in the map would panic, and `Put` is never given one.
abbrev values : List (Option File) → List File
values [] = []
values (none ∷ fs) = values fs
values (some f ∷ fs) = f ∷ values fs

pub files : GroupRepo → List File
files repo = values (v_iterator repo.files)

-- `getFileMetas`, which nothing calls: the copies are made into nil pointers, which stay nil.
abbrev copies : List (Option File) → List (Option FileMeta)
copies [] = []
copies (f ∷ fs) = none ∷ copies fs

pub get_file_metas : GroupRepo → List (Option FileMeta)
get_file_metas repo = copies (v_iterator repo.files)

-- An error of `GetGroupFileMetas` is logged, and its result is a nil slice then.
abbrev pub logged_metas : Result FsError (List FileMeta) × Disk → List FileMeta
logged_metas (ok ms, d) = ms
logged_metas (err e, d) = []
logged_metas (panic, d) = []

module _ (x : External) (s : Storage) where
  -- The rest of `NewGroupRepo`, for the metas that the disk has. The map of files starts empty.
  unfoldable pub opened_with : Group → Address → Bytes → List FileMeta → Action GroupRepo
  opened_with group user nonce metas = do
    encoded ← require (x.metas_codec.marshal (appended metas)) not_encoded
    ipfs_hash ← require (x.ipfs_add (box_seal x.box group.boxer nonce encoded)) ipfs_failed
    pure (record { files = new_concurrent_map; ipfs_hash = ipfs_hash; user = user })

  -- `NewGroupRepo`, with the nonce of the box; without the making of the directories.
  unfoldable pub new_group_repo : Group → Address → Bytes → Action GroupRepo
  unfolding opened_with
  new_group_repo group user nonce d =
      opened_with group user nonce
        (logged_metas (get_group_file_metas x.meta_codec (x.address_string group.address) s d)) d
