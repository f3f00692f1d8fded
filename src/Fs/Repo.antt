-- ===== src/Fs/Repo.antt =====
-- client/fs/grouprepo.go: the files of a group. A method that writes to the repository returns it
-- beside its result, as it leaves it: the map holds pointers, so a file that a failing call has
-- written to stays so.
pub mod Validity
pub mod Takeover
pub mod Updating
pub mod Loading
pub mod Commit
pub mod Agreement
pub mod Honest
pub mod Opening
use ipfs_share.Prelude.{
  ℕ, List, [], ◌∷◌, ◌++◌, Bool, true, false, not, ◌&&◌, ◌||◌, Option, none, some, Bytes,
  bytes_equal, ◌==◌, ◌+◌, leb, if◌then◌else◌, Result, ok, err, panic, contains, bytes_eq,
}
use ipfs_share.Crypto.FileBoxer.{FileBoxer}
use ipfs_share.Crypto.SymmetricKey.{SymmetricKey, box_seal}
use ipfs_share.Collections.Map.{Map, get, put, new_concurrent_map, v_iterator}
use ipfs_share.Group.{Group}
use ipfs_share.Fs.Disk.{
  Disk, FsError, Action, proceed, not_read, not_encoded, not_decoded, ipfs_failed, no_write_access,
  nil_access_list, wrong_next, wrong_prev_hash, ◌>>=◌, ◌>>◌, pure, fail, crash, require, check,
  read_file,
}
use ipfs_share.Fs.Meta.{Address, Slice, elements, FileMeta}
use ipfs_share.Fs.External.{External, File}
use ipfs_share.Fs.Storage.{
  Storage, group_file_data_dir, download_and_decrypt_with_symmetric_key,
  download_and_decrypt_with_file_boxer,
}
use ipfs_share.Fs.File

-- `user` is the account that the repository works for; the group, the storage and IPFS are
-- arguments of the methods.
pub record GroupRepo : Type 0 where
  pub files : Map Bytes File
  pub ipfs_hash : Bytes
  pub user : Address

-- A repository during `Update`, with the names of the files whose download was started.
pub record Running : Type 0 where
  pub repo : GroupRepo
  pub started : List Bytes

abbrev pub idle : GroupRepo → Running
idle repo = record { repo = repo; started = [] }

-- What `Update` and its parts return: the result, the repository and the disk.
abbrev pub RunResult : Type 0
RunResult = Result FsError (Unit {0}) × Running × Disk

abbrev beside : Running → Result FsError (Unit {0}) × Disk → RunResult
beside run (r, d) = (r, run, d)

abbrev and_then : RunResult → (Running → Disk → RunResult) → RunResult
and_then (ok _, run, d) k = k run d
and_then (err e, run, d) k = (err e, run, d)
and_then (panic, run, d) k = (panic, run, d)

-- `repo.files.Put(file.Meta.FileName, file)`. For a file that is there already, whose name an
-- update keeps, it stands for the write through the pointer in the map.
abbrev pub store : File → GroupRepo → GroupRepo
store f repo = record repo { files = put f.meta.file_name (some f) repo.files }

-- `Get`.
unfoldable pub get_file : Bytes → GroupRepo → Option File
get_file name repo = get name repo.files

-- `strings.EqualFold`, on ASCII.
lower : ℕ → ℕ
lower c = if leb b'A' c && leb c b'Z' then c + 32 else c

unfoldable pub equal_fold : Bytes → Bytes → Bool
unfolding lower
equal_fold [] [] = true
equal_fold [] (b ∷ bs) = false
equal_fold (a ∷ as') [] = false
equal_fold (a ∷ as') (b ∷ bs) = (lower a == lower b) && equal_fold as' bs

module _ (x : External) (s : Storage) where
  -- `getGroupFileMetasFromIpfs`.
  pub get_group_file_metas_from_ipfs : Bytes → SymmetricKey → Action (List (Option FileMeta))
  get_group_file_metas_from_ipfs hash boxer = do
    contents ← download_and_decrypt_with_symmetric_key x boxer hash s
    metas ← require (x.metas_codec.unmarshal contents) not_decoded
    pure (elements metas)

  is_diff_node_valid : File → FileBoxer → Bytes → Action (Unit {0})
  is_diff_node_valid file new_boxer new_ipfs_hash = do
    contents ← download_and_decrypt_with_file_boxer x new_boxer new_ipfs_hash s
    new_diff ← require (x.node_codec.unmarshal contents) not_decoded
    check (bytes_equal new_diff.next file.meta.ipfs_hash) wrong_next
    file_data ← read_file file.orig_path
    check (bytes_equal new_diff.hash (x.keccak256 file_data)) wrong_prev_hash

  -- The checks on a changed entry for a file of the repository.
  check_file : File → FileMeta → Address → Action (Unit {0})
  check_file file new_meta address =
      if bytes_equal file.meta.ipfs_hash new_meta.ipfs_hash then pure tt else (do
        check (contains address (elements file.meta.write_access_list)) no_write_access
        is_diff_node_valid file new_meta.data_key new_meta.ipfs_hash)

  abbrev check_known : Option File → FileMeta → Address → Action (Unit {0})
  check_known none new_meta address = pure tt
  check_known (some file) new_meta address = check_file file new_meta address

  abbrev check_list : Slice Address → Action (Unit {0}) → Action (Unit {0})
  check_list none k = fail nil_access_list
  check_list (some members) k = k

  -- One round of the loop of `IsValidChangeSet`. A nil entry is dereferenced.
  check_meta : GroupRepo → Address → Option FileMeta → Action (Unit {0})
  check_meta repo address none = crash
  check_meta repo address (some m) =
      check_list m.write_access_list (check_known (get_file m.file_name repo) m address)

  check_metas : GroupRepo → Address → List (Option FileMeta) → Action (Unit {0})
  check_metas repo address [] = pure tt
  check_metas repo address (m ∷ ms) = do check_meta repo address m; check_metas repo address ms

  -- `IsValidChangeSet`: whether `address` may make these changes.
  pub is_valid_change_set : GroupRepo → Bytes → SymmetricKey → Address → Action (Unit {0})
  is_valid_change_set repo new_ipfs_hash boxer address = do
    new_metas ← get_group_file_metas_from_ipfs new_ipfs_hash boxer
    check_metas repo address new_metas

  -- One round of the loop of `Update` at a file of the repository.
  abbrev saved : Running → File → Disk → RunResult
  saved run f d = beside run (File.save_metadata x f d)

  abbrev updated : Running → File.Outcome3 Bool → RunResult
  updated run (ok starts, f, d) =
      let run' = record run {
        repo = store f run.repo;
        started = if starts then run.started ++ f.meta.file_name ∷ [] else run.started;
      } in
      saved run' f d
  updated run (err e, f, d) = (err e, record run { repo = store f run.repo }, d)
  updated run (panic, f, d) = (panic, record run { repo = store f run.repo }, d)

  -- And at a new one, which is put into the repository and downloaded.
  abbrev created : Running → Result FsError File × Disk → RunResult
  created run (ok f, d) =
      let run' = record run {
        repo = store f run.repo;
        started = run.started ++ f.meta.file_name ∷ [];
      } in
      saved run' f d
  created run (err e, d) = (err e, run, d)
  created run (panic, d) = (panic, run, d)

  abbrev update_found : Group → Running → FileMeta → Disk → Option File → RunResult
  update_found group run m d none =
      created run (File.new_group_file_from_meta x m group.address group.name s d)
  update_found group run m d (some f) = updated run (File.update x f m d)

  update_meta : Group → Running → Option FileMeta → Disk → RunResult
  update_meta group run none d = (panic, run, d)
  update_meta group run (some m) d = update_found group run m d (get_file m.file_name run.repo)

  pub update_metas : Group → List (Option FileMeta) → Running → Disk → RunResult
  update_metas group [] run d = (ok tt, run, d)
  update_metas group (m ∷ ms) run d =
      and_then (update_meta group run m d) (λ run' d'. update_metas group ms run' d')

  -- `repo.ipfsHash = newIpfsHash`, once every entry is done.
  abbrev finish : Bytes → Running → Disk → RunResult
  finish hash run d = (ok tt, record run { repo = record (run.repo) { ipfs_hash = hash } }, d)

  abbrev with_metas :
      Group → Bytes → GroupRepo → Result FsError (List (Option FileMeta)) × Disk → RunResult
  with_metas group hash repo (ok metas, d) =
      and_then (update_metas group metas (idle repo) d) (finish hash)
  with_metas group hash repo (err e, d) = (err e, idle repo, d)
  with_metas group hash repo (panic, d) = (panic, idle repo, d)

  -- `Update`.
  unfoldable pub update : Group → GroupRepo → Bytes → Disk → RunResult
  update group repo new_ipfs_hash d =
      if equal_fold new_ipfs_hash [] || equal_fold new_ipfs_hash repo.ipfs_hash
      then (ok tt, idle repo, d)
      else with_metas group new_ipfs_hash repo
          (get_group_file_metas_from_ipfs new_ipfs_hash group.boxer d)
