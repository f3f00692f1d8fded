-- ===== src/Fs/Repo/Commit.antt =====
-- `CommitChanges` of client/fs/grouprepo.go: what a member proposes to the group.
pub mod Committed
use ipfs_share.Prelude.{
  ◌≡◌, refl, ◌∙◌, ap, List, [], ◌∷◌, ◌++◌, Bytes, false, Option, none, some, Result, ok, err, panic,
  length,
}
use ipfs_share.Crypto.SymmetricKey.{SymmetricKey, box_seal}
use ipfs_share.Group.{Group}
use ipfs_share.Fs.Disk.{Disk, FsError, Action, not_read, not_encoded, ipfs_failed, ◌>>=◌, require}
use ipfs_share.Fs.Disk.Directory.{Entry, read_dir}
use ipfs_share.Fs.Disk.Laws.{require_inv, bind_inv, written}
use ipfs_share.Fs.Meta.{Slice, elements, FileMeta}
use ipfs_share.Fs.External.{External, IsExternal, File}
use ipfs_share.Fs.Storage.{Storage, group_file_data_dir}
use ipfs_share.Fs.Storage.Downloads.{Usable, Outside}
use ipfs_share.Fs.File
use ipfs_share.Fs.File.Updating.{save_metadata_lem}
use ipfs_share.Fs.Repo.{GroupRepo, store, get_file, get_group_file_metas_from_ipfs}
use ipfs_share.Fs.Repo.Loading.{load_sealed}

-- What `rand.Read` gives for a file: the key of a new file, the new key of its upload, and the
-- upload's first nonce.
pub record Draw : Type 0 where
  pub file_key : Option Bytes
  pub new_key : Option Bytes
  pub nonce : Bytes

-- By the name of the file, which a directory has once.
abbrev pub Draws : Type 0
Draws = Bytes → Draw

-- A file in the group's directory, with what is drawn for it.
pub record LocalFile : Type 0 where
  pub name : Bytes
  pub draw : Draw

abbrev pub local_file : Draws → Entry → LocalFile
local_file draws e = record { name = e.name; draw = draws e.name }

abbrev pub local_files : Draws → List Entry → List LocalFile
local_files draws [] = []
local_files draws (e ∷ es) = local_file draws e ∷ local_files draws es

-- What `getPendingChanges` and its parts return.
abbrev pub PendingResult : Type 0 → Type 0
PendingResult A = Result FsError A × GroupRepo × Disk

abbrev pub and_with :
    {A B : Type 0} → PendingResult A → (A → GroupRepo → Disk → PendingResult B) → PendingResult B
and_with (ok a, repo, d) k = k a repo d
and_with (err e, repo, d) k = (err e, repo, d)
and_with (panic, repo, d) k = (panic, repo, d)

abbrev pub entries : List FileMeta → List (Option FileMeta)
entries [] = []
entries (m ∷ ms) = some m ∷ entries ms

-- A Go slice that nothing was appended to is nil.
abbrev pub appended : List FileMeta → Slice (Option FileMeta)
appended [] = none
appended (m ∷ ms) = some (entries (m ∷ ms))

pub elements-appended : (ms : List FileMeta) → elements (appended ms) ≡ entries ms
elements-appended [] = refl
elements-appended (m ∷ ms) = refl

abbrev pub beside : {A : Type 0} → GroupRepo → Result FsError A × Disk → PendingResult A
beside repo (r, d) = (r, repo, d)

module _ (x : External) (s : Storage) (group : Group) where
  abbrev pub created_file : GroupRepo → Result FsError File × Disk → PendingResult File
  created_file repo (ok f, d) = (ok f, store f repo, d)
  created_file repo (err e, d) = (err e, repo, d)
  created_file repo (panic, d) = (panic, repo, d)

  -- The file of the repository, or a new one, whose only writer is the user.
  abbrev pub find_file : LocalFile → GroupRepo → Disk → Option File → PendingResult File
  find_file l repo d (some f) = (ok f, repo, d)
  find_file l repo d none = created_file repo (
      File.new_group_file x (group_file_data_dir group.name s ++ l.name) l.name
        (some (repo.user ∷ [])) group.address l.draw.file_key s d)

  abbrev pub saved_as :
      FileMeta → GroupRepo → Result FsError (Unit {0}) × Disk → PendingResult FileMeta
  saved_as p repo (ok _, d) = (ok p, repo, d)
  saved_as p repo (err e, d) = (err e, repo, d)
  saved_as p repo (panic, d) = (panic, repo, d)

  -- `file.PendingChanges.IpfsHash = newIpfsHash`, and the saving of the file.
  abbrev pub set_hash : Bytes → File → Option FileMeta → GroupRepo → Disk → PendingResult FileMeta
  set_hash hash f none repo d = (panic, repo, d)
  set_hash hash f (some p) repo d =
      let p' = record p { ipfs_hash = hash } in
      let f' = record f { pending_changes = some p' } in
      saved_as p' (store f' repo) (File.save_metadata x f' d)

  abbrev pub uploaded : GroupRepo → File.Outcome3 Bytes → PendingResult FileMeta
  uploaded repo (ok hash, f, d) = set_hash hash f f.pending_changes (store f repo) d
  uploaded repo (err e, f, d) = (err e, store f repo, d)
  uploaded repo (panic, f, d) = (panic, store f repo, d)

  -- One round of the loop of `getPendingChanges`.
  pub pending_change : LocalFile → GroupRepo → Disk → PendingResult FileMeta
  pending_change l repo d =
      and_with (find_file l repo d (get_file l.name repo))
        (λ f repo' d'. uploaded repo' (File.upload_diff x f l.draw.new_key l.draw.nonce d'))

  pub pending_changes : List LocalFile → GroupRepo → Disk → PendingResult (List FileMeta)
  pending_changes [] repo d = (ok [], repo, d)
  pending_changes (l ∷ ls) repo d = and_with (pending_change l repo d) (λ m repo' d'.
      and_with (pending_changes ls repo' d') (λ ms repo'' d''. (ok (m ∷ ms), repo'', d'')))

  abbrev pub listed :
      Draws → GroupRepo → Result FsError (List Entry) × Disk → PendingResult (List FileMeta)
  listed draws repo (ok es, d) = pending_changes (local_files draws es) repo d
  listed draws repo (err e, d) = (err e, repo, d)
  listed draws repo (panic, d) = (panic, repo, d)

  -- `getPendingChanges`, of the files that stand in the group's directory on the disk.
  unfoldable pub get_pending_changes : Draws → GroupRepo → Disk → PendingResult (List FileMeta)
  unfolding pending_changes pending_change
  get_pending_changes draws repo d =
      listed draws repo (read_dir (group_file_data_dir group.name s) d)

  unfoldable pub seal_and_add : SymmetricKey → Bytes → List FileMeta → Action Bytes
  seal_and_add boxer nonce ms = do
    bs ← require (x.metas_codec.marshal (appended ms)) not_encoded
    require (x.ipfs_add (box_seal x.box boxer nonce bs)) ipfs_failed

  -- `CommitChanges`, with the nonce of the box.
  unfoldable pub commit_changes :
      SymmetricKey → Bytes → Draws → GroupRepo → Disk → PendingResult Bytes
  commit_changes boxer nonce draws repo d =
      and_with (get_pending_changes draws repo d)
        (λ ms repo' d'. beside repo' (seal_and_add boxer nonce ms d'))
