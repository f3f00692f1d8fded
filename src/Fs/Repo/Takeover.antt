-- ===== src/Fs/Repo/Takeover.antt =====
-- What `IsValidChangeSet` does not look at: entries that keep the hash of their file.
use ipfs_share.Prelude.{
  ◌≡◌, refl, ◌∙◌, ap, ◌⊎◌, inl, inr, List, [], ◌∷◌, Bool, false, ◌||◌, Option, none, some, Bytes,
  bytes_equal_iff, bytes_equal_refl, ok, err, panic, All, bytes_eq,
}
use ipfs_share.Collections.Map.{get}
use ipfs_share.Collections.Map.Laws.{get-put}
use ipfs_share.Crypto.SymmetricKey.{SymmetricKey}
use ipfs_share.Group.{Group}
use ipfs_share.Fs.Disk.{Disk}
use ipfs_share.Fs.Disk.Laws.{bind_ok}
use ipfs_share.Fs.Meta.{Address, FileMeta}
use ipfs_share.Fs.External.{External, File}
use ipfs_share.Fs.Storage.{Storage}
use ipfs_share.Fs.File
use ipfs_share.Fs.File.Updating.{update_unchanged}
use ipfs_share.Fs.Repo.{
  GroupRepo, idle, get_file, get_group_file_metas_from_ipfs, check_file, check_known, check_list,
  check_meta, check_metas, is_valid_change_set, update_found, update_meta, update_metas, and_then,
  updated, finish, with_metas, update, equal_fold, RunResult,
}

-- The entry is for a file that the repository does not have, or keeps the hash of its file.
abbrev pub KeepsHash : GroupRepo → FileMeta → Type 0
KeepsHash repo m =
    (get_file m.file_name repo ≡ none)
    ⊎ ((f : File) × (get_file m.file_name repo ≡ some f) × (f.meta.ipfs_hash ≡ m.ipfs_hash))

abbrev pub Unguarded : GroupRepo → Option FileMeta → Type 0
Unguarded repo none = ⊥
Unguarded repo (some m) = ((l : List Address) × (m.write_access_list ≡ some l)) × KeepsHash repo m

module _ (x : External) (s : Storage) where
  check_file_unchanged :
      (f : File) (m : FileMeta) (address : Address) (d : Disk)
      → f.meta.ipfs_hash ≡ m.ipfs_hash
      → check_file x s f m address d ≡ (ok tt, d)
  unfolding check_file
  check_file_unchanged f m address d e =
      rw ((bytes_equal_iff f.meta.ipfs_hash m.ipfs_hash).1 e) refl

  check_meta-Unguarded :
      (repo : GroupRepo) (address : Address) (m : Option FileMeta) (d : Disk)
      → Unguarded repo m
      → check_meta x s repo address m d ≡ (ok tt, d)
  unfolding check_meta
  check_meta-Unguarded repo address none d h = elim h [ ]
  check_meta-Unguarded repo address (some m) d ((l, is_list), keeps) =
      ap (λ o. check_list x s o (check_known x s (get_file m.file_name repo) m address) d) is_list
      ∙ known keeps
    where
      known :
          KeepsHash repo m → check_known x s (get_file m.file_name repo) m address d ≡ (ok tt, d)
      known (inl absent) = ap (λ o. check_known x s o m address d) absent
      known (inr (f, found, same)) =
          ap (λ o. check_known x s o m address d) found ∙ check_file_unchanged f m address d same

  check_metas-Unguarded :
      (repo : GroupRepo) (address : Address) (ms : List (Option FileMeta)) (d : Disk)
      → All (Unguarded repo) ms
      → check_metas x s repo address ms d ≡ (ok tt, d)
  unfolding check_metas
  check_metas-Unguarded repo address [] d _ = refl
  check_metas-Unguarded repo address (m ∷ ms) d (h, hs) =
      bind_ok (check_meta x s repo address m) (λ _. check_metas x s repo address ms) d
        (check_meta-Unguarded repo address m d h)
      ∙ check_metas-Unguarded repo address ms d hs

  -- A change set whose entries all keep the hash of their file, or are for new files, is accepted
  -- for every account, whatever access list an entry carries.
  pub is_valid_change_set-Unguarded :
      (repo : GroupRepo) (hash : Bytes) (boxer : SymmetricKey) (ms : List (Option FileMeta))
      (d d' : Disk)
      → get_group_file_metas_from_ipfs x s hash boxer d ≡ (ok ms, d')
      → All (Unguarded repo) ms
      → (address : Address) → is_valid_change_set x s repo hash boxer address d ≡ (ok tt, d')
  unfolding is_valid_change_set
  is_valid_change_set-Unguarded repo hash boxer ms d d' loaded hs address =
      bind_ok (get_group_file_metas_from_ipfs x s hash boxer) (check_metas x s repo address) d
        loaded
      ∙ check_metas-Unguarded repo address ms d' hs

  -- A nil entry in front stops the whole program, for whoever checks the change set.
  pub is_valid_change_set_nil :
      (repo : GroupRepo) (hash : Bytes) (boxer : SymmetricKey) (ms : List (Option FileMeta))
      (d d' : Disk) (address : Address)
      → get_group_file_metas_from_ipfs x s hash boxer d ≡ (ok (none ∷ ms), d')
      → is_valid_change_set x s repo hash boxer address d ≡ (panic, d')
  unfolding is_valid_change_set check_metas check_meta
  is_valid_change_set_nil repo hash boxer ms d d' address loaded =
      bind_ok (get_group_file_metas_from_ipfs x s hash boxer) (check_metas x s repo address) d
        loaded

  update_meta_unchanged :
      (group : Group) (repo : GroupRepo) (f : File) (m : FileMeta) (d : Disk)
      → get_file m.file_name repo ≡ some f
      → f.meta.ipfs_hash ≡ m.ipfs_hash
      → get_file m.file_name (update_meta x s group (idle repo) (some m) d).1.repo
        ≡ some (record f { meta = m })
  unfolding update_meta get_file
  update_meta_unchanged group repo f m d found same =
      ap (λ o. get m.file_name (update_found x s group (idle repo) m d o).1.repo.files) found
      ∙ ap (λ (o : File.Outcome3 Bool). get m.file_name (updated x s (idle repo) o).1.repo.files)
          (update_unchanged x f m d same)
      ∙ get-put m.file_name m.file_name (some (record f { meta = m })) repo.files
      ∙ rw (bytes_equal_refl m.file_name) refl

  files-finish :
      (hash : Bytes) (r : RunResult)
      → (and_then (and_then r (λ run d. (ok tt, run, d))) (finish x s hash)).1.repo.files
        ≡ r.1.repo.files
  files-finish hash (ok _, run, d) = refl
  files-finish hash (err e, run, d) = refl
  files-finish hash (panic, run, d) = refl

  -- A change set of one entry that keeps the hash of a file of the repository is accepted for
  -- every account, and the update to it, under a new hash, makes that entry, its access list
  -- included, the metadata of the file.
  pub takeover :
      (group : Group) (repo : GroupRepo) (hash : Bytes) (f : File) (m : FileMeta) (l : List Address)
      (d d' : Disk)
      → get_group_file_metas_from_ipfs x s hash group.boxer d ≡ (ok (some m ∷ []), d')
      → get_file m.file_name repo ≡ some f
      → f.meta.ipfs_hash ≡ m.ipfs_hash
      → m.write_access_list ≡ some l
      → equal_fold hash [] || equal_fold hash repo.ipfs_hash ≡ false
      → (address : Address)
      → (is_valid_change_set x s repo hash group.boxer address d ≡ (ok tt, d'))
        × (get_file m.file_name (update x s group repo hash d).1.repo
            ≡ some (record f { meta = m }))
  unfolding update get_file update_metas
  takeover group repo hash f m l d d' loaded found same is_list other address = (
    is_valid_change_set-Unguarded repo hash group.boxer (some m ∷ []) d d' loaded
        (((l, is_list), inr (f, found, same)), tt) address,
    rw other (
        ap (λ r. get m.file_name (with_metas x s group hash repo r).1.repo.files) loaded
        ∙ ap (get m.file_name) (files-finish hash (update_meta x s group (idle repo) (some m) d'))
        ∙ update_meta_unchanged group repo f m d' found same),
  )
