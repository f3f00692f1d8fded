-- ===== src/Fs/Repo/Updating.antt =====
-- What `GroupRepo.Update` does to the files and to the hash of a repository.
use ipfs_share.Prelude.{
  ◌≡◌, ◌≢◌, refl, sym, ◌∙◌, ap, subst, ◌⊎◌, inl, inr, List, [], ◌∷◌, Bool, false, ◌||◌, Option,
  none, some, Bytes, bytes_equal, bytes_equal_refl, Result, ok, err, panic, All, bytes_eq,
}
use ipfs_share.Collections.Map.{Map, get, put}
use ipfs_share.Collections.Map.Laws.{get-put}
use ipfs_share.Group.{Group}
use ipfs_share.Fs.Disk.{Disk, FsError}
use ipfs_share.Fs.Meta.{FileMeta}
use ipfs_share.Fs.External.{External, File}
use ipfs_share.Fs.Storage.{Storage}
use ipfs_share.Fs.File
use ipfs_share.Fs.File.Updating.{update-meta, new_group_file_from_meta-meta}
use ipfs_share.Fs.Repo.{
  GroupRepo, Running, RunResult, idle, store, get_file, get_group_file_metas_from_ipfs, equal_fold,
  update_found, update_meta, update_metas, and_then, updated, created, finish, with_metas, update,
}

-- The repository has `m` for the file that `m` names.
pub record Holds (files : Map Bytes File) (m : FileMeta) : Type 0 where
  pub file : File
  pub found : get m.file_name files ≡ some file
  pub has_meta : file.meta ≡ m

-- From `before` to `after`, `m` is installed and the other files are kept.
pub record Installed (before after : Map Bytes File) (m : FileMeta) : Type 0 where
  pub holds : Holds after m
  pub others : (j : Bytes) → bytes_equal m.file_name j ≡ false → get j after ≡ get j before

store-Installed :
    (repo : GroupRepo) (f : File) (m : FileMeta)
    → f.meta ≡ m
    → Installed repo.files (store f repo).files m
store-Installed repo f m e = record {
  holds = record {
    file = f;
    found =
        ap (λ (k : FileMeta). get m.file_name (put k.file_name (some f) repo.files)) e
        ∙ get-put m.file_name m.file_name (some f) repo.files
        ∙ rw (bytes_equal_refl m.file_name) refl;
    has_meta = e;
  };
  others = λ j n.
      ap (λ (k : FileMeta). get j (put k.file_name (some f) repo.files)) e
      ∙ get-put j m.file_name (some f) repo.files
      ∙ rw n refl;
}

module _ (x : External) (s : Storage) where
  created-Installed :
      (run : Running) (m : FileMeta) (r : Result FsError File × Disk)
      → ((f : File) (d : Disk) → r ≡ (ok f, d) → f.meta ≡ m)
      → (created x s run r).0 ≡ ok tt
      → Installed run.repo.files (created x s run r).1.repo.files m
  created-Installed run m (ok f, d) h e = store-Installed run.repo f m (h f d refl)
  created-Installed run m (err _, d) h e = cc
  created-Installed run m (panic, d) h e = cc

  updated-Installed :
      (run : Running) (m : FileMeta) (r : File.Outcome3 Bool)
      → r.1.meta ≡ m
      → (updated x s run r).0 ≡ ok tt
      → Installed run.repo.files (updated x s run r).1.repo.files m
  updated-Installed run m (ok _, f, d) h e = store-Installed run.repo f m h
  updated-Installed run m (err _, f, d) h e = cc
  updated-Installed run m (panic, f, d) h e = cc

  update_found-Installed :
      (group : Group) (run : Running) (m : FileMeta) (d : Disk) (found : Option File)
      → (update_found x s group run m d found).0 ≡ ok tt
      → Installed run.repo.files (update_found x s group run m d found).1.repo.files m
  update_found-Installed group run m d none e =
      created-Installed run m (File.new_group_file_from_meta x m group.address group.name s d)
        (λ f d'. new_group_file_from_meta-meta x m group.address group.name s d d' f) e
  update_found-Installed group run m d (some f) e =
      updated-Installed run m (File.update x f m d) (update-meta x f m d) e

  -- The names of the entries, and no name twice.
  abbrev pub Named : Option FileMeta → (FileMeta → Type 0) → Type 0
  Named none P = ⊥
  Named (some m) P = P m

  abbrev pub OtherNames : Bytes → List (Option FileMeta) → Type 0
  OtherNames name ms = All (λ o. Named o (λ m. bytes_equal m.file_name name ≡ false)) ms

  abbrev pub DistinctNames : List (Option FileMeta) → Type 0
  DistinctNames [] = Unit
  DistinctNames (none ∷ ms) = DistinctNames ms
  DistinctNames (some m ∷ ms) = OtherNames m.file_name ms × DistinctNames ms

  and_then_inv :
      (r : RunResult) (k : Running → Disk → RunResult)
      → (and_then r k).0 ≡ ok tt
      → (r.0 ≡ ok tt) × (and_then r k ≡ k r.1 r.2)
  and_then_inv (ok _, run, d) k e = (refl, refl)
  and_then_inv (err _, run, d) k e = cc
  and_then_inv (panic, run, d) k e = cc

  -- What a successful run over the entries leaves.
  pub record Done (before after : Map Bytes File) (ms : List (Option FileMeta)) : Type 0 where
    pub held : All (λ o. Named o (Holds after)) ms
    pub untouched : (j : Bytes) → OtherNames j ms → get j after ≡ get j before

  Holds-untouched :
      (m : FileMeta) (before after : Map Bytes File)
      → get m.file_name after ≡ get m.file_name before
      → Holds before m
      → Holds after m
  Holds-untouched m before after e h = record {
    file = h.file;
    found = e ∙ h.found;
    has_meta = h.has_meta;
  }

  first_Done :
      (before mid after : Map Bytes File) (m : FileMeta) (ms : List (Option FileMeta))
      → Installed before mid m
      → OtherNames m.file_name ms
      → Done mid after ms
      → Done before after (some m ∷ ms)
  first_Done before mid after m ms i n rest = record {
    held = (Holds-untouched m mid after (rest.untouched m.file_name n) i.holds, rest.held);
    untouched = λ j (h, hs). rest.untouched j hs ∙ i.others j h;
  }

  update_metas-Done :
      (group : Group) (ms : List (Option FileMeta)) (run : Running) (d : Disk)
      → DistinctNames ms
      → (update_metas x s group ms run d).0 ≡ ok tt
      → Done run.repo.files (update_metas x s group ms run d).1.repo.files ms
  unfolding update_metas update_meta
  update_metas-Done group [] run d n e = record { held = tt; untouched = λ j _. refl }
  update_metas-Done group (none ∷ ms) run d n e = cc
  update_metas-Done group (some m ∷ ms) run d (n, ns) e =
      let r = update_found x s group run m d (get_file m.file_name run.repo) in
      let (first, rest) = and_then_inv r (λ run' d'. update_metas x s group ms run' d') e in
      let later =
        update_metas-Done group ms r.1 r.2 ns (sym (ap (λ (t : RunResult). t.0) rest) ∙ e) in
      let i = update_found-Installed group run m d (get_file m.file_name run.repo) first in
      subst (λ (t : RunResult). Done run.repo.files t.1.repo.files (some m ∷ ms)) (sym rest)
        (first_Done run.repo.files r.1.repo.files (update_metas x s group ms r.1 r.2).1.repo.files m
          ms i n later)

  -- The hash is not touched before the end.
  created-ipfs_hash :
      (run : Running) (r : Result FsError File × Disk)
      → (created x s run r).1.repo.ipfs_hash ≡ run.repo.ipfs_hash
  created-ipfs_hash run (ok f, d) = refl
  created-ipfs_hash run (err _, d) = refl
  created-ipfs_hash run (panic, d) = refl

  updated-ipfs_hash :
      (run : Running) (r : File.Outcome3 Bool)
      → (updated x s run r).1.repo.ipfs_hash ≡ run.repo.ipfs_hash
  updated-ipfs_hash run (ok _, f, d) = refl
  updated-ipfs_hash run (err _, f, d) = refl
  updated-ipfs_hash run (panic, f, d) = refl

  update_found-ipfs_hash :
      (group : Group) (run : Running) (m : FileMeta) (d : Disk) (found : Option File)
      → (update_found x s group run m d found).1.repo.ipfs_hash ≡ run.repo.ipfs_hash
  update_found-ipfs_hash group run m d none =
      created-ipfs_hash run (File.new_group_file_from_meta x m group.address group.name s d)
  update_found-ipfs_hash group run m d (some f) = updated-ipfs_hash run (File.update x f m d)

  update_metas-ipfs_hash :
      (group : Group) (ms : List (Option FileMeta)) (run : Running) (d : Disk)
      → (update_metas x s group ms run d).1.repo.ipfs_hash ≡ run.repo.ipfs_hash
  unfolding update_metas update_meta
  update_metas-ipfs_hash group [] run d = refl
  update_metas-ipfs_hash group (none ∷ ms) run d = refl
  update_metas-ipfs_hash group (some m ∷ ms) run d =
      go (update_found x s group run m d (get_file m.file_name run.repo))
        (λ run' d'. update_metas-ipfs_hash group ms run' d')
        (update_found-ipfs_hash group run m d (get_file m.file_name run.repo))
    where
      go :
          (r : RunResult)
          → ((run' : Running) (d' : Disk)
              → (update_metas x s group ms run' d').1.repo.ipfs_hash ≡ run'.repo.ipfs_hash)
          → r.1.repo.ipfs_hash ≡ run.repo.ipfs_hash
          → (and_then r (λ run' d'. update_metas x s group ms run' d')).1.repo.ipfs_hash
            ≡ run.repo.ipfs_hash
      go (ok _, run', d') rest e = rest run' d' ∙ e
      go (err _, run', d') rest e = e
      go (panic, run', d') rest e = e

  -- What `with_metas` leaves, once the change set is there.
  abbrev pub Applied : GroupRepo → Bytes → List (Option FileMeta) → RunResult → Type 0
  Applied repo hash ms r =
      ((r.0 ≡ ok tt) × (r.1.repo.ipfs_hash ≡ hash) × Done repo.files r.1.repo.files ms)
      ⊎ ((r.0 ≢ ok tt) × (r.1.repo.ipfs_hash ≡ repo.ipfs_hash))

  with_metas-Applied :
      (group : Group) (repo : GroupRepo) (hash : Bytes) (ms : List (Option FileMeta)) (d : Disk)
      → DistinctNames ms
      → Applied repo hash ms (with_metas x s group hash repo (ok ms, d))
  with_metas-Applied group repo hash ms d n =
      go (update_metas x s group ms (idle repo) d) (update_metas-Done group ms (idle repo) d n)
        (update_metas-ipfs_hash group ms (idle repo) d)
    where
      go :
          (r : RunResult)
          → (r.0 ≡ ok tt → Done repo.files r.1.repo.files ms)
          → r.1.repo.ipfs_hash ≡ repo.ipfs_hash
          → Applied repo hash ms (and_then r (finish x s hash))
      go (ok _, run', d') h e = inl (refl, refl, h refl)
      go (err _, run', d') h e = inr ((λ q. cc), e)
      go (panic, run', d') h e = inr ((λ q. cc), e)

  -- For a change set that loads, names no file twice and whose hash is new, Update either
  -- succeeds, with the new hash, every entry's metadata in place and all other files as before, or
  -- does not, and then the hash is the old one.
  pub update-Applied :
      (group : Group) (repo : GroupRepo) (hash : Bytes) (ms : List (Option FileMeta)) (d d' : Disk)
      → get_group_file_metas_from_ipfs x s hash group.boxer d ≡ (ok ms, d')
      → equal_fold hash [] || equal_fold hash repo.ipfs_hash ≡ false
      → DistinctNames ms
      → Applied repo hash ms (update x s group repo hash d)
  unfolding update
  update-Applied group repo hash ms d d' loaded other n = rw other (
      subst (λ r. Applied repo hash ms (with_metas x s group hash repo r)) (sym loaded)
        (with_metas-Applied group repo hash ms d' n))
