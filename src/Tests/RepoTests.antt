-- ===== src/Tests/RepoTests.antt =====
-- The theorems on client/fs/grouprepo.go at concrete inputs.
use ipfs_share.Prelude.{
  Bool, true, sym, ap, ◌∙◌, if◌then◌else◌, ◌≡◌, refl, List, [], ◌∷◌, ◌++◌, Bytes, bytes_equal,
  bytes_eq, false, ◌||◌, Option, none, some, ok, All,
}
use ipfs_share.Crypto.SymmetricKey.{SymmetricKey, box_seal}
use ipfs_share.Collections.Map.{get}
use ipfs_share.Fs.Disk.{Disk}
use ipfs_share.Fs.Meta.{FileMeta}
use ipfs_share.Fs.External.{File}
use ipfs_share.Fs.Storage.Downloads.{Outside}
use ipfs_share.Fs.Repo.{
  GroupRepo, store, get_file, equal_fold, get_group_file_metas_from_ipfs, is_valid_change_set,
  update,
}
use ipfs_share.Fs.Repo.Validity.{ApartFiles, Permitted, is_valid_change_set-Permitted}
use ipfs_share.Fs.Repo.Takeover.{takeover}
use ipfs_share.Fs.Repo.Updating.{Applied, update-Applied}
use ipfs_share.Fs.Repo.Agreement.{is_valid_change_set-commit_changes}
use ipfs_share.Fs.Repo.Honest.{is_valid_change_set_honest, original_after}
use ipfs_share.Fs.Disk.Directory.{Entry, read_dir}
use ipfs_share.Fs.Storage.{group_file_data_dir, init, new_storage}
use ipfs_share.Fs.Storage.Downloads.{tmp_file}
use ipfs_share.Fs.File.{upload_diff}
use ipfs_share.Fs.File.Upload.{Working, upload_diff_lem}
use ipfs_share.Fs.File.Sync.{Usable-after}
use ipfs_share.Tests.Wire.{unmarshal-write}
use ipfs_share.Fs.Repo.Loading.{load_sealed}
use ipfs_share.Fs.Repo.Commit.{
  Draws, local_file, pending_change, commit_changes, get_pending_changes, entries,
}
use ipfs_share.Fs.Repo.Commit.Committed.{
  pending_change_lem, commit_changes_one, load-commit_changes,
}
use ipfs_share.Tests.World.{world, world-IsExternal, metas_wire}
use ipfs_share.Tests.CryptoTests.{nonce24, nonce24-IsNonce}
use ipfs_share.Tests.StateTests.{disk1, meta1, group1}
use ipfs_share.Tests.FsTests.{
  file1, storage1, usable1, disk2, usable, has_original, has_text, new_key,
}

-- The file has been committed under the hash "ab" by account 11.
abbrev pub file_ab : File
file_ab = record file1 { meta = record meta1 { ipfs_hash = b'a' ∷ b'b' ∷ [] } }

abbrev pub repo1 : GroupRepo
repo1 = record {
  files = record { entries = (b'f' ∷ [], some file_ab) ∷ [] };
  ipfs_hash = b'q' ∷ [];
  user = 11;
}

-- Somebody else's change set: the same hash, and an access list of their choice.
abbrev taken : FileMeta
taken = record meta1 { ipfs_hash = b'a' ∷ b'b' ∷ []; write_access_list = some (66 ∷ []) }

abbrev change_set : Bytes
change_set = metas_wire.write (some (some taken ∷ [])) []

abbrev pub hash1 : Bytes
hash1 = 1 ∷ box_seal world.box group1.boxer nonce24 change_set

loaded :
    (d' : Disk) × (get_group_file_metas_from_ipfs world storage1 hash1 group1.boxer disk1
      ≡ (ok (some taken ∷ []), d'))
    × Outside (storage1.tmp_path ++ hash1) disk1 d'
loaded =
    load_sealed world world-IsExternal storage1 hash1 nonce24 change_set group1.boxer
      (some (some taken ∷ [])) disk1 refl refl refl (usable1 (storage1.tmp_path ++ hash1))

pub has_file : get_file (b'f' ∷ []) repo1 ≡ some file_ab
unfolding get_file get bytes_equal
has_file = refl

other_hash : equal_fold hash1 [] || equal_fold hash1 repo1.ipfs_hash ≡ false
unfolding equal_fold box_seal
other_hash = refl

takeover_example :
    (is_valid_change_set world storage1 repo1 hash1 group1.boxer 66 disk1 ≡ (ok tt, loaded.0))
    × (get_file (b'f' ∷ []) (update world storage1 group1 repo1 hash1 disk1).1.repo
        ≡ some (record file_ab { meta = taken }))
takeover_example =
    takeover world storage1 group1 repo1 hash1 file_ab taken (66 ∷ []) disk1 loaded.0 loaded.1
      has_file refl refl other_hash 66

-- Account 11 changes the file, and uploads it with a new key.
Working-ab : Working world file_ab disk2 (some (5 ∷ [])) (5 ∷ 6 ∷ [])
Working-ab = record { base = has_original; changed = has_text }

pub uploaded_ab :
    (h : Bytes) × (upload_diff world file_ab (some new_key) nonce24 disk2 ≡ (
      ok h,
      record file_ab {
        pending_changes = some (record meta1 { data_key = record { key = new_key } });
      },
      disk2,
    ))
uploaded_ab =
    upload_diff_lem world world-IsExternal file_ab meta1 new_key nonce24 disk2 (some (5 ∷ []))
      (5 ∷ 6 ∷ []) refl nonce24-IsNonce Working-ab (λ c. (1 ∷ c, refl))

abbrev pub changed : FileMeta
changed = record meta1 { ipfs_hash = uploaded_ab.0; data_key = record { key = new_key } }

abbrev hash2 : Bytes
hash2 = 1 ∷ box_seal world.box group1.boxer nonce24 (metas_wire.write (some (some changed ∷ [])) [])

loaded2 :
    (d' : Disk) × (get_group_file_metas_from_ipfs world storage1 hash2 group1.boxer disk2
      ≡ (ok (some changed ∷ []), d'))
    × Outside (storage1.tmp_path ++ hash2) disk2 d'
loaded2 =
    load_sealed world world-IsExternal storage1 hash2 nonce24
      (metas_wire.write (some (some changed ∷ [])) []) group1.boxer (some (some changed ∷ [])) disk2
      refl (unmarshal-write metas_wire (some (some changed ∷ []))) refl
      (usable (storage1.tmp_path ++ hash2))

tmp_apart :
    (bytes_equal (storage1.tmp_path ++ hash2) (b'o' ∷ []) ≡ false)
    × (bytes_equal (tmp_file uploaded_ab.0 storage1) (b'o' ∷ []) ≡ false)
unfolding bytes_equal init new_storage
tmp_apart = (refl, refl)

is_valid_change_set_honest_example :
    (d' : Disk) × (is_valid_change_set world storage1 repo1 hash2 group1.boxer 11 disk2
      ≡ (ok tt, d'))
is_valid_change_set_honest_example =
    is_valid_change_set_honest world storage1 world-IsExternal file_ab
      (record file_ab {
        pending_changes = some (record meta1 { data_key = record { key = new_key } });
      })
      file_ab meta1 changed (11 ∷ []) new_key nonce24 (5 ∷ []) (5 ∷ 6 ∷ []) hash2 group1.boxer repo1
      11 disk2 disk2 disk2 loaded2.0 refl nonce24-IsNonce Working-ab uploaded_ab.1 refl refl
      loaded2.1 has_file refl refl
      (original_after world storage1 (storage1.tmp_path ++ hash2) (b'o' ∷ []) (5 ∷ []) disk2
        loaded2.0 loaded2.2 tmp_apart.0 has_original)
      (Usable-after world loaded2.2 (usable (tmp_file uploaded_ab.0 storage1))) tmp_apart.1

all_apart : (h : Bytes) → bytes_equal (storage1.tmp_path ++ h) (b'o' ∷ []) ≡ false
unfolding bytes_equal init new_storage
all_apart h = refl

apart1 : ApartFiles storage1 repo1
unfolding get_file get
apart1 name f e = at (bytes_equal (b'f' ∷ []) name) e
  where
    at :
        (same : Bool)
        → (if same then some file_ab else none) ≡ some f
        → (h : Bytes) → bytes_equal (storage1.tmp_path ++ h) f.orig_path ≡ false
    at true q h =
        let is : file_ab ≡ f = cc in
        ap (λ (g : File). bytes_equal (storage1.tmp_path ++ h) g.orig_path) (sym is) ∙ all_apart h
    at false q h = cc

is_valid_change_set-Permitted_example :
    (metas : List (Option FileMeta)) × (d1 : Disk) × (get_group_file_metas_from_ipfs world storage1
        hash2 group1.boxer disk2
      ≡ (ok metas, d1))
    × All (Permitted world storage1 disk2 repo1 11) metas
is_valid_change_set-Permitted_example =
    is_valid_change_set-Permitted world storage1 disk2 repo1 apart1 11 hash2 group1.boxer
      is_valid_change_set_honest_example.0 is_valid_change_set_honest_example.1

update-Applied_example :
    Applied world storage1 repo1 hash1
      (some taken ∷ [])
      (update world storage1 group1 repo1 hash1 disk1)
update-Applied_example =
    update-Applied world storage1 group1 repo1 hash1 (some taken ∷ []) disk1 loaded.0 loaded.1
      other_hash (tt, tt)

-- Account 11 commits the change of its only file.
abbrev pub draws1 : Draws
draws1 name = record { file_key = none; new_key = some new_key; nonce = nonce24 }

abbrev entry_f : Entry
entry_f = record { name = b'f' ∷ []; is_dir = false }

directory1 : read_dir (group_file_data_dir group1.name storage1) disk2 ≡ (ok (entry_f ∷ []), disk2)
unfolding read_dir group_file_data_dir init new_storage
directory1 = refl

pub round_ab :
    let f : File = record file_ab { pending_changes = some changed } in
    let g : File = record file_ab {
      pending_changes = some (record meta1 { data_key = record { key = new_key } });
    } in
    (d2 : Disk) × (pending_change world storage1 group1 (local_file draws1 entry_f) repo1 disk2
      ≡ (ok changed, store f (store g repo1), d2))
round_ab =
    pending_change_lem world storage1 group1 world-IsExternal (local_file draws1 entry_f) repo1
      file_ab
      (record file_ab {
        pending_changes = some (record meta1 { data_key = record { key = new_key } });
      })
      (record meta1 { data_key = record { key = new_key } }) uploaded_ab.0 disk2 disk2 has_file
      uploaded_ab.1 refl refl refl

abbrev pub repo2 : GroupRepo
repo2 =
    store (record file_ab { pending_changes = some changed })
      (store
        (record file_ab {
          pending_changes = some (record meta1 { data_key = record { key = new_key } });
        })
        repo1)

pub committed :
    (boxer : SymmetricKey)
    → (hash : Bytes) × (commit_changes world storage1 group1 boxer nonce24 draws1 repo1 disk2
        ≡ (ok hash, repo2, round_ab.0))
committed boxer =
    commit_changes_one world storage1 group1 world-IsExternal boxer nonce24 draws1 entry_f repo1
      repo2 changed disk2 round_ab.0 directory1 round_ab.1 (λ c. (1 ∷ c, refl))

load-commit_changes_example :
    (ms : List FileMeta) × (d1 : Disk) × (get_pending_changes world storage1 group1 draws1 repo1
        disk2
      ≡ (ok ms, repo2, d1))
    × (d3 : Disk) × (get_group_file_metas_from_ipfs world storage1
          (committed group1.boxer).0
          group1.boxer
          disk2
        ≡ (ok (entries ms), d3))
load-commit_changes_example =
    load-commit_changes world storage1 group1 world-IsExternal group1.boxer nonce24
      (committed group1.boxer).0 draws1 repo1 repo2 disk2 round_ab.0 (committed group1.boxer).1 refl
      storage1 disk2 (usable (storage1.tmp_path ++ (committed group1.boxer).0))

is_valid_change_set-commit_changes_example :
    (hash : Bytes) × (repo' : GroupRepo) × (d' : Disk) × (commit_changes world storage1 group1
        group1.boxer nonce24 draws1 repo1 disk2
      ≡ (ok hash, repo', d'))
    × (d3 : Disk) × (is_valid_change_set world storage1 repo1 hash group1.boxer 11 disk2
        ≡ (ok tt, d3))
is_valid_change_set-commit_changes_example =
    is_valid_change_set-commit_changes world world-IsExternal storage1 storage1 group1 draws1
      entry_f repo1 repo1 file_ab file_ab meta1 (11 ∷ []) new_key nonce24 (5 ∷ []) (5 ∷ 6 ∷ [])
      group1.boxer 11 disk2 disk2 directory1 has_file refl refl refl nonce24-IsNonce refl Working-ab
      refl refl (λ c. (1 ∷ c, refl)) has_file refl refl has_original usable all_apart
