-- ===== src/Tests/FsTests.antt =====
-- The theorems on client/fs at concrete inputs.
use ipfs_share.Prelude.{
  is_utf8, codes, ◌≡◌, refl, ap, ◌∙◌, [], ◌∷◌, ◌++◌, Bytes, bytes_equal, false, none, some, ok, err,
  take, Distinct,
}
use ipfs_share.Crypto.FileBoxer.{FileBoxer, done, failed, open_file}
use ipfs_share.Fs.Disk.{Disk, not_decrypted, lookup}
use ipfs_share.Fs.External.{File}
use ipfs_share.Fs.Storage.{Storage, new_storage, init}
use ipfs_share.Fs.Storage.Downloads.{Usable, tmp_file}
use ipfs_share.Fs.File.{grant_write_access, save_metadata, with_file, upload_diff, download}
use ipfs_share.Fs.File.Access.{
  grant_write_access_lem, access-Distinct, set_pending, pending_members, after_grant, after_revoke,
}
use ipfs_share.Fs.File.Upload.{HasOriginal, Working, upload_diff_lem}
use ipfs_share.Fs.File.Sync.{download-upload_diff}
use ipfs_share.Fs.Disk.Laws.{written}
use ipfs_share.Fs.File.Updating.{save_metadata_lem}
use ipfs_share.Fs.File.Chain.{download_breaks_at_second_node}
use ipfs_share.Tests.World.{world, world-IsExternal}
use ipfs_share.Tests.CryptoTests.{nonce24, nonce24-IsNonce}
use ipfs_share.Tests.StateTests.{disk1, meta1}

abbrev pub file1 : File
file1 = record {
  meta = meta1;
  pending_changes = some meta1;
  data_path = b'd' ∷ [];
  meta_path = b'm' ∷ [];
  orig_path = b'o' ∷ [];
}

granted_file :
    grant_write_access world file1 11 12 disk1
    ≡ with_file
        (set_pending file1 meta1 (11 ∷ 12 ∷ []))
        (save_metadata world (set_pending file1 meta1 (11 ∷ 12 ∷ [])) disk1)
granted_file = grant_write_access_lem world file1 meta1 11 12 disk1 refl

access-Distinct_example :
    Distinct (pending_members (after_grant world file1 11 12 disk1))
    × Distinct (pending_members (after_revoke world file1 11 12 disk1))
access-Distinct_example = access-Distinct world file1 meta1 11 12 disk1 refl (refl, tt)

abbrev file2 : File
file2 = set_pending file1 meta1 (11 ∷ 12 ∷ [])

granted1 : grant_write_access world file1 11 12 disk1 ≡ (
  ok tt,
  file2,
  written file2.meta_path (save_metadata_lem world world-IsExternal file2 disk1 refl refl).0 disk1,
)
granted1 =
    granted_file
    ∙ ap (with_file file2) (save_metadata_lem world world-IsExternal file2 disk1 refl refl).2

-- A disk on which nothing is forbidden, with the user's text and its original, and a file in the
-- directory of the group "g".
abbrev pub disk2 : Disk
disk2 = record {
  files =
      (b'd' ∷ [], 5 ∷ 6 ∷ []) ∷ (b'o' ∷ [], 5 ∷ []) ∷ (codes "/filetribe/u/g/f", 5 ∷ 6 ∷ []) ∷ [];
  denied = λ p. false;
  full = λ p. false;
}

pub usable : (p : Bytes) → Usable p disk2
usable p = record { creatable = refl; writable = refl }

abbrev pub storage1 : Storage
storage1 = init (b'u' ∷ []) (new_storage [])

pub has_original : HasOriginal (b'o' ∷ []) disk2 (some (5 ∷ []))
unfolding bytes_equal
has_original = record { found = refl; readable = refl }

pub has_text : HasOriginal (b'd' ∷ []) disk2 (some (5 ∷ 6 ∷ []))
unfolding bytes_equal
has_text = record { found = refl; readable = refl }

working : Working world file1 disk2 (some (5 ∷ [])) (5 ∷ 6 ∷ [])
working = record { base = has_original; changed = has_text }

abbrev pub new_key : Bytes
new_key = 3 ∷ 4 ∷ []

pub uploaded1 :
    (h : Bytes) × (upload_diff world file1 (some new_key) nonce24 disk2 ≡ (
      ok h,
      record file1 {
        pending_changes = some (record meta1 { data_key = record { key = new_key } });
      },
      disk2,
    ))
uploaded1 =
    upload_diff_lem world world-IsExternal file1 meta1 new_key nonce24 disk2 (some (5 ∷ []))
      (5 ∷ 6 ∷ []) refl nonce24-IsNonce working (λ c. (1 ∷ c, refl))

abbrev mine : Bytes → File
mine h = record file1 { meta = record meta1 { ipfs_hash = h; data_key = record { key = new_key } } }

download-upload_diff_example :
    (d3 : Disk) × (download world 1 (mine uploaded1.0) storage1 disk2 ≡ (ok tt, d3))
    × (lookup (b'd' ∷ []) d3.files ≡ some (5 ∷ 6 ∷ []))
    × (lookup (b'o' ∷ []) d3.files ≡ some (5 ∷ 6 ∷ []))
unfolding is_utf8
download-upload_diff_example =
    download-upload_diff world world-IsExternal 0 file1
      (record file1 {
        pending_changes = some (record meta1 { data_key = record { key = new_key } });
      })
      (mine uploaded1.0) meta1 new_key nonce24 uploaded1.0 disk2 disk2 disk2 (some (5 ∷ []))
      (5 ∷ 6 ∷ []) storage1 refl nonce24-IsNonce refl refl working uploaded1.1 refl refl
      has_original (usable (tmp_file uploaded1.0 storage1)) (usable (b'o' ∷ []))
      (usable (b'd' ∷ []))

-- A node that was sealed under another key.
abbrev old_node : Bytes
old_node = nonce24 ++ (nonce24 ++ nonce24)

old_node_stays_shut : open_file world.box (record { key = new_key }) old_node ≡ (failed, [])
unfolding open_file bytes_equal
old_node_stays_shut = refl

abbrev file3 : File
file3 = record file1 { meta = record meta1 { ipfs_hash = 1 ∷ old_node } }

working3 : Working world file3 disk2 (some (5 ∷ [])) (5 ∷ 6 ∷ [])
working3 = record { base = has_original; changed = has_text }

uploaded3 :
    (h : Bytes) × (upload_diff world file3 (some new_key) nonce24 disk2 ≡ (
      ok h,
      record file3 {
        pending_changes = some (record meta1 { data_key = record { key = new_key } });
      },
      disk2,
    ))
uploaded3 =
    upload_diff_lem world world-IsExternal file3 meta1 new_key nonce24 disk2 (some (5 ∷ []))
      (5 ∷ 6 ∷ []) refl nonce24-IsNonce working3 (λ c. (1 ∷ c, refl))

no_original : HasOriginal (b'o' ∷ []) disk1 none
unfolding bytes_equal
no_original = record { found = refl; readable = refl }

pub usable1 : (p : Bytes) → Usable p disk1
usable1 p = record { creatable = refl; writable = refl }

hashes_differ : (bytes_equal (1 ∷ old_node) [] ≡ false) × (bytes_equal (1 ∷ 5 ∷ []) [] ≡ false)
unfolding bytes_equal
hashes_differ = (refl, refl)

download_breaks_at_second_node_example :
    (d3 : Disk) × (download world 2 (mine uploaded3.0) storage1 disk1 ≡ (err not_decrypted, d3))
    × ((q : Bytes)
        → bytes_equal (tmp_file uploaded3.0 storage1) q ≡ false
        → bytes_equal (tmp_file (1 ∷ old_node) storage1) q ≡ false
        → lookup q d3.files ≡ lookup q disk1.files)
download_breaks_at_second_node_example =
    download_breaks_at_second_node world world-IsExternal 0 file3
      (record file3 {
        pending_changes = some (record meta1 { data_key = record { key = new_key } });
      })
      (mine uploaded3.0) meta1 new_key nonce24 uploaded3.0 old_node [] (5 ∷ 6 ∷ []) disk2 disk2
      disk1 (some (5 ∷ [])) none storage1 refl nonce24-IsNonce working3 uploaded3.1 refl refl
      hashes_differ.0 hashes_differ.1 refl old_node_stays_shut no_original
      (usable1 (tmp_file uploaded3.0 storage1)) (usable1 (tmp_file (1 ∷ old_node) storage1))

file1_file3 : bytes_equal [] (1 ∷ old_node) ≡ false
unfolding bytes_equal
file1_file3 = refl

-- The tag of the key 1 … 16, and a message.
abbrev key16 : FileBoxer
key16 = record { key = take 16 nonce24 }

abbrev sealed5 : Bytes
sealed5 = nonce24 ++ (take 16 nonce24 ++ 5 ∷ [])

sealed5_opens : open_file world.box key16 sealed5 ≡ (done tt, 5 ∷ [])
unfolding open_file bytes_equal
sealed5_opens = refl
