-- ===== src/Fs/Repo/Honest.antt =====
-- `IsValidChangeSet` on what an honest writer has uploaded.
use ipfs_share.Prelude.{
  ◌≡◌, refl, ◌∙◌, ap, List, [], ◌∷◌, Bool, true, false, Option, some, Bytes, bytes_equal,
  bytes_equal_refl, ok, contains, Bool-cases, inl, inr,
}
use ipfs_share.Crypto.FileBoxer.{FileBoxer}
use ipfs_share.Crypto.FileBoxer.RoundTrip.{IsNonce}
use ipfs_share.Crypto.SymmetricKey.{SymmetricKey}
use ipfs_share.Fs.Disk.{
  Disk, FsError, Action, not_decoded, no_write_access, wrong_next, wrong_prev_hash, ◌>>=◌, ◌>>◌,
  require, check, read_file,
}
use ipfs_share.Fs.Disk.Laws.{bind_ok, read_file_lem}
use ipfs_share.Fs.Meta.{Address, elements, FileMeta}
use ipfs_share.Fs.External.{External, IsExternal, DiffNode, File}
use ipfs_share.Fs.Storage.{Storage, download_and_decrypt_with_file_boxer}
use ipfs_share.Fs.Storage.Downloads.{Usable, Outside, tmp_file, download_decrypts}
use ipfs_share.Fs.File.{upload_diff}
use ipfs_share.Fs.File.Upload.{HasOriginal, Working, Served, node_of, upload_diff-Served}
use ipfs_share.Fs.Repo.{
  GroupRepo, get_file, get_group_file_metas_from_ipfs, is_diff_node_valid, check_file, check_known,
  check_list, check_meta, check_metas, is_valid_change_set,
}

module _ (x : External) (s : Storage) where
  pub original_after :
      (p q t : Bytes) (d d' : Disk)
      → Outside p d d'
      → bytes_equal p q ≡ false
      → HasOriginal q d (some t)
      → HasOriginal q d' (some t)
  original_after p q t d d' o n h = record {
    found = o.others q n ∙ h.found;
    readable = ap (λ (f : Bytes → Bool). f q) o.denied ∙ h.readable;
  }

  check_lem : (b : Bool) (e : FsError) (d : Disk) → b ≡ true → check b e d ≡ (ok tt, d)
  check_lem b e d h = ap (λ c. check c e d) h

  -- The node of an upload over the text that the validator has too.
  is_diff_node_valid_lem :
      (f mine : File) (boxer : FileBoxer) (h t current : Bytes) (d : Disk)
      → Served x boxer h (node_of x f boxer (some t) current)
      → f.meta.ipfs_hash ≡ mine.meta.ipfs_hash
      → HasOriginal mine.orig_path d (some t)
      → Usable (tmp_file h s) d
      → bytes_equal (tmp_file h s) mine.orig_path ≡ false
      → (d' : Disk) × (is_diff_node_valid x s mine boxer h d ≡ (ok tt, d'))
  unfolding is_diff_node_valid
  is_diff_node_valid_lem f mine boxer h t current d v same base tmp apart =
      let (d', downloaded, outside) =
        download_decrypts x boxer h v.contents v.encoded s d v.served v.opens tmp in
      let o = original_after (tmp_file h s) mine.orig_path t d d' outside apart base in
      (
        d',
        bind_ok (download_and_decrypt_with_file_boxer x boxer h s)
              (λ contents. require (x.node_codec.unmarshal contents) not_decoded >>= checks) d
              downloaded
            ∙ ap (λ (r : Option (DiffNode x.differ.Diffs)). (require r not_decoded >>= checks) d')
                v.decodes
            ∙ bind_ok (check (bytes_equal f.meta.ipfs_hash mine.meta.ipfs_hash) wrong_next)
                (λ _. read_file mine.orig_path >>= over n) d'
                (check_lem (bytes_equal f.meta.ipfs_hash mine.meta.ipfs_hash) wrong_next d'
                  (rw same (bytes_equal_refl mine.meta.ipfs_hash)))
            ∙ bind_ok (read_file mine.orig_path) (over n) d'
                (read_file_lem mine.orig_path t d' o.readable o.found)
            ∙ check_lem (bytes_equal (x.keccak256 t) (x.keccak256 t)) wrong_prev_hash d'
                (bytes_equal_refl (x.keccak256 t)),
      )
    where
      n : DiffNode x.differ.Diffs
      n = node_of x f boxer (some t) current

      over : DiffNode x.differ.Diffs → Bytes → Action (Unit {0})
      over node file_data = check (bytes_equal node.hash (x.keccak256 file_data)) wrong_prev_hash

      checks : DiffNode x.differ.Diffs → Action (Unit {0})
      checks node = do
        check (bytes_equal node.next mine.meta.ipfs_hash) wrong_next
        read_file mine.orig_path >>= over node

  check_file_honest :
      (mine : File) (m : FileMeta) (address : Address) (d d' : Disk)
      → contains address (elements mine.meta.write_access_list) ≡ true
      → is_diff_node_valid x s mine m.data_key m.ipfs_hash d ≡ (ok tt, d')
      → (d'' : Disk) × (check_file x s mine m address d ≡ (ok tt, d''))
  unfolding check_file
  check_file_honest mine m address d d' member valid =
      elim (Bool-cases (bytes_equal mine.meta.ipfs_hash m.ipfs_hash)) [
        | inl same ↦ (d, rw same refl)
        | inr differs ↦ (
          d',
          rw differs (
              bind_ok
                (check (contains address (elements mine.meta.write_access_list)) no_write_access)
                (λ _. is_diff_node_valid x s mine m.data_key m.ipfs_hash) d
                (check_lem (contains address (elements mine.meta.write_access_list)) no_write_access
                  d member)
              ∙ valid),
        )
      ]

  -- Under the laws of the box, the codecs, the differ and IPFS: IsValidChangeSet accepts a change
  -- set of one entry whose hash and key are those of a successful UploadDiff, under a nonce of 24
  -- bytes, of a file with pending changes and a readable text, if the change set loads, the entry
  -- has an access list, the validator has a file of that name with the uploader's hash and
  -- original, the account is in the validator's access list, and the temporary file of the
  -- download is usable and not the original.
  pub is_valid_change_set_honest :
      (laws : IsExternal x) (f g mine : File) (p m : FileMeta) (l : List Address)
      (key nonce t current hash : Bytes) (boxer : SymmetricKey) (repo : GroupRepo)
      (address : Address) (d d1 d2 d3 : Disk)
      → f.pending_changes ≡ some p
      → IsNonce nonce
      → Working x f d (some t) current
      → upload_diff x f (some key) nonce d ≡ (ok m.ipfs_hash, g, d1)
      → m.data_key ≡ record { key = key }
      → m.write_access_list ≡ some l
      → get_group_file_metas_from_ipfs x s hash boxer d2 ≡ (ok (some m ∷ []), d3)
      → get_file m.file_name repo ≡ some mine
      → f.meta.ipfs_hash ≡ mine.meta.ipfs_hash
      → contains address (elements mine.meta.write_access_list) ≡ true
      → HasOriginal mine.orig_path d3 (some t)
      → Usable (tmp_file m.ipfs_hash s) d3
      → bytes_equal (tmp_file m.ipfs_hash s) mine.orig_path ≡ false
      → (d' : Disk) × (is_valid_change_set x s repo hash boxer address d2 ≡ (ok tt, d'))
  unfolding is_valid_change_set check_metas check_meta
  is_valid_change_set_honest laws f g mine p m l key nonce t current hash boxer repo address d d1 d2
        d3 e i w up ek is_list loaded found same member base tmp apart =
      let v =
        upload_diff-Served x laws f g p key nonce m.ipfs_hash d d1 (some t) current e i w up in
      let (d4, valid) =
        is_diff_node_valid_lem f mine (record { key = key }) m.ipfs_hash t current d3 v same base
          tmp apart in
      let (d5, checked) =
        check_file_honest mine m address d3 d4 member
          (ap (λ (k : FileBoxer). is_diff_node_valid x s mine k m.ipfs_hash d3) ek ∙ valid) in
      (
        d5,
        bind_ok (get_group_file_metas_from_ipfs x s hash boxer) (check_metas x s repo address) d2
              loaded
            ∙ bind_ok (check_meta x s repo address (some m)) (λ _. check_metas x s repo address [])
                d3
                (ap
                    (λ o.
                      check_list x s o (check_known x s (get_file m.file_name repo) m address) d3)
                    is_list
                  ∙ ap (λ o. check_known x s o m address d3) found
                  ∙ checked),
      )
