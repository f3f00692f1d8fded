-- ===== src/Fs/File/Chain.antt =====
-- A download that has to go back over more than one node: the key that a node hands on is the
-- node's own, not the one of the node before it.
use ipfs_share.Prelude.{
  ℕ, suc, ◌≡◌, ap, ◌∙◌, List, [], ◌∷◌, Bytes, bytes_equal, false, Option, some, ok, err,
}
use ipfs_share.Crypto.FileBoxer.{FileBoxer, failed, open_file}
use ipfs_share.Crypto.FileBoxer.RoundTrip.{IsNonce}
use ipfs_share.Fs.Disk.{Disk, Action, not_decoded, not_decrypted, lookup, ◌>>=◌, require}
use ipfs_share.Fs.Disk.Laws.{bind_ok, bind_err}
use ipfs_share.Fs.Meta.{FileMeta}
use ipfs_share.Fs.External.{External, IsExternal, DiffNode, File}
use ipfs_share.Fs.Storage.{Storage, download_and_decrypt_with_file_boxer}
use ipfs_share.Fs.Storage.Downloads.{Usable, Outside, tmp_file, download_undecryptable}
use ipfs_share.Fs.File.{
  original, upload_diff, download_from, download_nodes, apply_patches, save_text, download,
}
use ipfs_share.Fs.File.Upload.{
  HasOriginal, text, digest, node_of, Served, Working, original_lem, upload_diff-Served,
}
use ipfs_share.Fs.File.Sync.{download_round, Usable-after}

module _ (x : External) where
  -- The loop goes on at a node that is neither a first one nor made over the original.
  download_from-continues :
      (n : DiffNode x.differ.Diffs) (orig_hash : Bytes) (stack : List x.differ.Diffs)
      (rest : Action (List x.differ.Diffs))
      → bytes_equal n.next [] ≡ false
      → bytes_equal n.hash orig_hash ≡ false
      → download_from x n orig_hash stack rest ≡ rest
  unfolding download_from
  download_from-continues n orig_hash stack rest e f = rw e (rw f)

  -- A round at contents that do not decrypt.
  download_nodes_fails :
      (fuel : ℕ) (boxer : FileBoxer) (h orig_hash c m : Bytes) (patches : List x.differ.Diffs)
      (s : Storage) (d : Disk)
      → x.ipfs_get h ≡ some c
      → open_file x.box boxer c ≡ (failed, m)
      → Usable (tmp_file h s) d
      → (d' : Disk) × (download_nodes x (suc fuel) boxer h orig_hash patches s d
          ≡ (err not_decrypted, d'))
        × Outside (tmp_file h s) d d'
  unfolding download_nodes
  download_nodes_fails fuel boxer h orig_hash c m patches s d e o u =
      let (d', failed_download, outside) = download_undecryptable x boxer h c m s d e o u in
      (
        d',
        bind_err (download_and_decrypt_with_file_boxer x boxer h s)
            (λ contents. require (x.node_codec.unmarshal contents) not_decoded >>= go) d
            failed_download,
        outside,
      )
    where
      go : DiffNode x.differ.Diffs → Action (List x.differ.Diffs)
      go node =
          download_from x node orig_hash (node.diff ∷ patches)
            (download_nodes x fuel node.next_boxer node.next orig_hash (node.diff ∷ patches) s)

  -- The same for a whole download that starts at a node over another original.
  download_fails :
      (fuel : ℕ) (f mine : File) (boxer : FileBoxer) (o mine_o : Option Bytes)
      (current old m : Bytes) (s : Storage) (d : Disk)
      → Served x mine.meta.data_key mine.meta.ipfs_hash (node_of x f boxer o current)
      → bytes_equal f.meta.ipfs_hash [] ≡ false
      → bytes_equal (digest x o) (digest x mine_o) ≡ false
      → x.ipfs_get f.meta.ipfs_hash ≡ some old
      → open_file x.box boxer old ≡ (failed, m)
      → HasOriginal mine.orig_path d mine_o
      → Usable (tmp_file mine.meta.ipfs_hash s) d
      → Usable (tmp_file f.meta.ipfs_hash s) d
      → (d' : Disk) × (download x (suc (suc fuel)) mine s d ≡ (err not_decrypted, d'))
        × ((q : Bytes)
            → bytes_equal (tmp_file mine.meta.ipfs_hash s) q ≡ false
            → bytes_equal (tmp_file f.meta.ipfs_hash s) q ≡ false
            → lookup q d'.files ≡ lookup q d.files)
  unfolding download
  download_fails fuel f mine boxer o mine_o current old m s d v later stale served sealed_off base
        tmp tmp' =
      let n = node_of x f boxer o current in
      let (d1, round, outside) =
        download_round x (suc fuel) mine.meta.data_key mine.meta.ipfs_hash (digest x mine_o) n [] s
          d v tmp in
      let (d2, failure, outside') =
        download_nodes_fails fuel boxer f.meta.ipfs_hash (digest x mine_o) old m (n.diff ∷ []) s d1
          served sealed_off (Usable-after x outside tmp') in
      (
        d2,
        bind_ok (original x mine.orig_path) go d (original_lem x mine.orig_path d mine_o base)
            ∙ bind_err
                (download_nodes x (suc (suc fuel)) mine.meta.data_key mine.meta.ipfs_hash
                  (digest x mine_o) [] s)
                (λ patches. save_text x mine (apply_patches x patches (text mine_o))) d
                (round
                  ∙ ap (λ (r : Action (List x.differ.Diffs)). r d1)
                      (download_from-continues n (digest x mine_o) (n.diff ∷ []) _ later stale)
                  ∙ failure),
        (λ q e e'. outside'.others q e' ∙ outside.others q e),
      )
    where
      go : Bytes × Bytes → Action (Unit {0})
      go r = do
        patches ← download_nodes x (suc (suc fuel)) mine.meta.data_key mine.meta.ipfs_hash r.1 [] s
        save_text x mine (apply_patches x patches r.0)

  -- Under the laws of the box, the codecs, the differ and IPFS: after a successful UploadDiff of a
  -- file with pending changes and an earlier hash, under a nonce of 24 bytes, a member whose
  -- metadata have the returned hash and the new key, and whose original is not the uploader's,
  -- opens the earlier node with the new key; where IPFS serves that node and it does not decrypt
  -- so, Download fails at any fuel of two or more and changes no file but temporary ones.
  pub download_breaks_at_second_node :
      (laws : IsExternal x) (fuel : ℕ) (f g mine : File) (p : FileMeta)
      (key nonce h old m current : Bytes) (d d1 d2 : Disk) (o mine_o : Option Bytes) (s : Storage)
      → f.pending_changes ≡ some p
      → IsNonce nonce
      → Working x f d o current
      → upload_diff x f (some key) nonce d ≡ (ok h, g, d1)
      → mine.meta.ipfs_hash ≡ h
      → mine.meta.data_key ≡ record { key = key }
      → bytes_equal f.meta.ipfs_hash [] ≡ false
      → bytes_equal (digest x o) (digest x mine_o) ≡ false
      → x.ipfs_get f.meta.ipfs_hash ≡ some old
      → open_file x.box (record { key = key }) old ≡ (failed, m)
      → HasOriginal mine.orig_path d2 mine_o
      → Usable (tmp_file mine.meta.ipfs_hash s) d2
      → Usable (tmp_file f.meta.ipfs_hash s) d2
      → (d3 : Disk) × (download x (suc (suc fuel)) mine s d2 ≡ (err not_decrypted, d3))
        × ((q : Bytes)
            → bytes_equal (tmp_file mine.meta.ipfs_hash s) q ≡ false
            → bytes_equal (tmp_file f.meta.ipfs_hash s) q ≡ false
            → lookup q d3.files ≡ lookup q d2.files)
  download_breaks_at_second_node laws fuel f g mine p key nonce h old m current d d1 d2 o mine_o s e
        i w up eh ek =
      download_fails fuel f mine (record { key = key }) o mine_o current old m s d2
        (rw (eh, ek) (upload_diff-Served x laws f g p key nonce h d d1 o current e i w up))
