-- ===== src/Fs/File/Sync.antt =====
-- One upload and the download that follows it: a member whose original is the uploader's gets the
-- uploader's text.
use ipfs_share.Prelude.{
  is_utf8, true, ℕ, suc, ◌≡◌, refl, ap, sym, ◌∙◌, List, [], ◌∷◌, Bytes, bytes_equal,
  bytes_equal_refl, Bool, Option, some, if◌then◌else◌, ok, arith, Bool-cases, inl, inr,
}
use ipfs_share.Crypto.FileBoxer.{FileBoxer}
use ipfs_share.Crypto.FileBoxer.RoundTrip.{IsNonce}
use ipfs_share.Fs.Disk.{
  Disk, Action, not_decoded, ◌>>=◌, pure, require, create_and_write_file, lookup,
}
use ipfs_share.Fs.Disk.Laws.{bind_ok, create_and_write_file_lem, written}
use ipfs_share.Fs.Meta.{FileMeta}
use ipfs_share.Fs.External.{External, IsExternal, DiffNode, File}
use ipfs_share.Fs.Storage.{Storage, download_and_decrypt_with_file_boxer}
use ipfs_share.Fs.Storage.Downloads.{Usable, Outside, tmp_file, download_decrypts}
use ipfs_share.Fs.File.{
  original, upload_diff, download_from, download_nodes, apply_patches, save_text, download, logged,
}
use ipfs_share.Fs.File.Upload.{
  HasOriginal, text, digest, original_lem, node_of, Served, Working, upload_diff-Served,
}

module _ (x : External) where
  -- One round of the first loop of `Download`.
  pub download_round :
      (fuel : ℕ) (boxer : FileBoxer) (h orig_hash : Bytes) (n : DiffNode x.differ.Diffs)
      (patches : List x.differ.Diffs) (s : Storage) (d : Disk)
      → Served x boxer h n
      → Usable (tmp_file h s) d
      → let stack = n.diff ∷ patches in
        (d' : Disk) × (download_nodes x (suc fuel) boxer h orig_hash patches s d
          ≡ download_from x n orig_hash stack
              (download_nodes x fuel n.next_boxer n.next orig_hash stack s)
              d')
        × Outside (tmp_file h s) d d'
  unfolding download_nodes
  download_round fuel boxer h orig_hash n patches s d v u =
      let (d', e, o) = download_decrypts x boxer h v.contents v.encoded s d v.served v.opens u in
      (
        d',
        bind_ok (download_and_decrypt_with_file_boxer x boxer h s)
              (λ contents. require (x.node_codec.unmarshal contents) not_decoded >>= go) d e
            ∙ ap (λ (m : Option (DiffNode x.differ.Diffs)). (require m not_decoded >>= go) d')
                v.decodes,
        o,
      )
    where
      go : DiffNode x.differ.Diffs → Action (List x.differ.Diffs)
      go node =
          download_from x node orig_hash (node.diff ∷ patches)
            (download_nodes x fuel node.next_boxer node.next orig_hash (node.diff ∷ patches) s)

  -- The loop ends at a node whose previous state is the original, and at a first node.
  download_from-stops :
      (n : DiffNode x.differ.Diffs) (orig_hash : Bytes) (stack : List x.differ.Diffs)
      (rest : Action (List x.differ.Diffs))
      → n.hash ≡ orig_hash
      → download_from x n orig_hash stack rest ≡ pure stack
  unfolding download_from
  download_from-stops n orig_hash stack rest e = elim (Bool-cases (bytes_equal n.next [])) [
    | inl first ↦ rw first
    | inr later ↦ rw later (
        ap (λ (b : Bool). if◌then◌else◌ {A = Action (List x.differ.Diffs)} b (pure stack) rest)
          (ap (λ (t : Bytes). bytes_equal n.hash t) (sym e) ∙ bytes_equal_refl n.hash))
  ]

  -- Both copies of the text are written, the original first.
  save_text_lem :
      (f : File) (t : Bytes) (d : Disk)
      → Usable f.orig_path d
      → Usable f.data_path d
      → save_text x f t d ≡ (ok tt, written f.data_path t (written f.orig_path t d))
  unfolding save_text
  save_text_lem f t d o u =
      bind_ok (λ e. logged (create_and_write_file f.orig_path t e))
        (λ _ e. logged (create_and_write_file f.data_path t e)) d
        (ap logged (create_and_write_file_lem f.orig_path t d o.creatable o.writable))
      ∙ ap logged
          (create_and_write_file_lem f.data_path t (written f.orig_path t d) u.creatable u.writable)

  saved_text :
      (f : File) (t : Bytes) (d : Disk)
      → let d' = written f.data_path t (written f.orig_path t d) in
        (lookup f.data_path d'.files ≡ some t) × (lookup f.orig_path d'.files ≡ some t)
  saved_text f t d =
      (rw (bytes_equal_refl f.data_path), ground (arith, bytes_equal_refl f.orig_path))

  pub Usable-after : {p q : Bytes} {d d' : Disk} → Outside p d d' → Usable q d → Usable q d'
  Usable-after {q = q} o u = record {
    creatable = ap (λ (f : Bytes → Bool). f q) o.denied ∙ u.creatable;
    writable = ap (λ (f : Bytes → Bool). f q) o.full ∙ u.writable;
  }

  -- A download of a node that was made over the member's own original.
  download-Served :
      (fuel : ℕ) (f mine : File) (boxer : FileBoxer) (o : Option Bytes) (current : Bytes)
      (s : Storage) (d : Disk)
      → IsExternal x
      → Served x mine.meta.data_key mine.meta.ipfs_hash (node_of x f boxer o current)
      → HasOriginal mine.orig_path d o
      → Usable (tmp_file mine.meta.ipfs_hash s) d
      → Usable mine.orig_path d
      → Usable mine.data_path d
      → is_utf8 (text o) ≡ true
      → is_utf8 current ≡ true
      → (d' : Disk) × (download x (suc fuel) mine s d ≡ (ok tt, d'))
        × (lookup mine.data_path d'.files ≡ some current)
        × (lookup mine.orig_path d'.files ≡ some current)
  unfolding download apply_patches
  download-Served fuel f mine boxer o current s d laws v base tmp orig copy u8 u8' =
      let n = node_of x f boxer o current in
      let (d1, round, outside) =
        download_round fuel mine.meta.data_key mine.meta.ipfs_hash (digest x o) n [] s d v tmp in
      let saved = saved_text mine current d1 in
      (
        written mine.data_path current (written mine.orig_path current d1),
        bind_ok (original x mine.orig_path) go d (original_lem x mine.orig_path d o base)
            ∙ bind_ok
                (download_nodes x (suc fuel) mine.meta.data_key mine.meta.ipfs_hash (digest x o) []
                  s)
                (λ patches. save_text x mine (apply_patches x patches (text o))) d
                (round
                  ∙ ap (λ (m : Action (List x.differ.Diffs)). m d1)
                      (download_from-stops n (digest x o) (n.diff ∷ []) _ refl))
            ∙ ap (λ (t : Bytes). save_text x mine t d1)
                (laws.differ_laws.patches (text o) current u8 u8')
            ∙ save_text_lem mine current d1 (Usable-after outside orig) (Usable-after outside copy),
        saved.0,
        saved.1,
      )
    where
      go : Bytes × Bytes → Action (Unit {0})
      go r = do
        patches ← download_nodes x (suc fuel) mine.meta.data_key mine.meta.ipfs_hash r.1 [] s
        save_text x mine (apply_patches x patches r.0)

  -- Under the laws of the box, the codecs, the differ and IPFS: after a successful UploadDiff of a
  -- file with pending changes a readable text and a readable original or none, both in valid
  -- UTF-8, under a nonce of 24 bytes, a member whose metadata have the returned hash and the new
  -- key, whose original is the uploader's, and who can write its files, downloads in one round:
  -- Download ends without an error and leaves the uploader's text in the data file and in the
  -- original.
  pub download-upload_diff :
      (laws : IsExternal x) (fuel : ℕ) (f g mine : File) (p : FileMeta) (key nonce h : Bytes)
      (d d1 d2 : Disk) (o : Option Bytes) (current : Bytes) (s : Storage)
      → f.pending_changes ≡ some p
      → IsNonce nonce
      → is_utf8 (text o) ≡ true
      → is_utf8 current ≡ true
      → Working x f d o current
      → upload_diff x f (some key) nonce d ≡ (ok h, g, d1)
      → mine.meta.ipfs_hash ≡ h
      → mine.meta.data_key ≡ record { key = key }
      → HasOriginal mine.orig_path d2 o
      → Usable (tmp_file mine.meta.ipfs_hash s) d2
      → Usable mine.orig_path d2
      → Usable mine.data_path d2
      → (d3 : Disk) × (download x (suc fuel) mine s d2 ≡ (ok tt, d3))
        × (lookup mine.data_path d3.files ≡ some current)
        × (lookup mine.orig_path d3.files ≡ some current)
  download-upload_diff laws fuel f g mine p key nonce h d d1 d2 o current s e i u8 u8' w up eh ek
        base tmp orig copy =
      download-Served fuel f mine (record { key = key }) o current s d2 laws
        (rw (eh, ek) (upload_diff-Served x laws f g p key nonce h d d1 o current e i w up)) base tmp
        orig copy u8 u8'
