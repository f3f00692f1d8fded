-- ===== src/Fs/File/Upload.antt =====
-- What an upload of client/fs/file.go reads from the disk and leaves on IPFS.
use ipfs_share.Prelude.{◌≡◌, ap, sym, ◌∙◌, [], Bytes, false, Option, none, some, Result, ok}
use ipfs_share.Crypto.FileBoxer.{FileBoxer, Outcome, done, seal, open_file}
use ipfs_share.Crypto.FileBoxer.RoundTrip.{IsNonce, open_file-seal}
use ipfs_share.Fs.Disk.{
  Disk, FsError, not_encoded, ipfs_failed, ◌>>=◌, pure, require, read_file, file_exists, lookup,
}
use ipfs_share.Fs.Disk.Laws.{bind_ok, read_file_lem}
use ipfs_share.Fs.Meta.{FileMeta}
use ipfs_share.Fs.External.{External, IsExternal, DiffNode, File, through_json}
use ipfs_share.Fs.File.{
  on_pending, with_file, original, diff, encrypt, sealed_node, upload_node, uploaded, upload_diff,
}

-- The original at a path: its text, or nothing where the file does not exist yet.
pub record HasOriginal (path : Bytes) (d : Disk) (o : Option Bytes) : Type 0 where
  pub found : lookup path d.files ≡ o
  pub readable : d.denied path ≡ false

abbrev pub text : Option Bytes → Bytes
text none = []
text (some t) = t

module _ (x : External) where
  abbrev pub digest : Option Bytes → Bytes
  digest none = []
  digest (some t) = x.keccak256 t

  pub original_lem :
      (path : Bytes) (d : Disk) (o : Option Bytes)
      → HasOriginal path d o
      → original x path d ≡ (ok (text o, digest o), d)
  unfolding original file_exists
  original_lem path d none h = rw (h.found, file_exists)
  original_lem path d (some t) h =
      rw (h.found, file_exists)
        (bind_ok (read_file path) (λ contents. pure (contents, x.keccak256 contents)) d
          (read_file_lem path t d h.readable h.found))

  -- The node that an upload makes, and what a download of it finds.
  abbrev made_of : File → FileBoxer → Option Bytes → Bytes → DiffNode x.differ.Diffs
  made_of f boxer o current = record {
    hash = digest o;
    diff = x.differ.diff_main (text o) current;
    next = f.meta.ipfs_hash;
    next_boxer = boxer;
  }

  abbrev pub node_of : File → FileBoxer → Option Bytes → Bytes → DiffNode x.differ.Diffs
  node_of f boxer o current = through_json x.differ (made_of f boxer o current)

  -- IPFS serves the node `n` under the hash `h`, sealed under the key of `boxer`.
  pub record Served (boxer : FileBoxer) (h : Bytes) (n : DiffNode x.differ.Diffs) : Type 0 where
    pub contents : Bytes
    pub encoded : Bytes
    pub served : x.ipfs_get h ≡ some contents
    pub opens : open_file x.box boxer contents ≡ (done tt, encoded)
    pub decodes : x.node_codec.unmarshal encoded ≡ some n

  -- What the uploader's disk holds.
  pub record Working (f : File) (d : Disk) (o : Option Bytes) (current : Bytes) : Type 0 where
    pub base : HasOriginal f.orig_path d o
    pub changed : HasOriginal f.data_path d (some current)

  diff_lem :
      (f : File) (boxer : FileBoxer) (d : Disk) (o : Option Bytes) (current : Bytes)
      → Working f d o current
      → diff x f boxer d ≡ (ok (made_of f boxer o current), d)
  unfolding diff
  diff_lem f boxer d o current w =
      bind_ok (original x f.orig_path)
        (λ r. do
          current_data ← read_file f.data_path
          pure (record {
            hash = r.1;
            diff = x.differ.diff_main r.0 current_data;
            next = f.meta.ipfs_hash;
            next_boxer = boxer;
          }))
        d (original_lem f.orig_path d o w.base)
      ∙ bind_ok (read_file f.data_path) (λ c. pure (made_of f boxer o c)) d
          (read_file_lem f.data_path current d w.changed.readable w.changed.found)

  module _ (laws : IsExternal x) where
    -- The ciphertext of a node.
    record Cipher (boxer : FileBoxer) (nonce : Bytes) (n : DiffNode x.differ.Diffs) : Type 0 where
      contents : Bytes
      encoded : Bytes
      encrypts : (d : Disk) → encrypt x n boxer nonce d ≡ (ok contents, d)
      opens : open_file x.box boxer contents ≡ (done tt, encoded)
      decodes : x.node_codec.unmarshal encoded ≡ some (through_json x.differ n)

    cipher :
        (boxer : FileBoxer) (nonce : Bytes) (n : DiffNode x.differ.Diffs)
        → IsNonce nonce
        → Cipher boxer nonce n
    unfolding encrypt
    cipher boxer nonce n i =
        let (bs, marshals, unmarshals) = laws.node_laws.round_trip n in
        let (c, seals, opens) = open_file-seal x.box laws.box_laws boxer nonce bs i in
        record {
          contents = c;
          encoded = bs;
          encrypts = λ d.
              ap
                (λ (e : Option Bytes).
                  (require e not_encoded >>= λ encoded.
                  sealed_node x (seal x.box boxer nonce encoded))
                    d)
                marshals
              ∙ ap (λ (e : Outcome Bytes). sealed_node x e d) seals;
          opens = opens;
          decodes = unmarshals;
        }

    upload_node_lem :
        (f : File) (boxer : FileBoxer) (nonce : Bytes) (d : Disk) (o : Option Bytes)
        (current : Bytes) (w : Working f d o current)
        (c : Cipher boxer nonce (made_of f boxer o current))
        → upload_node x f boxer nonce d ≡ require (x.ipfs_add c.contents) ipfs_failed d
    unfolding upload_node
    upload_node_lem f boxer nonce d o current w c =
        bind_ok (diff x f boxer)
          (λ n. do enc_data ← encrypt x n boxer nonce; require (x.ipfs_add enc_data) ipfs_failed) d
          (diff_lem f boxer d o current w)
        ∙ bind_ok (encrypt x (made_of f boxer o current) boxer nonce)
            (λ enc_data. require (x.ipfs_add enc_data) ipfs_failed) d (c.encrypts d)

    require_ok :
        (r : Option Bytes) (e : FsError) (d d' : Disk) (h : Bytes)
        → require r e d ≡ (ok h, d')
        → r ≡ some h
    require_ok none e d d' h q = cc
    require_ok (some a) e d d' h q = cc

    -- An upload that returns a hash has put the node there.
    upload_node-Served :
        (f : File) (boxer : FileBoxer) (nonce h : Bytes) (d d' : Disk) (o : Option Bytes)
        (current : Bytes)
        → IsNonce nonce
        → Working f d o current
        → upload_node x f boxer nonce d ≡ (ok h, d')
        → Served boxer h (node_of f boxer o current)
    upload_node-Served f boxer nonce h d d' o current i w e =
        let c = cipher boxer nonce (made_of f boxer o current) i in
        record {
          contents = c.contents;
          encoded = c.encoded;
          served = laws.found c.contents h (
              require_ok (x.ipfs_add c.contents) ipfs_failed d d' h
                (sym (upload_node_lem f boxer nonce d o current w c) ∙ e));
          opens = c.opens;
          decodes = c.decodes;
        }

    -- What a successful `UploadDiff` under a new key leaves on IPFS.
    pub upload_diff-Served :
        (f g : File) (p : FileMeta) (key nonce h : Bytes) (d d' : Disk) (o : Option Bytes)
        (current : Bytes)
        → f.pending_changes ≡ some p
        → IsNonce nonce
        → Working f d o current
        → upload_diff x f (some key) nonce d ≡ (ok h, g, d')
        → Served (record { key = key }) h (node_of f (record { key = key }) o current)
    unfolding upload_diff uploaded
    upload_diff-Served f g p key nonce h d d' o current e i w q =
        upload_node-Served (record f { pending_changes = some (record p { data_key = boxer }) })
          boxer nonce h d d' o current i (record { base = w.base; changed = w.changed })
          (result_of _ (sym at_pending ∙ q))
      where
        boxer : FileBoxer
        boxer = record { key = key }

        at_pending : upload_diff x f (some key) nonce d ≡ uploaded x f p boxer nonce d
        at_pending =
            ap (λ (c : Option FileMeta). on_pending c (λ r. uploaded x f r boxer nonce d) f d) e

        result_of :
            (r : Result FsError Bytes × Disk) {f' : File}
            → with_file f' r ≡ (ok h, g, d')
            → r ≡ (ok h, d')
        result_of r q' = cc

    -- Where IPFS takes what is added, `UploadDiff` under a new key of a file with pending changes and
    -- a readable text returns a hash, sets the pending key, and leaves the disk as it was.
    pub upload_diff_lem :
        (f : File) (p : FileMeta) (key nonce : Bytes) (d : Disk) (o : Option Bytes)
        (current : Bytes)
        → f.pending_changes ≡ some p
        → IsNonce nonce
        → Working f d o current
        → ((c : Bytes) → (h : Bytes) × (x.ipfs_add c ≡ some h))
        → let f' = record f {
          pending_changes = some (record p { data_key = record { key = key } });
        } in
          (h : Bytes) × (upload_diff x f (some key) nonce d ≡ (ok h, f', d))
    unfolding upload_diff uploaded
    upload_diff_lem f p key nonce d o current e i w adds =
        let boxer : FileBoxer = record { key = key } in
        let f' : File = record f { pending_changes = some (record p { data_key = boxer }) } in
        let c = cipher boxer nonce (made_of f' boxer o current) i in
        let (h, added) = adds c.contents in
        (
          h,
          ap (λ (q : Option FileMeta). on_pending q (λ r. uploaded x f r boxer nonce d) f d) e
              ∙ ap (with_file f') (
                  upload_node_lem f' boxer nonce d o current
                    (record { base = w.base; changed = w.changed }) c
                  ∙ ap (λ (r : Option Bytes). require r ipfs_failed d) added),
        )
