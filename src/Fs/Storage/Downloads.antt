-- ===== src/Fs/Storage/Downloads.antt =====
-- A download returns the decrypted contents and leaves no trace but at its temporary path.
use ipfs_share.Prelude.{
  ◌≡◌, refl, ap, ◌∙◌, [], ◌∷◌, ◌++◌, Bytes, bytes_equal, bytes_equal_refl, false, Option, none,
  some, ok, err, arith,
}
use ipfs_share.Crypto.FileBoxer.{FileBoxer, Outcome, done, failed, open_file}
use ipfs_share.Crypto.SymmetricKey.{SymmetricKey, box_open}
use ipfs_share.Fs.Disk.{
  Disk, ipfs_failed, not_encoded, not_decrypted, ◌>>=◌, ◌>>◌, pure, require, read_file,
  create_and_write_file, remove, lookup, without,
}
use ipfs_share.Fs.Disk.Laws.{
  bind_ok, bind_err, create_and_write_file_lem, read_file_lem, written, lookup-written,
  lookup-without,
}
use ipfs_share.Fs.External.{External, Codec, IsCodec}
use ipfs_share.Fs.Meta.{Address, GroupMeta}
use ipfs_share.Fs.Storage.{
  save_group_meta, meta_ext, Storage, fetch, download_tmp_file,
  download_and_decrypt_with_file_boxer, download_and_decrypt_with_symmetric_key, opened,
}

-- `d'` differs from `d` in the file `p` at most.
pub record Outside (p : Bytes) (d d' : Disk) : Type 0 where
  pub denied : d'.denied ≡ d.denied
  pub full : d'.full ≡ d.full
  pub others : (q : Bytes) → bytes_equal p q ≡ false → lookup q d'.files ≡ lookup q d.files

-- The system lets the program create, write and read `p`.
pub record Usable (p : Bytes) (d : Disk) : Type 0 where
  pub creatable : d.denied p ≡ false
  pub writable : d.full p ≡ false

-- The path of a download that `DownloadAndDecryptWithFileBoxer` makes.
abbrev pub tmp_file : Bytes → Storage → Bytes
tmp_file ipfs_hash s = s.tmp_path ++ (b'/' ∷ [] ++ ipfs_hash)

module _ (x : External) where
  fetch_lem :
      (h path c : Bytes) (d : Disk)
      → x.ipfs_get h ≡ some c
      → Usable path d
      → fetch x h path d ≡ (ok tt, written path c d)
  unfolding fetch
  fetch_lem h path c d e u =
      bind_ok (require (x.ipfs_get h) ipfs_failed) (create_and_write_file path) d
        (ap (λ (o : Option Bytes). require o ipfs_failed d) e)
      ∙ create_and_write_file_lem path c d u.creatable u.writable

  fetch_missing :
      (h path : Bytes) (d : Disk) → x.ipfs_get h ≡ none → fetch x h path d ≡ (err ipfs_failed, d)
  unfolding fetch
  fetch_missing h path d e =
      bind_err (require (x.ipfs_get h) ipfs_failed) (create_and_write_file path) d
        (ap (λ (o : Option Bytes). require o ipfs_failed d) e)

  -- The disk once the temporary file is removed again.
  abbrev pub removed : Bytes → Bytes → Disk → Disk
  removed p c d = record d { files = without p (written p c d).files }

  pub removed-Outside : (p c : Bytes) (d : Disk) → Outside p d (removed p c d)
  removed-Outside p c d = record {
    denied = refl;
    full = refl;
    others =
        λ q n. ground (arith, lookup-without p q (written p c d).files, lookup-written p c q d);
  }

  download_tmp_file_lem :
      (h c : Bytes) (s : Storage) (d : Disk)
      → x.ipfs_get h ≡ some c
      → Usable (tmp_file h s) d
      → download_tmp_file x h s d ≡ (ok (tmp_file h s), written (tmp_file h s) c d)
  unfolding download_tmp_file
  download_tmp_file_lem h c s d e u =
      bind_ok (fetch x h (tmp_file h s)) (λ _. pure (tmp_file h s)) d
        (fetch_lem h (tmp_file h s) c d e u)

  pub read_written :
      (p c : Bytes) (d : Disk) → Usable p d → read_file p (written p c d) ≡ (ok c, written p c d)
  read_written p c d u = read_file_lem p c (written p c d) u.creatable (rw (bytes_equal_refl p))

  -- The result of a download, by that of decrypting the file's contents.
  download_lem :
      (boxer : FileBoxer) (h c : Bytes) (s : Storage) (d : Disk)
      → x.ipfs_get h ≡ some c
      → Usable (tmp_file h s) d
      → download_and_decrypt_with_file_boxer x boxer h s d
        ≡ opened (tmp_file h s) (open_file x.box boxer c) (written (tmp_file h s) c d)
  unfolding download_and_decrypt_with_file_boxer
  download_lem boxer h c s d e u =
      bind_ok (download_tmp_file x h s)
        (λ p. do enc_data ← read_file p; opened p (open_file x.box boxer enc_data)) d
        (download_tmp_file_lem h c s d e u)
      ∙ bind_ok (read_file p) (λ enc_data. opened p (open_file x.box boxer enc_data))
          (written p c d) (read_written p c d u)
    where
      p : Bytes
      p = tmp_file h s

  -- A hash that IPFS does not serve fails the download and leaves the disk as it was.
  pub download_missing :
      (boxer : FileBoxer) (h : Bytes) (s : Storage) (d : Disk)
      → x.ipfs_get h ≡ none
      → download_and_decrypt_with_file_boxer x boxer h s d ≡ (err ipfs_failed, d)
  unfolding download_and_decrypt_with_file_boxer download_tmp_file
  download_missing boxer h s d e =
      bind_err (download_tmp_file x h s)
        (λ p. do enc_data ← read_file p; opened p (open_file x.box boxer enc_data)) d
        (bind_err (fetch x h p) (λ _. pure p) d (fetch_missing h p d e))
    where
      p : Bytes
      p = tmp_file h s

  -- Where IPFS serves contents that decrypt and the temporary file is usable, the download returns
  -- the plaintext and changes no file but the temporary one.
  pub download_decrypts :
      (boxer : FileBoxer) (h c m : Bytes) (s : Storage) (d : Disk)
      → x.ipfs_get h ≡ some c
      → open_file x.box boxer c ≡ (done tt, m)
      → Usable (tmp_file h s) d
      → (d' : Disk) × (download_and_decrypt_with_file_boxer x boxer h s d ≡ (ok m, d'))
        × Outside (tmp_file h s) d d'
  download_decrypts boxer h c m s d e o u = (
    removed (tmp_file h s) c d,
    download_lem boxer h c s d e u
        ∙ ap
            (λ (r : Outcome (Unit {0}) × Bytes).
              opened (tmp_file h s) r (written (tmp_file h s) c d))
            o,
    removed-Outside (tmp_file h s) c d,
  )

  -- Where IPFS serves contents that do not decrypt and the temporary file is usable, the download
  -- fails and changes no file but the temporary one.
  pub download_undecryptable :
      (boxer : FileBoxer) (h c m : Bytes) (s : Storage) (d : Disk)
      → x.ipfs_get h ≡ some c
      → open_file x.box boxer c ≡ (failed, m)
      → Usable (tmp_file h s) d
      → (d' : Disk) × (download_and_decrypt_with_file_boxer x boxer h s d ≡ (err not_decrypted, d'))
        × Outside (tmp_file h s) d d'
  download_undecryptable boxer h c m s d e o u = (
    removed (tmp_file h s) c d,
    download_lem boxer h c s d e u
        ∙ ap
            (λ (r : Outcome (Unit {0}) × Bytes).
              opened (tmp_file h s) r (written (tmp_file h s) c d))
            o,
    removed-Outside (tmp_file h s) c d,
  )

  -- The same for the contents of a symmetric key's box.
  pub download_symmetric :
      (boxer : SymmetricKey) (h c m : Bytes) (s : Storage) (d : Disk)
      → x.ipfs_get h ≡ some c
      → box_open x.box boxer c ≡ some m
      → Usable (s.tmp_path ++ h) d
      → (d' : Disk) × (download_and_decrypt_with_symmetric_key x boxer h s d ≡ (ok m, d'))
        × Outside (s.tmp_path ++ h) d d'
  unfolding download_and_decrypt_with_symmetric_key
  download_symmetric boxer h c m s d e o u = (
    removed p c d,
    bind_ok (fetch x h p)
          (λ _. do
            enc_data ← read_file p
            remove p
            require (box_open x.box boxer enc_data) not_decrypted)
          d (fetch_lem h p c d e u)
        ∙ bind_ok (read_file p)
            (λ enc_data. remove p >> require (box_open x.box boxer enc_data) not_decrypted)
            (written p c d) (read_written p c d u)
        ∙ ap (λ (r : Option Bytes). require r not_decrypted (removed p c d)) o,
    removed-Outside p c d,
  )
    where
      p : Bytes
      p = s.tmp_path ++ h

  abbrev pub group_meta_path : Storage → Address → Bytes
  group_meta_path s a = s.metas_ga_path ++ (x.address_string a ++ meta_ext)

  pub save_group_meta_lem :
      {c : Codec GroupMeta} (laws : IsCodec c) (m : GroupMeta) (s : Storage) (d : Disk)
      → Usable (group_meta_path s m.address) d
      → (bs : Bytes) × (c.unmarshal bs ≡ some m)
        × (save_group_meta x c m s d ≡ (ok tt, written (group_meta_path s m.address) bs d))
  unfolding save_group_meta
  save_group_meta_lem {c} laws m s d u =
      let (bs, marshals, unmarshals) = laws.round_trip m in
      (
        bs,
        unmarshals,
        bind_ok (require (c.marshal m) not_encoded)
              (create_and_write_file (group_meta_path s m.address)) d
              (ap (λ (o : Option Bytes). require o not_encoded d) marshals)
            ∙ create_and_write_file_lem (group_meta_path s m.address) bs d u.creatable u.writable,
      )
