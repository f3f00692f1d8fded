-- ===== src/Fs/File/Updating.antt =====
-- `File.Update` on its branches, and a new file's first state.
use ipfs_share.Prelude.{
  ◌≡◌, refl, sym, ◌∙◌, ap, Bool, true, false, some, Bytes, bytes_equal, bytes_equal_iff,
  if◌then◌else◌, Result, ok, err, panic,
}
use ipfs_share.Fs.Disk.{Disk, FsError, ◌>>◌, require, not_encoded, create_and_write_file}
use ipfs_share.Fs.Disk.Laws.{bind_ok, bind_inv, written, create_and_write_file_lem}
use ipfs_share.Fs.Meta.{Address, FileMeta}
use ipfs_share.Fs.External.{External, IsExternal, File, Codec, IsCodec}
use ipfs_share.Fs.Storage.{Storage}
use ipfs_share.Fs.File.{update, taken_over, deepcopy, save_metadata, new_group_file_from_meta}

module _ (x : External) where
  -- Where the hash is as before, the file takes the metadata over, keeps its pending changes, and
  -- nothing is written.
  pub update_unchanged :
      (f : File) (m : FileMeta) (d : Disk)
      → f.meta.ipfs_hash ≡ m.ipfs_hash
      → update x f m d ≡ (ok false, record f { meta = m }, d)
  unfolding update
  update_unchanged f m d e = rw ((bytes_equal_iff f.meta.ipfs_hash m.ipfs_hash).1 e) refl

  pub deepcopy_lem :
      {c : Codec FileMeta} (laws : IsCodec c) (m : FileMeta) (d : Disk) → deepcopy c m d ≡ (ok m, d)
  unfolding deepcopy
  deepcopy_lem {c} laws m d =
      let (bs, marshalled, back) = laws.round_trip m in
      rw (marshalled, deepcopy) (rw (back, require))

  pub save_metadata_lem :
      (laws : IsExternal x) (f : File) (d : Disk)
      → d.denied f.meta_path ≡ false
      → d.full f.meta_path ≡ false
      → (bs : Bytes) × (x.file_codec.unmarshal bs ≡ some f)
        × (save_metadata x f d ≡ (ok tt, written f.meta_path bs d))
  unfolding save_metadata
  save_metadata_lem laws f d h k =
      let (bs, marshalled, back) = laws.file_laws.round_trip f in
      (
        bs,
        back,
        bind_ok (require (x.file_codec.marshal f) not_encoded) (create_and_write_file f.meta_path) d
              (ap (λ o. require o not_encoded d) marshalled)
            ∙ create_and_write_file_lem f.meta_path bs d h k,
      )

  -- Under the laws of the codecs: File.Update to metadata with another hash, where the metadata
  -- file can be written, takes them over as the file's metadata and pending changes, saves the
  -- file with the pending changes it had, and asks for a download.
  pub update_changed :
      (laws : IsExternal x) (f : File) (m : FileMeta) (d : Disk)
      → bytes_equal f.meta.ipfs_hash m.ipfs_hash ≡ false
      → d.denied f.meta_path ≡ false
      → d.full f.meta_path ≡ false
      → (bs : Bytes) × (x.file_codec.unmarshal bs ≡ some (record f { meta = m }))
        × (update x f m d
            ≡ (ok true, record f { meta = m; pending_changes = some m }, written f.meta_path bs d))
  unfolding update
  update_changed laws f m d e h k =
      let (bs, back, saves) = save_metadata_lem laws (record f { meta = m }) d h k in
      let f' = record f { meta = m } in
      let chain =
        bind_ok (save_metadata x f') (λ _. deepcopy x.meta_codec m) d saves
        ∙ deepcopy_lem laws.meta_laws m (written f.meta_path bs d) in
      (bs, back, rw e (ap (λ (r : Result FsError FileMeta × Disk). taken_over x f' r) chain))

  -- Whatever comes of an update, the file has the new metadata.
  pub update-meta : (f : File) (m : FileMeta) (d : Disk) → (update x f m d).1.meta ≡ m
  unfolding update
  update-meta f m d =
      branch (bytes_equal f.meta.ipfs_hash m.ipfs_hash)
        ((save_metadata x (record f { meta = m }) >> deepcopy x.meta_codec m) d)
    where
      branch :
          (b : Bool) (r : Result FsError FileMeta × Disk)
          → (if b
              then (ok false, record f { meta = m }, d)
              else taken_over x (record f { meta = m }) r).1.meta
            ≡ m
      branch true r = refl
      branch false (ok p, d') = refl
      branch false (err e, d') = refl
      branch false (panic, d') = refl

  pub new_group_file_from_meta-meta :
      (m : FileMeta) (group : Address) (name : Bytes) (s : Storage) (d d' : Disk) (f : File)
      → new_group_file_from_meta x m group name s d ≡ (ok f, d')
      → f.meta ≡ m
  unfolding new_group_file_from_meta
  new_group_file_from_meta-meta m group name s d d' f e =
      let (p, d1, copied, built) = bind_inv (deepcopy x.meta_codec m) _ d e in
      ap (λ (r : Result FsError File × Disk). meta_of r.0) (sym built)
    where
      meta_of : Result FsError File → FileMeta
      meta_of (ok g) = g.meta
      meta_of (err e) = m
      meta_of panic = m
