-- ===== src/Fs/File/Loading.antt =====
-- `LoadPTPFile` and `NewFileFromMeta` of client/fs/file.go, which nothing
-- calls yet.
use ipfs_share.Prelude.{◌≡◌, refl, ap, ◌∙◌, [], ◌++◌, Bytes, none, Result, ok, err, panic}
use ipfs_share.Fs.Disk.{Disk, FsError, Action, not_decoded, ◌>>=◌, require, read_file}
use ipfs_share.Fs.Disk.Laws.{bind_ok, written}
use ipfs_share.Fs.Meta.{FileMeta}
use ipfs_share.Fs.External.{External, IsExternal, File}
use ipfs_share.Fs.Storage.Downloads.{Usable, read_written}
use ipfs_share.Fs.File.{save_metadata}
use ipfs_share.Fs.File.Updating.{save_metadata_lem}

module _ (x : External) where
  pub load_ptp_file : Bytes → Action File
  load_ptp_file file_path = do
    bytes_file ← read_file file_path
    require (x.file_codec.unmarshal bytes_file) not_decoded

  abbrev kept_as : File → Result FsError (Unit {0}) × Disk → Result FsError File × Disk
  kept_as file (ok _, d) = (ok file, d)
  kept_as file (err e, d) = (err e, d)
  kept_as file (panic, d) = (panic, d)

  -- Without the goroutine of the download that it starts.
  pub new_file_from_meta : Bytes → Bytes → FileMeta → Disk → Result FsError File × Disk
  new_file_from_meta data_dir meta_dir meta d =
      let file : File = record {
        meta = meta;
        pending_changes = none;
        data_path = data_dir ++ meta.file_name;
        meta_path = meta_dir ++ meta.file_name;
        orig_path = [];
      } in
      kept_as file (save_metadata x file d)

  -- What `NewFileFromMeta` has saved is loaded by `LoadPTPFile` as it was.
  load_ptp_file-new_file_from_meta :
      (laws : IsExternal x) (data_dir meta_dir : Bytes) (meta : FileMeta) (d : Disk)
      → Usable (meta_dir ++ meta.file_name) d
      → (f : File) × (d' : Disk) × (new_file_from_meta data_dir meta_dir meta d ≡ (ok f, d'))
        × (f.meta ≡ meta)
        × (load_ptp_file (meta_dir ++ meta.file_name) d' ≡ (ok f, d'))
  unfolding new_file_from_meta load_ptp_file
  load_ptp_file-new_file_from_meta laws data_dir meta_dir meta d u =
      let path = meta_dir ++ meta.file_name in
      let file : File = record {
        meta = meta;
        pending_changes = none;
        data_path = data_dir ++ meta.file_name;
        meta_path = path;
        orig_path = [];
      } in
      let (bs, decodes, saves) = save_metadata_lem x laws file d u.creatable u.writable in
      (
        file,
        written path bs d,
        ap (kept_as file) saves,
        refl,
        bind_ok (read_file path) (λ c. require (x.file_codec.unmarshal c) not_decoded)
              (written path bs d) (read_written x path bs d u)
            ∙ ap (λ o. require o not_decoded (written path bs d)) decodes,
      )
