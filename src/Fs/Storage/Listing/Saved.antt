-- ===== src/Fs/Storage/Listing/Saved.antt =====
-- What was saved in a directory is found when the directory is read again.
use mathlib.Core.List.{Memᴰ}
use ipfs_share.Prelude.{
  ◌≡◌, ◌≢◌, refl, sym, ap, subst, ◌∙◌, List, [], ◌∷◌, ◌++◌, Bytes, bytes_equal_refl, false, Option,
  none, some, Result, ok, contains, Bool-cases, inl, inr,
}
use ipfs_share.Fs.Disk.{Disk, FsError, lookup, read_file}
use ipfs_share.Fs.Disk.Laws.{read_file_lem, written}
use ipfs_share.Fs.Disk.Directory.{Entry, entries_of, read_dir, clean}
use ipfs_share.Fs.Disk.Directory.Reading.{file_entry, entries_of-Memᴰ}
use ipfs_share.Fs.Meta.{GroupMeta}
use ipfs_share.Fs.External.{External, Codec, IsCodec}
use ipfs_share.Fs.Storage.{Storage, slash, meta_ext, save_group_meta}
use ipfs_share.Fs.Storage.Downloads.{Usable, group_meta_path, save_group_meta_lem}
use ipfs_share.Fs.Storage.Listing.{decoded, add_meta, load_metas, get_group_metas}

-- A name of a file in the directory, whose path is taken as it is written.
pub record IsName (dir name : Bytes) : Type 0 where
  pub not_empty : name ≢ []
  pub no_slash : contains b'/' name ≡ false
  pub as_written : clean (dir ++ (slash ++ name)) ≡ dir ++ name

module _ {A : Type 0} (c : Codec A) where
  pub load_metas-Memᴰ :
      (dir name : Bytes) (a : A) (es : List Entry) (d : Disk)
      → decoded c (read_file (clean (dir ++ (slash ++ name))) d).0 ≡ some a
      → Memᴰ (file_entry name) es
      → Memᴰ a (load_metas c dir es d)
  unfolding load_metas
  load_metas-Memᴰ dir name a [] d h m = elim m [ ]
  load_metas-Memᴰ dir name a (e ∷ es) d h (Memᴰ.head same) = rw (← same, h) (Memᴰ.head refl)
  load_metas-Memᴰ dir name a (e ∷ es) d h (Memᴰ.tail t) = elim (Bool-cases e.is_dir) [
    | inl folder ↦ rw folder (load_metas-Memᴰ dir name a es d h t)
    | inr file ↦ rw file (
        kept (decoded c (read_file (clean (dir ++ (slash ++ e.name))) d).0)
          (load_metas-Memᴰ dir name a es d h t))
  ]
    where
      kept : {ms : List A} (o : Option A) → Memᴰ a ms → Memᴰ a (add_meta c o ms)
      kept none m = m
      kept (some b) m = Memᴰ.tail m

pub get_group_metas-Memᴰ :
    (c : Codec GroupMeta) (s : Storage) (name bs : Bytes) (m : GroupMeta) (d : Disk)
    → IsName s.metas_ga_path name
    → d.denied s.metas_ga_path ≡ false
    → d.denied (s.metas_ga_path ++ name) ≡ false
    → lookup (s.metas_ga_path ++ name) d.files ≡ some bs
    → c.unmarshal bs ≡ some m
    → (ms : List GroupMeta) × (get_group_metas c s d ≡ (ok ms, d)) × Memᴰ m ms
unfolding get_group_metas read_dir
get_group_metas-Memᴰ c s name bs m d i dir file found decodes = (
  load_metas c s.metas_ga_path (entries_of s.metas_ga_path d.files) d,
  rw dir refl,
  load_metas-Memᴰ c s.metas_ga_path name m (entries_of s.metas_ga_path d.files) d
      (rw i.as_written (
        ap (λ (r : Result FsError Bytes × Disk). decoded c r.0)
          (read_file_lem (s.metas_ga_path ++ name) bs d file found)
        ∙ decodes))
      (listed name i.not_empty i.no_slash found),
)
  where
    listed :
        (n : Bytes)
        → n ≢ []
        → contains b'/' n ≡ false
        → lookup (s.metas_ga_path ++ n) d.files ≡ some bs
        → Memᴰ (file_entry n) (entries_of s.metas_ga_path d.files)
    listed [] ne h e = absurd (ne refl)
    listed (n ∷ ns) ne h e = entries_of-Memᴰ s.metas_ga_path n ns bs d.files h e

-- A group meta that was saved is in the list that is loaded from the directory.
pub get_group_metas-save_group_meta :
    (x : External) (c : Codec GroupMeta) (laws : IsCodec c) (m : GroupMeta) (s : Storage)
    (d d' : Disk)
    → IsName s.metas_ga_path (x.address_string m.address ++ meta_ext)
    → d.denied s.metas_ga_path ≡ false
    → Usable (group_meta_path x s m.address) d
    → save_group_meta x c m s d ≡ (ok tt, d')
    → (ms : List GroupMeta) × (get_group_metas c s d' ≡ (ok ms, d')) × Memᴰ m ms
get_group_metas-save_group_meta x c laws m s d d' i dir u e =
    let (bs, decodes, saves) = save_group_meta_lem x laws m s d u in
    let same : written (group_meta_path x s m.address) bs d ≡ d' =
      ap (λ (r : Result FsError (Unit {0}) × Disk). r.1) (sym saves ∙ e) in
    subst (λ k. (ms : List GroupMeta) × (get_group_metas c s k ≡ (ok ms, k)) × Memᴰ m ms) same
      (get_group_metas-Memᴰ c s (x.address_string m.address ++ meta_ext) bs m
        (written (group_meta_path x s m.address) bs d) i dir u.creatable
        (rw (bytes_equal_refl (group_meta_path x s m.address))) decodes)
