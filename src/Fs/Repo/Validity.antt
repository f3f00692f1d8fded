-- ===== src/Fs/Repo/Validity.antt =====
-- What a change set that passes `IsValidChangeSet` satisfies.
use ipfs_share.Prelude.{
  subst, ◌≡◌, ◌≢◌, refl, sym, ◌∙◌, ap, ◌⊎◌, inl, inr, List, [], ◌∷◌, true, false, Option, none,
  some, Bytes, bytes_equal, bytes_equal_eq, Result, ok, contains, All, Bool-cases,
}
use ipfs_share.Crypto.FileBoxer.{done, open_file}
use ipfs_share.Crypto.SymmetricKey.{SymmetricKey}
use ipfs_share.Fs.Disk.{
  Disk, FsError, not_decoded, no_write_access, wrong_next, wrong_prev_hash, ◌>>=◌, require, check,
  read_file, lookup,
}
use ipfs_share.Fs.Disk.Laws.{bind_inv, check_inv, require_inv}
use ipfs_share.Fs.Meta.{Address, Slice, elements, FileMeta}
use ipfs_share.Fs.External.{External, DiffNode, File}
use ipfs_share.Fs.Storage.{
  Storage, download_and_decrypt_with_file_boxer, download_and_decrypt_with_symmetric_key,
}
use ipfs_share.Fs.Storage.Kept.{
  IsApart, Kept, Kept-trans, read_file_inv, download_inv, symmetric_inv,
}
use ipfs_share.Fs.Repo.{
  GroupRepo, get_file, get_group_file_metas_from_ipfs, is_diff_node_valid, check_file, check_known,
  check_list, check_meta, check_metas, is_valid_change_set,
}

-- The originals of a repository do not stand below the path of temporary files.
abbrev pub ApartFiles : Storage → GroupRepo → Type 0
ApartFiles s repo = (name : Bytes) (f : File) → get_file name repo ≡ some f → IsApart s f.orig_path

module _ (x : External) (s : Storage) (d : Disk) where
  -- What IPFS serves as `m` decrypts under the key of `m` to a node that follows the current node of
  -- `f` and was made over the text that the original of `f` has on the disk `d`.
  pub record Extends (f : File) (m : FileMeta) : Type 0 where
    pub node : DiffNode x.differ.Diffs
    pub sealed : Bytes
    pub contents : Bytes
    pub original : Bytes
    pub served : x.ipfs_get m.ipfs_hash ≡ some sealed
    pub opens : open_file x.box m.data_key sealed ≡ (done tt, contents)
    pub decoded : x.node_codec.unmarshal contents ≡ some node
    pub follows : node.next ≡ f.meta.ipfs_hash
    pub held : lookup f.orig_path d.files ≡ some original
    pub over : node.hash ≡ x.keccak256 original

  -- `address` may change `f` to `m`: the hash is the same, or the account stands in the access list
  -- that the repository has and the new node extends the file.
  abbrev pub MayChange : Address → File → FileMeta → Type 0
  MayChange address f m =
      (f.meta.ipfs_hash ≡ m.ipfs_hash)
      ⊎ ((contains address (elements f.meta.write_access_list) ≡ true) × Extends f m)

  -- A permitted entry is there, has an access list, and is new or may be changed.
  abbrev pub Permitted : GroupRepo → Address → Option FileMeta → Type 0
  Permitted repo address none = ⊥
  Permitted repo address (some m) =
      (m.write_access_list ≢ none)
      × ((get_file m.file_name repo ≡ none)
          ⊎ ((f : File) × (get_file m.file_name repo ≡ some f) × MayChange address f m))

  is_diff_node_valid-Extends :
      (f : File) (m : FileMeta) (d1 d' : Disk)
      → IsApart s f.orig_path
      → Kept s d d1
      → is_diff_node_valid x s f m.data_key m.ipfs_hash d1 ≡ (ok tt, d')
      → Extends f m × Kept s d d'
  unfolding is_diff_node_valid
  is_diff_node_valid-Extends f m d1 d' apart kept e =
      let (contents, d2, downloaded, e2) =
        bind_inv (download_and_decrypt_with_file_boxer x m.data_key m.ipfs_hash s) _ d1 e in
      let (node, d3, decoded, e3) =
        bind_inv (require (x.node_codec.unmarshal contents) not_decoded) _ d2 e2 in
      let (_, d4, next, e4) =
        bind_inv (check (bytes_equal node.next f.meta.ipfs_hash) wrong_next) _ d3 e3 in
      let (text, d5, reads, e5) = bind_inv (read_file f.orig_path) _ d4 e4 in
      let (sealed, served, opens, kept') =
        download_inv x s m.data_key m.ipfs_hash contents d1 d2 downloaded in
      let (node_eq, d3_eq) = require_inv (x.node_codec.unmarshal contents) not_decoded decoded in
      let (next_eq, d4_eq) = check_inv (bytes_equal node.next f.meta.ipfs_hash) wrong_next next in
      let (holds, d5_eq) = read_file_inv f.orig_path text d4 d5 reads in
      let (hash_eq, d'_eq) =
        check_inv (bytes_equal node.hash (x.keccak256 text)) wrong_prev_hash e5 in
      let kept2 : Kept s d d2 = Kept-trans s d d1 d2 kept kept' in
      (
        record {
          node = node;
          sealed = sealed;
          contents = contents;
          original = text;
          served = served;
          opens = opens;
          decoded = node_eq;
          follows = bytes_equal_eq node.next f.meta.ipfs_hash next_eq;
          held =
              sym (kept2 f.orig_path apart)
              ∙ ap (λ (t : Disk). lookup f.orig_path t.files) (sym (d4_eq ∙ d3_eq))
              ∙ holds;
          over = bytes_equal_eq node.hash (x.keccak256 text) hash_eq;
        },
        subst (Kept s d) (sym (d'_eq ∙ d5_eq ∙ d4_eq ∙ d3_eq)) kept2,
      )

  check_file-MayChange :
      (f : File) (m : FileMeta) (address : Address) (d1 d' : Disk)
      → IsApart s f.orig_path
      → Kept s d d1
      → check_file x s f m address d1 ≡ (ok tt, d')
      → MayChange address f m × Kept s d d'
  unfolding check_file
  check_file-MayChange f m address d1 d' apart kept e =
      elim (Bool-cases (bytes_equal f.meta.ipfs_hash m.ipfs_hash)) [
        | inl same ↦ (
          inl (bytes_equal_eq f.meta.ipfs_hash m.ipfs_hash same),
          subst (Kept s d) (same_disk (sym (at_then same) ∙ e)) kept,
        )
        | inr differs ↦
            let (_, d2, member, e2) =
              bind_inv
                (check (contains address (elements f.meta.write_access_list)) no_write_access)
                (λ _. is_diff_node_valid x s f m.data_key m.ipfs_hash) d1
                (sym (at_else differs) ∙ e) in
            let (is_member, d2_eq) =
              check_inv (contains address (elements f.meta.write_access_list)) no_write_access
                member in
            let (extends, kept') =
              is_diff_node_valid-Extends f m d2 d' apart (subst (Kept s d) (sym d2_eq) kept) e2 in
            (inr (is_member, extends), kept')
      ]
    where
      same_disk : ◌≡◌ {A = Result FsError (Unit {0}) × Disk} (ok tt, d1) (ok tt, d') → d1 ≡ d'
      same_disk q = cc

      at_then :
          bytes_equal f.meta.ipfs_hash m.ipfs_hash ≡ true
          → check_file x s f m address d1 ≡ (ok tt, d1)
      at_then h = rw h refl

      at_else :
          bytes_equal f.meta.ipfs_hash m.ipfs_hash ≡ false
          → check_file x s f m address d1
            ≡ (check (contains address (elements f.meta.write_access_list)) no_write_access >>= λ _.
                  is_diff_node_valid x s f m.data_key m.ipfs_hash)
                d1
      at_else h = rw h refl

  loading-Kept :
      (hash : Bytes) (boxer : SymmetricKey) (metas : List (Option FileMeta)) (d1 : Disk)
      → get_group_file_metas_from_ipfs x s hash boxer d ≡ (ok metas, d1)
      → Kept s d d1
  unfolding get_group_file_metas_from_ipfs
  loading-Kept hash boxer metas d1 loaded =
      let (contents, d2, downloaded, e2) =
        bind_inv (download_and_decrypt_with_symmetric_key x boxer hash s) _ d loaded in
      let (ms, d3, decoded, e3) =
        bind_inv (require (x.metas_codec.unmarshal contents) not_decoded) _ d2 e2 in
      let (_, d3_eq) = require_inv (x.metas_codec.unmarshal contents) not_decoded decoded in
      let last : d3 ≡ d1 = cc in
      subst (Kept s d) (sym d3_eq ∙ last) (symmetric_inv x s boxer hash contents d d2 downloaded)

  module _ (repo : GroupRepo) (apart : ApartFiles s repo) (address : Address) where
    check_meta-Permitted :
        (m : Option FileMeta) (d1 d' : Disk)
        → Kept s d d1
        → check_meta x s repo address m d1 ≡ (ok tt, d')
        → Permitted repo address m × Kept s d d'
    unfolding check_meta
    check_meta-Permitted none d1 d' kept e = cc
    check_meta-Permitted (some m) d1 d' kept e = with_list m.write_access_list refl e
      where
        known :
            (found : Option File)
            → get_file m.file_name repo ≡ found
            → check_known x s found m address d1 ≡ (ok tt, d')
            → ((get_file m.file_name repo ≡ none)
                ⊎ ((f : File) × (get_file m.file_name repo ≡ some f) × MayChange address f m))
              × Kept s d d'
        known none is q = let same : d1 ≡ d' = cc in (inl is, subst (Kept s d) same kept)
        known (some f) is q =
            let (may, kept') =
              check_file-MayChange f m address d1 d' (apart m.file_name f is) kept q in
            (inr (f, is, may), kept')

        with_list :
            (list : Slice Address)
            → m.write_access_list ≡ list
            → check_list x s list (check_known x s (get_file m.file_name repo) m address) d1
              ≡ (ok tt, d')
            → Permitted repo address (some m) × Kept s d d'
        with_list none _ q = cc
        with_list (some l) is q =
            let (permitted, kept') = known (get_file m.file_name repo) refl q in
            (((λ nil. cc), permitted), kept')

    check_metas-Permitted :
        (ms : List (Option FileMeta)) (d1 d' : Disk)
        → Kept s d d1
        → check_metas x s repo address ms d1 ≡ (ok tt, d')
        → All (Permitted repo address) ms
    unfolding check_metas
    check_metas-Permitted [] d1 d' kept e = tt
    check_metas-Permitted (m ∷ ms) d1 d' kept e =
        let (_, d2, first, rest) =
          bind_inv (check_meta x s repo address m) (λ _. check_metas x s repo address ms) d1 e in
        let (permitted, kept') = check_meta-Permitted m d1 d2 kept first in
        (permitted, check_metas-Permitted ms d2 d' kept' rest)

    -- A change set that IsValidChangeSet accepts for an account, in a repository whose originals
    -- are not below the path of temporary files, decrypts under the key given, has no nil entry
    -- and no nil access list, and each entry is for a new file, or keeps the hash of its file, or
    -- is by an account in the access list that the repository has, with a node that IPFS serves
    -- and that decrypts, follows the current hash and was made over the text that the disk has as
    -- the original of the file when the check starts.
    pub is_valid_change_set-Permitted :
        (hash : Bytes) (boxer : SymmetricKey) (d' : Disk)
        → is_valid_change_set x s repo hash boxer address d ≡ (ok tt, d')
        → (metas : List (Option FileMeta)) × (d1 : Disk) × (get_group_file_metas_from_ipfs x s hash
              boxer d
            ≡ (ok metas, d1))
          × All (Permitted repo address) metas
    unfolding is_valid_change_set
    is_valid_change_set-Permitted hash boxer d' e =
        let (metas, d1, loaded, checked) =
          bind_inv (get_group_file_metas_from_ipfs x s hash boxer) (check_metas x s repo address) d
            e in
        (
          metas,
          d1,
          loaded,
          check_metas-Permitted metas d1 d' (loading-Kept hash boxer metas d1 loaded) checked,
        )
