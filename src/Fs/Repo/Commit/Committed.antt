-- ===== src/Fs/Repo/Commit/Committed.antt =====
-- What `CommitChanges` has committed is what others load.
use ipfs_share.Prelude.{
  ◌≡◌, refl, ◌∙◌, ap, List, [], ◌∷◌, ◌++◌, Bytes, false, Option, some, Result, ok, err, panic,
  length,
}
use ipfs_share.Crypto.SymmetricKey.{SymmetricKey, box_seal}
use ipfs_share.Group.{Group}
use ipfs_share.Fs.Disk.{Disk, FsError, not_encoded, ipfs_failed, ◌>>=◌, require}
use ipfs_share.Fs.Disk.Laws.{require_inv, bind_inv, written}
use ipfs_share.Fs.Meta.{FileMeta}
use ipfs_share.Fs.External.{External, IsExternal, File}
use ipfs_share.Fs.Storage.{Storage, group_file_data_dir}
use ipfs_share.Fs.Disk.Directory.{Entry, read_dir}
use ipfs_share.Fs.Storage.Downloads.{Usable, Outside}
use ipfs_share.Fs.File
use ipfs_share.Fs.File.Updating.{save_metadata_lem}
use ipfs_share.Fs.Repo.{GroupRepo, store, get_file, get_group_file_metas_from_ipfs}
use ipfs_share.Fs.Repo.Loading.{load_sealed}
use ipfs_share.Fs.Repo.Commit.{
  Draws, listed, local_file, LocalFile, PendingResult, and_with, entries, appended,
  elements-appended, beside, find_file, saved_as, set_hash, uploaded, pending_change,
  get_pending_changes, seal_and_add, commit_changes,
}

module _ (x : External) (s : Storage) (group : Group) where
  -- Where a file of the repository uploads and its metadata file can be written, its round gives the
  -- pending metadata with the new hash, and stores and saves the file with them.
  pub pending_change_lem :
      (laws : IsExternal x) (l : LocalFile) (repo : GroupRepo) (f f' : File) (p : FileMeta)
      (hash : Bytes) (d d1 : Disk)
      → get_file l.name repo ≡ some f
      → File.upload_diff x f l.draw.new_key l.draw.nonce d ≡ (ok hash, f', d1)
      → f'.pending_changes ≡ some p
      → d1.denied f'.meta_path ≡ false
      → d1.full f'.meta_path ≡ false
      → let p' = record p { ipfs_hash = hash } in
        let f'' = record f' { pending_changes = some p' } in
        (d2 : Disk) × (pending_change x s group l repo d ≡ (ok p', store f'' (store f' repo), d2))
  unfolding pending_change
  pending_change_lem laws l repo f f' p hash d d1 found uploads pending h k =
      let p' : FileMeta = record p { ipfs_hash = hash } in
      let f'' : File = record f' { pending_changes = some p' } in
      let (bs, _, saves) = save_metadata_lem x laws f'' d1 h k in
      (
        written f'.meta_path bs d1,
        ap
              (λ o. and_with (find_file x s group l repo d o) (λ g repo' d'.
                uploaded x s group repo' (File.upload_diff x g l.draw.new_key l.draw.nonce d')))
              found
            ∙ ap (uploaded x s group repo) uploads
            ∙ ap (λ o. set_hash x s group hash f' o (store f' repo) d1) pending
            ∙ ap (saved_as x s group p' (store f'' (store f' repo))) saves,
      )

  pub pending_changes_one :
      (draws : Draws) (entry : Entry) (repo repo' : GroupRepo) (p : FileMeta) (d d' : Disk)
      → read_dir (group_file_data_dir group.name s) d ≡ (ok (entry ∷ []), d)
      → pending_change x s group (local_file draws entry) repo d ≡ (ok p, repo', d')
      → get_pending_changes x s group draws repo d ≡ (ok (p ∷ []), repo', d')
  unfolding get_pending_changes
  pending_changes_one draws entry repo repo' p d d' reads e =
      ap (listed x s group draws repo) reads
      ∙ ap (λ r. and_with r (λ m repo1 d1. (ok (m ∷ []), repo1, d1))) e

  -- Where the round of the only file of the directory ends and IPFS takes the list, CommitChanges
  -- returns a hash.
  pub commit_changes_one :
      (laws : IsExternal x) (boxer : SymmetricKey) (nonce : Bytes) (draws : Draws) (entry : Entry)
      (repo repo' : GroupRepo) (p : FileMeta) (d d' : Disk)
      → read_dir (group_file_data_dir group.name s) d ≡ (ok (entry ∷ []), d)
      → pending_change x s group (local_file draws entry) repo d ≡ (ok p, repo', d')
      → ((c : Bytes) → (h : Bytes) × (x.ipfs_add c ≡ some h))
      → (hash : Bytes) × (commit_changes x s group boxer nonce draws repo d ≡ (ok hash, repo', d'))
  unfolding commit_changes get_pending_changes seal_and_add
  commit_changes_one laws boxer nonce draws entry repo repo' p d d' reads e adds =
      let (bs, marshals, _) = laws.metas_laws.round_trip (appended (p ∷ [])) in
      let (hash, added) = adds (box_seal x.box boxer nonce bs) in
      (
        hash,
        ap
              (λ r.
                and_with (listed x s group draws repo r)
                  (λ ms repo2 d2. beside repo2 (seal_and_add x s group boxer nonce ms d2)))
              reads
            ∙ ap
                (λ r.
                  and_with (and_with r (λ m repo1 d1. (ok (m ∷ []), repo1, d1)))
                    (λ ms repo2 d2. beside repo2 (seal_and_add x s group boxer nonce ms d2)))
                e
            ∙ ap
                (λ o. beside repo' (
                  (require o not_encoded >>= λ b.
                  require (x.ipfs_add (box_seal x.box boxer nonce b)) ipfs_failed)
                    d'))
                marshals
            ∙ ap (λ o. beside repo' (require o ipfs_failed d')) added,
      )

  and_with_inv :
      {A B : Type 0} {b : B} {repo'' : GroupRepo} {d'' : Disk} (r : PendingResult A)
      (k : A → GroupRepo → Disk → PendingResult B)
      → and_with r k ≡ (ok b, repo'', d'')
      → (a : A) × (repo' : GroupRepo) × (d' : Disk) × (r ≡ (ok a, repo', d'))
        × (k a repo' d' ≡ (ok b, repo'', d''))
  and_with_inv (ok a, repo', d') k e = (a, repo', d', refl, e)
  and_with_inv (err _, repo', d') k e = cc
  and_with_inv (panic, repo', d') k e = cc

  seal_and_add_inv :
      (boxer : SymmetricKey) (nonce : Bytes) (ms : List FileMeta) (h : Bytes) (d d' : Disk)
      → seal_and_add x s group boxer nonce ms d ≡ (ok h, d')
      → (bs : Bytes) × (x.metas_codec.marshal (appended ms) ≡ some bs)
        × (x.ipfs_add (box_seal x.box boxer nonce bs) ≡ some h)
  unfolding seal_and_add
  seal_and_add_inv boxer nonce ms h d d' e =
      let (bs, d1, marshalled, added) =
        bind_inv (require (x.metas_codec.marshal (appended ms)) not_encoded) _ d e in
      (
        bs,
        (require_inv (x.metas_codec.marshal (appended ms)) not_encoded marshalled).0,
        (require_inv (x.ipfs_add (box_seal x.box boxer nonce bs)) ipfs_failed added).0,
      )

  -- The loading of what was committed, which touches the temporary file only.
  pub load_committed :
      (laws : IsExternal x) (boxer : SymmetricKey) (nonce hash : Bytes) (draws : Draws)
      (repo repo' : GroupRepo) (d d' : Disk)
      → commit_changes x s group boxer nonce draws repo d ≡ (ok hash, repo', d')
      → length nonce ≡ 24
      → (theirs : Storage) (d2 : Disk) → Usable (theirs.tmp_path ++ hash) d2
      → (ms : List FileMeta) × (d1 : Disk) × (get_pending_changes x s group draws repo d
          ≡ (ok ms, repo', d1))
        × (d3 : Disk) × (get_group_file_metas_from_ipfs x theirs hash boxer d2
            ≡ (ok (entries ms), d3))
        × Outside (theirs.tmp_path ++ hash) d2 d3
  unfolding commit_changes
  load_committed laws boxer nonce hash draws repo repo' d d' e l theirs d2 u =
      let (ms, mid, d1, pending, rest) =
        and_with_inv (get_pending_changes x s group draws repo d) _ e in
      let (sealed, same) = beside_inv (seal_and_add x s group boxer nonce ms d1) rest in
      let (bs, marshalled, added) = seal_and_add_inv boxer nonce ms hash d1 d' sealed in
      let (bs', marshalled', decodes) = laws.metas_laws.round_trip (appended ms) in
      let (d3, loads, outside) =
        load_sealed x laws theirs hash nonce bs boxer (appended ms) d2 l
          (ap x.metas_codec.unmarshal (same_bytes marshalled marshalled') ∙ decodes) added u in
      (
        ms,
        d1,
        pending ∙ ap (λ r. (ok ms, r, d1)) same,
        d3,
        loads ∙ ap (λ (es : List (Option FileMeta)). (ok es, d3)) (elements-appended ms),
        outside,
      )
    where
      same_bytes : {o : Option Bytes} {a b : Bytes} → o ≡ some a → o ≡ some b → a ≡ b
      same_bytes p q = cc

      beside_inv :
          {mid : GroupRepo} (r : Result FsError Bytes × Disk)
          → beside mid r ≡ (ok hash, repo', d')
          → (r ≡ (ok hash, d')) × (mid ≡ repo')
      beside_inv r q = (cc, cc)

  -- Under the laws of the box, the codecs and IPFS: what CommitChanges has committed successfully
  -- under a nonce of 24 bytes, any member with the new key and a usable temporary file loads under
  -- the returned hash: the pending changes of the files in the group's directory, in order.
  pub load-commit_changes :
      (laws : IsExternal x) (boxer : SymmetricKey) (nonce hash : Bytes) (draws : Draws)
      (repo repo' : GroupRepo) (d d' : Disk)
      → commit_changes x s group boxer nonce draws repo d ≡ (ok hash, repo', d')
      → length nonce ≡ 24
      → (theirs : Storage) (d2 : Disk) → Usable (theirs.tmp_path ++ hash) d2
      → (ms : List FileMeta) × (d1 : Disk) × (get_pending_changes x s group draws repo d
          ≡ (ok ms, repo', d1))
        × (d3 : Disk) × (get_group_file_metas_from_ipfs x theirs hash boxer d2
            ≡ (ok (entries ms), d3))
  load-commit_changes laws boxer nonce hash draws repo repo' d d' e l theirs d2 u =
      let (ms, d1, pending, d3, loads, _) =
        load_committed laws boxer nonce hash draws repo repo' d d' e l theirs d2 u in
      (ms, d1, pending, d3, loads)
