-- ===== src/Fs/File.antt =====
-- client/fs/file.go: a shared file. `File` itself stands in Fs/External. A method that writes to the
-- file returns it beside its result, as it leaves it.
pub mod Access
pub mod Upload
pub mod Loading
pub mod Sync
pub mod Chain
pub mod Updating
use ipfs_share.Prelude.{
  ℕ, zero, suc, List, [], ◌∷◌, ◌++◌, Bool, true, false, not, ◌&&◌, ◌||◌, Option, none, some, Bytes,
  bytes_equal, ◌==◌, if◌then◌else◌, Result, ok, err, panic, remove_first,
}
use ipfs_share.Crypto.FileBoxer.{FileBoxer, Outcome, done, failed, panicked, exhausted, seal}
use ipfs_share.Fs.Disk.{
  Disk, FsError, Action, not_encoded, not_decoded, not_decrypted, ipfs_failed, random_failed,
  no_write_access, has_write_access, target_has_no_access, nil_access_list, out_of_fuel, ◌>>=◌,
  ◌>>◌, pure, fail, crash, require, read_file, create_and_write_file, file_exists,
}
use ipfs_share.Fs.Meta.{Address, Slice, elements, FileMeta, new_file_meta}
use ipfs_share.Fs.External.{External, Differ, DiffNode, File, Codec}
use ipfs_share.Fs.Storage.{
  Storage, group_file_meta_dir, group_file_orig_dir, group_file_data_dir,
  download_and_decrypt_with_file_boxer,
}

-- What a method returns: its result, the file and the disk.
abbrev pub Outcome3 : Type 0 → Type 0
Outcome3 A = Result FsError A × File × Disk

-- The loop of `GrantWriteAccess`: whether `user` was met, and `none` for the return at `target`.
grant_scan : Address → Address → Bool → List Address → Option Bool
grant_scan user target has_access [] = some has_access
grant_scan user target has_access (w ∷ ws) =
    let rest = grant_scan user target (has_access || w == user) ws in
    if w == target then none else rest

-- The loop of `RevokeWriteAccess`, which ends early once both were met.
revoke_scan : Address → Address → Bool × Bool → List Address → Bool × Bool
revoke_scan user target found [] = found
revoke_scan user target (u, t) (w ∷ ws) =
    let u' = u || w == user in
    let t' = t || w == target in
    let rest = revoke_scan user target (u', t') ws in if u' && t' then (u', t') else rest

-- `deepcopy`, through JSON; the marshalling error is ignored, and unmarshalling nothing fails.
pub deepcopy : Codec FileMeta → FileMeta → Action FileMeta
deepcopy c m = elim (c.marshal m) [
  | none ↦ fail not_decoded
  | some bs ↦ require (c.unmarshal bs) not_decoded
]

-- The result of a call, with the file beside it.
abbrev pub with_file : {A : Type 0} → File → Result FsError A × Disk → Outcome3 A
with_file f (r, d) = (r, f, d)

-- Nil pending changes are dereferenced.
abbrev on_pending :
    {A : Type 0} → Option FileMeta → (FileMeta → Outcome3 A) → File → Disk → Outcome3 A
on_pending none k f d = (panic, f, d)
on_pending (some p) k f d = k p

-- The last steps of a download: an error of a write is logged, and no more.
abbrev logged : Result FsError (Unit {0}) × Disk → Result FsError (Unit {0}) × Disk
logged (err e, d) = (ok tt, d)
logged (ok t, d) = (ok t, d)
logged (panic, d) = (panic, d)

module _ (x : External) where
  pub save_metadata : File → Action (Unit {0})
  save_metadata f = do
    json_bytes ← require (x.file_codec.marshal f) not_encoded
    create_and_write_file f.meta_path json_bytes

  -- `NewGroupFile`, for a base name and its path, with the key that `rand.Read` gives.
  pub new_group_file :
      Bytes → Bytes → Slice Address → Address → Option Bytes → Storage → Action File
  new_group_file file_path file_name none group key s = fail nil_access_list
  new_group_file file_path file_name (some members) group key s = do
    meta ← require (new_file_meta file_name (some members) key) random_failed
    pending_changes ← deepcopy x.meta_codec meta
    let file : File = record {
      meta = meta;
      pending_changes = some pending_changes;
      data_path = file_path;
      meta_path = group_file_meta_dir (x.address_string group) s ++ meta.file_name;
      orig_path = group_file_orig_dir (x.address_string group) s ++ meta.file_name;
    }
    save_metadata file
    pure file

  -- `NewGroupFileFromMeta`, which saves nothing.
  pub new_group_file_from_meta : FileMeta → Address → Bytes → Storage → Action File
  new_group_file_from_meta meta group group_name s = do
    pending_changes ← deepcopy x.meta_codec meta
    pure (record {
      meta = meta;
      pending_changes = some pending_changes;
      data_path = group_file_data_dir group_name s ++ meta.file_name;
      meta_path = group_file_meta_dir (x.address_string group) s ++ meta.file_name;
      orig_path = group_file_orig_dir (x.address_string group) s ++ meta.file_name;
    })

  granted : File → FileMeta → Address → Address → Disk → Outcome3 (Unit {0})
  granted f p user target d = elim (grant_scan user target false (elements p.write_access_list)) [
    | none ↦ (err has_write_access, f, d)
    | some false ↦ (err no_write_access, f, d)
    | some true ↦
        let p' = record p {
          write_access_list = some (elements p.write_access_list ++ target ∷ []);
        } in
        let f' = record f { pending_changes = some p' } in with_file f' (save_metadata f' d)
  ]

  -- `GrantWriteAccess`.
  pub grant_write_access : File → Address → Address → Disk → Outcome3 (Unit {0})
  grant_write_access f user target d =
      on_pending f.pending_changes (λ p. granted f p user target d) f d

  revoked : File → FileMeta → Address → Address → Disk → Outcome3 (Unit {0})
  revoked f p user target d =
      let (u, t) = revoke_scan user target (false, false) (elements p.write_access_list) in
      if not u
      then (err no_write_access, f, d)
      else if not t
      then (err target_has_no_access, f, d)
      else (
        ok tt,
        record f {
          pending_changes = some (record p {
            write_access_list = some (remove_first target (elements p.write_access_list));
          });
        },
        d,
      )

  -- `RevokeWriteAccess`, which does not save the file.
  pub revoke_write_access : File → Address → Address → Disk → Outcome3 (Unit {0})
  revoke_write_access f user target d =
      on_pending f.pending_changes (λ p. revoked f p user target d) f d

  -- The original's text and digest, both empty where there is none.
  pub original : Bytes → Action (Bytes × Bytes)
  original orig_path d =
      if file_exists orig_path d
      then (do contents ← read_file orig_path; pure (contents, x.keccak256 contents)) d
      else (ok ([], []), d)

  -- `File.diff`.
  diff : File → FileBoxer → Action (DiffNode x.differ.Diffs)
  diff f boxer = do
    (original_str, hash) ← original f.orig_path
    current_data ← read_file f.data_path
    pure (record {
      hash = hash;
      diff = x.differ.diff_main original_str current_data;
      next = f.meta.ipfs_hash;
      next_boxer = boxer;
    })

  abbrev sealed_node : Outcome Bytes → Action Bytes
  sealed_node (done c) = pure c
  sealed_node failed = fail random_failed
  sealed_node panicked = crash
  sealed_node exhausted = fail out_of_fuel

  -- `DiffNode.Encrypt`, with the first nonce that `Seal` draws.
  encrypt : DiffNode x.differ.Diffs → FileBoxer → Bytes → Action Bytes
  encrypt node boxer nonce = do
    encoded ← require (x.node_codec.marshal node) not_encoded
    sealed_node (seal x.box boxer nonce encoded)

  upload_node : File → FileBoxer → Bytes → Action Bytes
  upload_node f boxer nonce = do
    node ← diff f boxer
    enc_data ← encrypt node boxer nonce
    require (x.ipfs_add enc_data) ipfs_failed

  -- The part of `UploadDiff` that follows the new key. The key stays in the pending changes also
  -- where a later step fails.
  uploaded : File → FileMeta → FileBoxer → Bytes → Disk → Outcome3 Bytes
  uploaded f p boxer nonce d =
      let f' = record f { pending_changes = some (record p { data_key = boxer }) } in
      with_file f' (upload_node f' boxer nonce d)

  -- `UploadDiff`, with the key that `rand.Read` gives.
  pub upload_diff : File → Option Bytes → Bytes → Disk → Outcome3 Bytes
  upload_diff f none nonce d = (err random_failed, f, d)
  upload_diff f (some new_key) nonce d =
      on_pending f.pending_changes (λ p. uploaded f p (record { key = new_key }) nonce d) f d

  -- The two breaks of the first loop of `Download`: no next node, or the original's state is found.
  pub download_from :
      DiffNode x.differ.Diffs
      → Bytes
      → List x.differ.Diffs
      → Action (List x.differ.Diffs)
      → Action (List x.differ.Diffs)
  download_from node orig_hash stack rest =
      if bytes_equal node.next []
      then pure stack
      else if bytes_equal node.hash orig_hash
      then pure stack
      else rest

  -- The first loop of `Download`: it collects the diffs back to the state that the original has,
  -- newest first read and oldest first returned.
  pub download_nodes :
      ℕ → FileBoxer → Bytes → Bytes → List x.differ.Diffs → Storage → Action (List x.differ.Diffs)
  download_nodes zero boxer hash orig_hash patches s = fail out_of_fuel
  download_nodes (suc fuel) boxer hash orig_hash patches s = do
    contents ← download_and_decrypt_with_file_boxer x boxer hash s
    node ← require (x.node_codec.unmarshal contents) not_decoded
    let stack = node.diff ∷ patches
    let rest = download_nodes fuel node.next_boxer node.next orig_hash stack s
    download_from node orig_hash stack rest

  -- The second loop.
  apply_patches : List x.differ.Diffs → Bytes → Bytes
  apply_patches [] current = current
  apply_patches (p ∷ ps) current = apply_patches ps (x.differ.patch_apply p current)

  save_text : File → Bytes → Action (Unit {0})
  save_text f text = do
    λ d. logged (create_and_write_file f.orig_path text d)
    λ d. logged (create_and_write_file f.data_path text d)

  -- `Download`. An error is what the source logs before it returns.
  pub download : ℕ → File → Storage → Action (Unit {0})
  download fuel f s = do
    (current, orig_hash) ← original f.orig_path
    patches ← download_nodes fuel f.meta.data_key f.meta.ipfs_hash orig_hash [] s
    save_text f (apply_patches patches current)

  abbrev taken_over : File → Result FsError FileMeta × Disk → Outcome3 Bool
  taken_over f (ok p, d) = (ok true, record f { pending_changes = some p }, d)
  taken_over f (err e, d) = (err e, f, d)
  taken_over f (panic, d) = (panic, f, d)

  -- `Update`; `ok true` where it also starts a download.
  pub update : File → FileMeta → Disk → Outcome3 Bool
  update f meta d =
      let f' = record f { meta = meta } in
      if bytes_equal f.meta.ipfs_hash meta.ipfs_hash
      then (ok false, f', d)
      else taken_over f' ((do save_metadata f'; deepcopy x.meta_codec meta) d)
