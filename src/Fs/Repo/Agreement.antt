-- ===== src/Fs/Repo/Agreement.antt =====
-- `CommitChanges` of one member and `IsValidChangeSet` of another (client/fs/grouprepo.go).
use ipfs_share.Prelude.{
  ◌≡◌, refl, ◌∙◌, ap, List, [], ◌∷◌, ◌++◌, Bytes, bytes_equal, true, false, some, ok, length,
  contains,
}
use ipfs_share.Crypto.FileBoxer.RoundTrip.{IsNonce}
use ipfs_share.Crypto.SymmetricKey.{SymmetricKey}
use ipfs_share.Group.{Group}
use ipfs_share.Fs.Disk.{Disk}
use ipfs_share.Fs.Meta.{Address, elements, FileMeta}
use ipfs_share.Fs.External.{External, IsExternal, File}
use ipfs_share.Fs.Storage.{Storage, group_file_data_dir}
use ipfs_share.Fs.Storage.Downloads.{Usable, tmp_file}
use ipfs_share.Fs.File.{upload_diff}
use ipfs_share.Fs.File.Upload.{HasOriginal, Working, upload_diff_lem}
use ipfs_share.Fs.File.Sync.{Usable-after}
use ipfs_share.Fs.Repo.{GroupRepo, get_file, is_valid_change_set}
use ipfs_share.Fs.Disk.Directory.{Entry, read_dir}
use ipfs_share.Fs.Repo.Commit.{Draws, local_file, LocalFile, PendingResult, commit_changes, entries}
use ipfs_share.Fs.Repo.Commit.Committed.{
  commit_changes_one, pending_change_lem, pending_changes_one, load_committed,
}
use ipfs_share.Fs.Repo.Honest.{is_valid_change_set_honest, original_after}

pending_same :
    {r : PendingResult (List FileMeta)} {ms ns : List FileMeta} {repo repo' : GroupRepo}
    {d d' : Disk}
    → r ≡ (ok ms, repo, d)
    → r ≡ (ok ns, repo', d')
    → ms ≡ ns
pending_same p q = cc

-- Under the laws of the box, the codecs, the differ and IPFS, where IPFS takes what is added:
-- CommitChanges, under nonces of 24 bytes, where the directory of the group has one entry, a
-- changed file of the repository with a readable text and original, an access list and a metadata
-- file that can be written, returns a hash; and IsValidChangeSet of a member accepts that hash
-- under the new key for every account in the access list that this member has for the file, if the
-- member's file has the same hash and the same original, which is not below the path of temporary
-- files, and every path of its disk can be written.
pub is_valid_change_set-commit_changes :
    (x : External) (laws : IsExternal x) (s theirs : Storage) (group : Group) (draws : Draws)
    (entry : Entry) (repo their_repo : GroupRepo) (f mine : File) (p : FileMeta)
    (acl : List Address) (key nonce t current : Bytes) (boxer : SymmetricKey) (address : Address)
    (d d2 : Disk)
    → read_dir (group_file_data_dir group.name s) d ≡ (ok (entry ∷ []), d)
    → get_file entry.name repo ≡ some f
    → f.pending_changes ≡ some p
    → p.write_access_list ≡ some acl
    → (draws entry.name).new_key ≡ some key
    → IsNonce (draws entry.name).nonce
    → length nonce ≡ 24
    → Working x f d (some t) current
    → d.denied f.meta_path ≡ false
    → d.full f.meta_path ≡ false
    → ((c : Bytes) → (h : Bytes) × (x.ipfs_add c ≡ some h))
    → get_file p.file_name their_repo ≡ some mine
    → f.meta.ipfs_hash ≡ mine.meta.ipfs_hash
    → contains address (elements mine.meta.write_access_list) ≡ true
    → HasOriginal mine.orig_path d2 (some t)
    → ((q : Bytes) → Usable q d2)
    → ((h : Bytes) → bytes_equal (theirs.tmp_path ++ h) mine.orig_path ≡ false)
    → (hash : Bytes) × (repo' : GroupRepo) × (d' : Disk) × (commit_changes x s group boxer nonce
          draws repo d
        ≡ (ok hash, repo', d'))
      × (d3 : Disk) × (is_valid_change_set x theirs their_repo hash boxer address d2 ≡ (ok tt, d3))
is_valid_change_set-commit_changes x laws s theirs group draws entry repo their_repo f mine p acl
      key nonce t current boxer address d d2 reads has pending is_list is_key i n w h k adds found
      same member base usable apart =
    let l : LocalFile = local_file draws entry in
    let nonce_l = l.draw.nonce in
    let p' : FileMeta = record p { data_key = record { key = key } } in
    let g : File = record f { pending_changes = some p' } in
    let (h', uploads) =
      upload_diff_lem x laws f p key nonce_l d (some t) current pending i w adds in
    let m : FileMeta = record p' { ipfs_hash = h' } in
    let (d1, round) =
      pending_change_lem x s group laws l repo f g p' h' d d has
        (ap (λ o. upload_diff x f o nonce_l d) is_key ∙ uploads) refl h k in
    let (hash, commits) =
      commit_changes_one x s group laws boxer nonce draws entry repo _ m d d1 reads round adds in
    let (ms, _, lists, d3, loads, outside) =
      load_committed x s group laws boxer nonce hash draws repo _ d d1 commits n theirs d2
        (usable (theirs.tmp_path ++ hash)) in
    let listed =
      pending_same lists (pending_changes_one x s group draws entry repo _ m d d1 reads round) in
    let (d4, valid) =
      is_valid_change_set_honest x theirs laws f g mine p m acl key nonce_l t current hash boxer
        their_repo address d d d2 d3 pending i w uploads refl is_list
        (loads ∙ ap (λ (e : List FileMeta). (ok (entries e), d3)) listed) found same member
        (original_after x theirs (theirs.tmp_path ++ hash) mine.orig_path t d2 d3 outside
          (apart hash) base)
        (Usable-after x outside (usable (tmp_file h' theirs))) (apart _) in
    (hash, _, d1, commits, d4, valid)
