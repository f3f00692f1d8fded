-- ===== src/GroupContext/Frame/Requests.antt =====
-- The requests of a member keep what `Keeps` says.
use ipfs_share.Prelude.{
  refl, [], ◌∷◌, Bytes, Bool, true, false, not, Option, none, some, Result, ok, err, panic,
  Bool-cases, inl, inr, nat_eq, bytes_eq,
}
use ipfs_share.Crypto.SymmetricKey.{SymmetricKey, box_seal}
use ipfs_share.Collections.Map.{put}
use ipfs_share.Group.{is_member}
use ipfs_share.Fs.Disk.{Disk, FsError}
use ipfs_share.Fs.Meta.{Address}
use ipfs_share.Fs.External.{External, File}
use ipfs_share.Fs.Storage.{Storage}
use ipfs_share.Fs.Repo.{get_file}
use ipfs_share.Fs.Repo.Commit.{Draws, PendingResult}
use ipfs_share.Fs.Repo.Commit as Commits
use ipfs_share.Fs.File.{new_group_file}
use ipfs_share.Fs.Storage.UserFiles.{base}
use ipfs_share.GroupContext.Commit.{send, leave, invite, committed, commit_changes}
use ipfs_share.GroupContext.Access.{FileChange, with_new, on_file, change_access}
use ipfs_share.GroupContext.{Eth, GroupContext, Transaction, leaves, invites, changes_ipfs_hash}
use ipfs_share.GroupContext.Frame.{Keeps, kept}

sent-Keeps : (b : Bool) (tx : Transaction) (ctx : GroupContext) → Keeps ctx (send b tx ctx).1
sent-Keeps true tx ctx = record {
  address = refl;
  account = refl;
  connection = refl;
  more = tx ∷ [];
  grown = refl;
}
sent-Keeps false tx ctx = kept refl refl refl refl

module _ (eth : Eth) where
  pub leave-Keeps : (ctx : GroupContext) → Keeps ctx (leave eth ctx).1
  leave-Keeps ctx = sent-Keeps eth.takes_leave leaves ctx

  pub invite-Keeps :
      (a : Address) (b : Bool) (ctx : GroupContext) → Keeps ctx (invite eth a b ctx).1
  invite-Keeps a b ctx = sent-Keeps (eth.takes_invite a) (invites a) ctx

module _ (x : External) (s : Storage) (eth : Eth) where
  committed-Keeps :
      (k : SymmetricKey) (nonce : Bytes) (ctx : GroupContext) (r : PendingResult Bytes)
      → Keeps ctx (committed x s eth k nonce ctx r).1
  committed-Keeps k nonce ctx (ok hash, repo, d) =
      let enc = box_seal x.box k nonce hash in
      let k' =
        sent-Keeps (eth.takes_hash enc) (changes_ipfs_hash enc) (record ctx { repo = repo }) in
      record {
        address = k'.address;
        account = k'.account;
        connection = k'.connection;
        more = k'.more;
        grown = k'.grown;
      }
  committed-Keeps k nonce ctx (err e, repo, d) = kept refl refl refl refl
  committed-Keeps k nonce ctx (panic, repo, d) = kept refl refl refl refl

  pub commit_changes-Keeps :
      (key : Option Bytes) (nonce nonce' : Bytes) (draws : Draws) (ctx : GroupContext) (d : Disk)
      → Keeps ctx (commit_changes x s eth key nonce nonce' draws ctx d).1
  unfolding commit_changes
  commit_changes-Keeps none nonce nonce' draws ctx d = kept refl refl refl refl
  commit_changes-Keeps (some key) nonce nonce' draws ctx d =
      let k : SymmetricKey = record { key = key } in
      let ctx' : GroupContext = record ctx {
        proposed_keys = put ctx.account (some k) ctx.proposed_keys;
      } in
      let k' =
        committed-Keeps k nonce' ctx'
          (Commits.commit_changes x s ctx.group k nonce draws ctx.repo d) in
      record {
        address = k'.address;
        account = k'.account;
        connection = k'.connection;
        more = k'.more;
        grown = k'.grown;
      }

module _ (x : External) (s : Storage) where
  with_new-Keeps :
      (f : FileChange x s) (a : Address) (ctx : GroupContext) (r : Result FsError File × Disk)
      → Keeps ctx (with_new x s f a ctx r).1
  with_new-Keeps f a ctx (ok g, d) = kept refl refl refl refl
  with_new-Keeps f a ctx (err e, d) = kept refl refl refl refl
  with_new-Keeps f a ctx (panic, d) = kept refl refl refl refl

  pub change_access-Keeps :
      (f : FileChange x s) (path : Bytes) (a : Address) (key : Option Bytes) (ctx : GroupContext)
      (d : Disk)
      → Keeps ctx (change_access x s f path a key ctx d).1
  unfolding change_access
  change_access-Keeps f path a key ctx d = elim (Bool-cases (not (is_member a ctx.group))) [
    | inl stranger ↦ rw stranger (kept refl refl refl refl)
    | inr member ↦ rw member (found (get_file (base path) ctx.repo))
  ]
    where
      found : (o : Option File) → Keeps ctx (on_file x s f path a key ctx d o).1
      found (some g) = kept refl refl refl refl
      found none =
          with_new-Keeps f a ctx
            (new_group_file x path (base path) (some (ctx.account ∷ [])) ctx.group.address key s d)
