-- ===== src/GroupContext/Frame.antt =====
-- What no method of a group's context changes: the group's address, the account, the
-- connection, and the transactions that were sent.
pub mod Key
pub mod Requests
use mathlib.Core.List.{append-nil}
use ipfs_share.Prelude.{
  ℕ, ◌≡◌, refl, sym, ◌∙◌, List, [], ◌∷◌, ◌++◌, Bytes, Bool, true, false, not, Option, none, some,
  ◌==◌, if◌then◌else◌, Result, ok, err, panic, arith, Bool-cases, inl, inr, ltb, length,
  bytes_equal, nat_eq, bytes_eq,
}
use ipfs_share.Crypto.SymmetricKey.{SymmetricKey, box_seal}
use ipfs_share.Collections.Map.{get, put}
use ipfs_share.Group.{Group, GroupError, set_boxer, is_member}
use ipfs_share.Group as Groups
use ipfs_share.Group.Frame.{update_keeps, add_member_keeps}
use ipfs_share.Fs.Disk.{Disk, FsError}
use ipfs_share.Fs.Meta.{Address, GroupMeta}
use ipfs_share.Fs.External.{External, Codec, File}
use ipfs_share.Fs.Storage.{Storage}
use ipfs_share.Fs.Repo as Repos
use ipfs_share.Fs.Repo.{get_file}
use ipfs_share.Fs.Repo.Commit.{PendingResult}
use ipfs_share.Fs.Repo.Commit as Commits
use ipfs_share.Fs.File.{new_group_file}
use ipfs_share.Fs.Storage.UserFiles.{base}
use ipfs_share.GroupContext.Commit.{send, leave, invite, committed, commit_changes}
use ipfs_share.GroupContext.Access.{FileChange, with_new, on_file, change_access}
use ipfs_share.Communication.Message.{Contact, Network}
use ipfs_share.GroupContext.{
  Eth, ContextError, GroupContext, Handled, Transaction, leaves, invites, changes_ipfs_hash,
  Approve, approves, approve_consensus, repo_updated, saved, group_updated, fetched, contract_state,
  update, save_group,
}
use ipfs_share.GroupContext.Events.{
  approved, validated, checked, proposal, on_get_proposed_key_success, read_consensus, new_proposal,
  on_new_consensus, on_group_invitation_accepted, with_key, on_ipfs_hash_changed,
  on_get_key_success,
}

-- The address, the account and the connection are as before, and transactions were only added.
pub record Keeps (ctx ctx' : GroupContext) : Type 0 where
  pub address : ctx'.group.address ≡ ctx.group.address
  pub account : ctx'.account ≡ ctx.account
  pub connection : ctx'.connection ≡ ctx.connection
  pub more : List Transaction
  pub grown : ctx'.transactions ≡ ctx.transactions ++ more

-- From a context that has them as they were.
pub kept :
    {ctx ctx' : GroupContext}
    → ctx'.group.address ≡ ctx.group.address
    → ctx'.account ≡ ctx.account
    → ctx'.connection ≡ ctx.connection
    → ctx'.transactions ≡ ctx.transactions
    → Keeps ctx ctx'
kept {ctx} a c n t = record {
  address = a;
  account = c;
  connection = n;
  more = [];
  grown = t ∙ sym (append-nil ctx.transactions);
}

module _ (x : External) (s : Storage) (eth : Eth) where
  repo_updated-Keeps :
      (ctx : GroupContext) (r : Repos.RunResult) → Keeps ctx (repo_updated x s eth ctx r).1
  repo_updated-Keeps ctx (ok _, run, d) = kept refl refl refl refl
  repo_updated-Keeps ctx (err e, run, d) = kept refl refl refl refl
  repo_updated-Keeps ctx (panic, run, d) = kept refl refl refl refl

  saved-Keeps :
      (ctx : GroupContext) (r : Result FsError (Unit {0}) × Disk)
      → Keeps ctx (saved x s eth ctx r).1
  saved-Keeps ctx (ok _, d) =
      repo_updated-Keeps ctx (Repos.update x s ctx.group ctx.repo ctx.group.ipfs_hash d)
  saved-Keeps ctx (err e, d) = kept refl refl refl refl
  saved-Keeps ctx (panic, d) = kept refl refl refl refl

  group_updated-address :
      (c : Codec GroupMeta) (ctx : GroupContext) (r : Result GroupError (Unit {0}) × Group)
      (d : Disk)
      → r.1.address ≡ ctx.group.address
      → Keeps ctx (group_updated x s eth c ctx r d).1
  group_updated-address c ctx (ok _, g) d e =
      let k = saved-Keeps (record ctx { group = g }) (save_group x s eth c g d) in
      record {
        address = k.address ∙ e;
        account = k.account;
        connection = k.connection;
        more = k.more;
        grown = k.grown;
      }
  group_updated-address c ctx (err _, g) d e = kept e refl refl refl
  group_updated-address c ctx (panic, g) d e = kept e refl refl refl

  fetched-Keeps :
      (c : Codec GroupMeta) (ctx : GroupContext)
      (r : Result ContextError (Bytes × List Address × Bytes)) (d : Disk)
      → Keeps ctx (fetched x s eth c ctx r d).1
  fetched-Keeps c ctx (ok (name, members, hash)) d =
      group_updated-address c ctx (Groups.update x.box name members hash ctx.group) d
        (update_keeps x.box name members hash ctx.group).0
  fetched-Keeps c ctx (err e) d = kept refl refl refl refl
  fetched-Keeps c ctx panic d = kept refl refl refl refl

  pub update-Keeps :
      (c : Codec GroupMeta) (ctx : GroupContext) (d : Disk) → Keeps ctx (update x s eth c ctx d).1
  unfolding update
  update-Keeps c ctx d = fetched-Keeps c ctx (contract_state x s eth) d

  approved-Keeps :
      (p : Address) (ctx : GroupContext) (r : Result ContextError Approve) (d : Disk)
      → Keeps ctx (approved x s eth p ctx r d).1
  approved-Keeps p ctx (ok tx) d = record {
    address = refl;
    account = refl;
    connection = refl;
    more = approves tx ∷ [];
    grown = refl;
  }
  approved-Keeps p ctx (err e) d = kept refl refl refl refl
  approved-Keeps p ctx panic d = kept refl refl refl refl

  validated-Keeps :
      (p c : Address) (ctx : GroupContext) (r : Result FsError (Unit {0}) × Disk)
      → Keeps ctx (validated x s eth p c ctx r).1
  validated-Keeps p c ctx (ok _, d) = approved-Keeps p ctx (approve_consensus eth c) d
  validated-Keeps p c ctx (err e, d) = kept refl refl refl refl
  validated-Keeps p c ctx (panic, d) = kept refl refl refl refl

  checked-Keeps :
      (p : Address) (k : SymmetricKey) (ctx : GroupContext)
      (r : Result ContextError (Address × Bytes)) (d : Disk)
      → Keeps ctx (checked x s eth p k ctx r d).1
  checked-Keeps p k ctx (ok (c, hash)) d =
      validated-Keeps p c ctx (Repos.is_valid_change_set x s ctx.repo hash k p d)
  checked-Keeps p k ctx (err e) d = kept refl refl refl refl
  checked-Keeps p k ctx panic d = kept refl refl refl refl

  pub on_get_proposed_key_success-Keeps :
      (p : Address) (k : SymmetricKey) (ctx : GroupContext) (d : Disk)
      → Keeps ctx (on_get_proposed_key_success x s eth p k ctx d).1
  unfolding on_get_proposed_key_success
  on_get_proposed_key_success-Keeps p k ctx d =
      let ctx' : GroupContext = record ctx { proposed_keys = put p (some k) ctx.proposed_keys } in
      let k' = checked-Keeps p k ctx' (proposal x s eth p k ctx') d in
      record {
        address = k'.address;
        account = k'.account;
        connection = k'.connection;
        more = k'.more;
        grown = k'.grown;
      }

module _ (n : Network) (book : Address → Option Contact) (session_id : Address → ℕ) where
  new_proposal-Keeps :
      (g : Address) (ctx : GroupContext) (r : Result ContextError (Address × Option Bytes))
      → Keeps ctx (new_proposal n book session_id g ctx r)
  new_proposal-Keeps g ctx (ok (p, some payload)) = kept refl refl refl refl
  new_proposal-Keeps g ctx (ok (p, none)) = kept refl refl refl refl
  new_proposal-Keeps g ctx (err e) = kept refl refl refl refl
  new_proposal-Keeps g ctx panic = kept refl refl refl refl

  pub on_new_consensus-Keeps :
      (eth : Eth) (c g : Address) (ctx : GroupContext)
      → Keeps ctx (on_new_consensus n book session_id eth c g ctx)
  unfolding on_new_consensus
  on_new_consensus-Keeps eth c g ctx =
      new_proposal-Keeps g ctx (read_consensus n book session_id eth ctx.account c)

  module _ (x : External) (s : Storage) (eth : Eth) (c : Codec GroupMeta) where
    with_key-Keeps :
        (g : Address) (ctx : GroupContext) (d : Disk) (o : Option SymmetricKey)
        → Keeps ctx (with_key n book session_id (update x s eth c) g ctx d o).1
    unfolding set_boxer
    with_key-Keeps g ctx d (some key) =
        let k = update-Keeps x s eth c (record ctx { group = set_boxer key ctx.group }) d in
        record {
          address = k.address;
          account = k.account;
          connection = k.connection;
          more = k.more;
          grown = k.grown;
        }
    with_key-Keeps g ctx d none = kept refl refl refl refl

    pub on_ipfs_hash_changed-Keeps :
        (g p : Address) (ctx : GroupContext) (d : Disk)
        → Keeps ctx (on_ipfs_hash_changed n book session_id x s eth c g p ctx d).1
    unfolding on_ipfs_hash_changed
    on_ipfs_hash_changed-Keeps g p ctx d = elim (Bool-cases (not (g == ctx.group.address))) [
      | inl other ↦ rw other (kept refl refl refl refl)
      | inr same ↦ rw same (with_key-Keeps g ctx d (get p ctx.proposed_keys))
    ]

    pub on_get_key_success-Keeps :
        (k : SymmetricKey) (ctx : GroupContext) (d : Disk)
        → Keeps ctx (on_get_key_success n book session_id x s eth c k ctx d).1
    unfolding on_get_key_success set_boxer
    on_get_key_success-Keeps k ctx d = elim (Bool-cases (bytes_equal ctx.group.boxer.key k.key)) [
      | inl same ↦ rw same (kept refl refl refl refl)
      | inr other ↦
          let k' = update-Keeps x s eth c (record ctx { group = set_boxer k ctx.group }) d in
          rw other (record {
            address = k'.address;
            account = k'.account;
            connection = k'.connection;
            more = k'.more;
            grown = k'.grown;
          })
    ]

pub on_group_invitation_accepted-Keeps :
    (a : Address) (ctx : GroupContext) → Keeps ctx (on_group_invitation_accepted a ctx)
unfolding on_group_invitation_accepted
on_group_invitation_accepted-Keeps a ctx = kept (add_member_keeps a ctx.group).0 refl refl refl
