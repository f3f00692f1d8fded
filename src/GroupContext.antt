-- ===== src/GroupContext.antt =====
-- client/groupcontext.go: the context of a group: its state, the approval of a consensus, the update to
-- what the contract says, and the saving of the group (of client/group.go).
pub mod Access
pub mod Approval
pub mod Commit
pub mod Delivery
pub mod Events
pub mod Frame
pub mod HashChange
pub mod Opening
pub mod Proposals
use ipfs_share.Prelude.{
  ℕ, List, [], ◌∷◌, ◌++◌, Bytes, bytes_equal, Bool, true, false, not, Option, none, some, ◌==◌,
  if◌then◌else◌, Result, ok, err, panic, or_fail, ◌>>=◌, nat_eq,
}
use ipfs_share.Crypto.SymmetricKey.{SymmetricKey, box_open}
use ipfs_share.Crypto.Signature.{Rsv, sig_to_rsv}
use ipfs_share.Collections.Map.{Map, get, put}
use ipfs_share.Group.{Group, GroupError, set_boxer, group_meta}
use ipfs_share.Group as Groups
use ipfs_share.Fs.Disk.{Disk, FsError, Action}
use ipfs_share.Fs.Meta.{Address, GroupMeta}
use ipfs_share.Fs.External.{External, Codec}
use ipfs_share.Fs.Storage.{Storage, save_group_meta}
use ipfs_share.Fs.Repo.{GroupRepo, is_valid_change_set}
use ipfs_share.Fs.Repo as Repos
use ipfs_share.Communication.Message.{Contact, Network, book_get}
use ipfs_share.Communication.Manager.{
  P2PManager, start_get_group_key_session, start_get_proposed_group_key_session,
}

-- What the generated bindings of the contracts return at the time of a call; `none` and `false` are
-- their errors. `accepts`, `takes_hash`, `takes_leave` and `takes_invite` say whether `Approve`,
-- `ChangeIpfsHash`, `Leave` and `Invite` can be sent.
pub record Eth : Type 0 where
  pub new_consensus : Address → Bool
  pub members_that_approved : Address → Option (List Address)
  pub proposer : Address → Option Address
  pub payload : Address → Option Bytes
  pub digest : Address → Option Bytes
  pub get_consensus : Address → Option Address
  pub name : Option Bytes
  pub members : Option (List Address)
  pub ipfs_hash : Option Bytes
  pub sign : Bytes → Option Bytes
  pub accepts : Address → Rsv → Bool
  pub takes_hash : Bytes → Bool
  pub takes_leave : Bool
  pub takes_invite : Address → Bool

-- The approval of a consensus.
pub record Approve : Type 0 where
  pub consensus : Address
  pub parts : Rsv

-- A transaction that was sent to a contract.
pub data Transaction : Type 0 where
  approves : Approve → Transaction
  changes_ipfs_hash : Bytes → Transaction
  leaves : Transaction
  invites joins : Address → Transaction
  creates_group : Bytes → Transaction
  -- A name, the id of an IPFS peer and a public key.
  creates_account : Bytes → Bytes → Bytes → Transaction

pub data ContextError : Type 0 where
  no_instance no_voters no_proposer no_payload no_consensus not_decrypted : ContextError
  no_digest not_signed not_split not_sent : ContextError
  no_name no_members no_hash not_updated no_random not_a_member : ContextError
  invalid_change_set not_saved repo_not_updated not_committed access_error : FsError → ContextError

-- `GroupConnection` of client/communication/groupconnection.go, which nothing makes: the call of its
-- constructor is a comment. Of its state, whether its listener was told to stop.
pub record GroupConnection : Type 0 where
  pub stopping : Bool

-- `Kill`.
abbrev pub kill : GroupConnection → GroupConnection
kill conn = record conn { stopping = true }

-- The address book, the network and the contracts are arguments of the methods. A connection that is
-- nil is `none`.
pub record GroupContext : Type 0 where
  pub account : Address
  pub group : Group
  pub p2p : P2PManager
  pub repo : GroupRepo
  pub connection : Option GroupConnection
  pub transactions : List Transaction
  pub proposed_keys : Map Address SymmetricKey
  pub proposed_payloads : Map Address Bytes

-- What a handler returns.
abbrev pub Handled : Type 0
Handled = Result ContextError (Unit {0}) × GroupContext × Disk

-- `approveConsensus`, by the transaction that it adds.
pub approve_consensus : Eth → Address → Result ContextError Approve
approve_consensus eth consensus = do
  digest ← or_fail (eth.digest consensus) no_digest
  sig ← or_fail (eth.sign digest) not_signed
  parts ← or_fail (sig_to_rsv sig) not_split
  if eth.accepts consensus parts
      then ok (record { consensus = consensus; parts = parts })
      else err not_sent

module _ (x : External) (s : Storage) (eth : Eth) where
  -- `Group.Save`.
  unfoldable pub save_group : Codec GroupMeta → Group → Action (Unit {0})
  save_group group_codec g = save_group_meta x group_codec (group_meta g) s

  abbrev pub repo_updated : GroupContext → Repos.RunResult → Handled
  repo_updated ctx (ok _, run, d) = (ok tt, record ctx { repo = run.repo }, d)
  repo_updated ctx (err e, run, d) = (err (repo_not_updated e), record ctx { repo = run.repo }, d)
  repo_updated ctx (panic, run, d) = (panic, record ctx { repo = run.repo }, d)

  abbrev saved : GroupContext → Result FsError (Unit {0}) × Disk → Handled
  saved ctx (ok _, d) = repo_updated ctx (Repos.update x s ctx.group ctx.repo ctx.group.ipfs_hash d)
  saved ctx (err e, d) = (err (not_saved e), ctx, d)
  saved ctx (panic, d) = (panic, ctx, d)

  abbrev group_updated :
      Codec GroupMeta → GroupContext → Result GroupError (Unit {0}) × Group → Disk → Handled
  group_updated group_codec ctx (ok _, g) d =
      saved (record ctx { group = g }) (save_group group_codec g d)
  group_updated group_codec ctx (err _, g) d = (err not_updated, record ctx { group = g }, d)
  group_updated group_codec ctx (panic, g) d = (panic, record ctx { group = g }, d)

  abbrev fetched :
      Codec GroupMeta
      → GroupContext
      → Result ContextError (Bytes × List Address × Bytes)
      → Disk
      → Handled
  fetched group_codec ctx (ok (name, members, hash)) d =
      group_updated group_codec ctx (Groups.update x.box name members hash ctx.group) d
  fetched group_codec ctx (err e) d = (err e, ctx, d)
  fetched group_codec ctx panic d = (panic, ctx, d)

  unfoldable pub contract_state : Result ContextError (Bytes × List Address × Bytes)
  contract_state = do
    name ← or_fail eth.name no_name
    members ← or_fail eth.members no_members
    enc_ipfs_hash ← or_fail eth.ipfs_hash no_hash
    ok (name, members, enc_ipfs_hash)

  -- `Update`.
  unfoldable pub update : Codec GroupMeta → GroupContext → Disk → Handled
  update group_codec ctx d = fetched group_codec ctx contract_state d
