-- ===== src/GroupContext/Opening.antt =====
-- `NewGroupContext` of client/groupcontext.go. The event handlers that it starts are steps of their
-- own; the P2P manager and the list of transactions are the user's.
use ipfs_share.Prelude.{none, List, Bytes, Result, ok, err, panic}
use ipfs_share.Collections.Map.{new_concurrent_map}
use ipfs_share.Group.{Group}
use ipfs_share.Fs.Disk.{Disk, FsError}
use ipfs_share.Fs.Meta.{Address}
use ipfs_share.Fs.External.{External}
use ipfs_share.Fs.Storage.{Storage}
use ipfs_share.Fs.Repo.{GroupRepo}
use ipfs_share.Fs.Repo.Opening.{new_group_repo}
use ipfs_share.Communication.Manager.{P2PManager}
use ipfs_share.GroupContext.{GroupContext, Transaction}

-- `GroupContextConfig`, by what the context keeps of it as its own state.
pub record GroupContextConfig : Type 0 where
  pub group : Group
  pub account : Address
  pub p2p : P2PManager
  pub transactions : List Transaction

-- The context of a new repository.
abbrev pub context_of : GroupContextConfig → GroupRepo → GroupContext
context_of config repo = record {
  account = config.account;
  group = config.group;
  p2p = config.p2p;
  repo = repo;
  connection = none;
  transactions = config.transactions;
  proposed_keys = new_concurrent_map;
  proposed_payloads = new_concurrent_map;
}

abbrev pub with_repo :
    GroupContextConfig → Result FsError GroupRepo × Disk → Result FsError GroupContext × Disk
with_repo config (ok repo, d) = (ok (context_of config repo), d)
with_repo config (err e, d) = (err e, d)
with_repo config (panic, d) = (panic, d)

-- `NewGroupContext`, with the nonce of the repository's first box.
unfoldable pub new_group_context :
    External → Storage → GroupContextConfig → Bytes → Disk → Result FsError GroupContext × Disk
new_group_context x s config nonce d =
    with_repo config (new_group_repo x s config.group config.account nonce d)
