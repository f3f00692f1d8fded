-- ===== src/UserContext/Steps.antt =====
-- How a user context goes on: requests of the user, events of the blockchain, keys that sessions
-- deliver, and the methods of the groups' contexts, in whatever order. Every lock is held within a
-- step.
use ipfs_share.Prelude.{ℕ, Bytes, Bool, Option, Result}
use ipfs_share.Crypto.SymmetricKey.{SymmetricKey}
use ipfs_share.Fs.Disk.{Disk}
use ipfs_share.Fs.Meta.{Address, GroupMeta}
use ipfs_share.Fs.External.{External, Codec}
use ipfs_share.Fs.Storage.{Storage}
use ipfs_share.Fs.Repo.Commit.{Draws}
use ipfs_share.Communication.Message.{Contact, Network}
use ipfs_share.GroupContext.{Eth, GroupContext, Handled, update}
use ipfs_share.GroupContext.Events.{
  on_new_consensus, on_group_invitation_accepted, on_get_proposed_key_success, on_ipfs_hash_changed,
  on_get_key_success,
}
use ipfs_share.GroupContext.Commit.{leave, invite, commit_changes}
use ipfs_share.GroupContext.Access.{grant, revoke}
use ipfs_share.UserContext.{
  Blockchain, UserWorld, UserContext, on_group, create_group, accept_invitation,
}
use ipfs_share.UserContext.SignUp.{sign_up}
use ipfs_share.UserContext.Startup.{new_user_context}
use ipfs_share.UserContext.Events.{
  on_group_invitation, on_invitation_accepted, on_group_created, on_account_created,
}
use ipfs_share.UserContext.Events as Events

-- A method whose result is not needed later: the disk stays.
abbrev pub beside : Disk → GroupContext → Handled
beside d ctx = (Result.ok tt, ctx, d)

-- The methods of a group's context that a request or an event runs.
pub data GroupMethod (x : External) (c : Codec GroupMeta)
    : (GroupContext → Disk → Handled) → Type 0 where
  commits :
      (s : Storage) (eth : Eth) (key : Option Bytes) (nonce nonce' : Bytes) (draws : Draws)
      → GroupMethod x c (commit_changes x s eth key nonce nonce' draws)
  grants :
      (s : Storage) (path : Bytes) (a : Address) (key : Option Bytes)
      → GroupMethod x c (grant x s path a key)
  revokes :
      (s : Storage) (path : Bytes) (a : Address) (key : Option Bytes)
      → GroupMethod x c (revoke x s path a key)
  leaves_group :
      (eth : Eth) → GroupMethod x c (λ ctx d. let (r, ctx') = leave eth ctx in (r, ctx', d))
  invites_member :
      (eth : Eth) (a : Address) (b : Bool)
      → GroupMethod x c (λ ctx d. let (r, ctx') = invite eth a b ctx in (r, ctx', d))
  updates : (s : Storage) (eth : Eth) → GroupMethod x c (update x s eth c)
  hears_acceptance :
      (account : Address)
      → GroupMethod x c (λ ctx d. beside d (on_group_invitation_accepted account ctx))
  hears_proposal :
      (n : Network) (book : Address → Option Contact) (session_id : Address → ℕ) (eth : Eth)
      (consensus group : Address)
      → GroupMethod x c
          (λ ctx d. beside d (on_new_consensus n book session_id eth consensus group ctx))
  gets_proposed_key :
      (s : Storage) (eth : Eth) (proposer : Address) (k : SymmetricKey)
      → GroupMethod x c (on_get_proposed_key_success x s eth proposer k)
  hears_hash :
      (n : Network) (book : Address → Option Contact) (session_id : Address → ℕ) (s : Storage)
      (eth : Eth) (group proposer : Address)
      → GroupMethod x c (on_ipfs_hash_changed n book session_id x s eth c group proposer)
  gets_key :
      (n : Network) (book : Address → Option Contact) (session_id : Address → ℕ) (s : Storage)
      (eth : Eth) (k : SymmetricKey)
      → GroupMethod x c (on_get_key_success n book session_id x s eth c k)

module _ (w : UserWorld) where
  pub data Step : UserContext → UserContext → Type 0 where
    signs_up :
        (chain : Blockchain) (username : Bytes) (secret : Option Bytes) (u : UserContext) (d : Disk)
        → Step u (sign_up w chain username secret u d).1
    creates :
        (chain : Blockchain) (name : Bytes) (u : UserContext) → Step u (create_group chain name u).1
    accepts :
        (chain : Blockchain) (group : Address) (u : UserContext)
        → Step u (accept_invitation chain group u).1
    is_invited : (group : Address) (u : UserContext) → Step u (on_group_invitation group u)
    joins :
        (n : Network) (book : Address → Option Contact) (session_id : Address → ℕ)
        (chain : Blockchain) (account group : Address) (u : UserContext)
        → Step u (on_invitation_accepted n book session_id chain account group u)
    gets_group_key :
        (chain : Blockchain) (group : Address) (k : SymmetricKey) (nonce : Bytes) (u : UserContext)
        (d : Disk)
        → Step u (Events.on_get_key_success w chain group k nonce u d).1
    has_created :
        (chain : Blockchain) (account group : Address) (k : SymmetricKey) (nonces : Bytes × Bytes)
        (u : UserContext) (d : Disk)
        → Step u (on_group_created w chain account group k nonces u d).1
    is_registered :
        (chain : Blockchain) (nonce : Address → Bytes) (owner account : Address) (u : UserContext)
        (d : Disk)
        → Step u (on_account_created w chain nonce owner account u d).1
    acts :
        (method : GroupContext → Disk → Handled) (group : Address) (u : UserContext) (d : Disk)
        → GroupMethod w.fs w.group_codec method
        → Step u (on_group group method u d).1

  -- What a new user context can become.
  pub data Reach : UserContext → Type 0 where
    starts :
        (chain : Blockchain) (nonce : Address → Bytes) (owner : Address) (home : Bytes) (d : Disk)
        → Reach (new_user_context w chain nonce owner home d).1
    goes_on : {u u' : UserContext} → Reach u → Step u u' → Reach u'
