-- ===== src/UserContext.antt =====
-- client/usercontext.go: the state of a signed-in user, and what its methods do to it.
pub mod Invitations
pub mod Joining
pub mod Registration
pub mod Restart
pub mod SignUp
pub mod SigningOut
pub mod Startup
pub mod Callbacks
pub mod Events
pub mod Founding
pub mod Invariant
pub mod Steps
use ipfs_share.Prelude.{
  ℕ, List, [], ◌∷◌, ◌++◌, Bytes, Bool, true, false, not, Option, none, some, ◌==◌, if◌then◌else◌,
  Result, ok, err, panic, or_fail, fail_if, ◌>>=◌, ◌>>◌, nat_eq,
}
use ipfs_share.Crypto.SymmetricKey.{SymmetricKey}
use ipfs_share.Collections.Map.{Map, get, put, delete, v_iterator}
use ipfs_share.Group.{Group}
use ipfs_share.Group as Groups
use ipfs_share.Account.{Account, AccountWorld, new_account, save}
use ipfs_share.Fs.Disk.{Disk, FsError}
use ipfs_share.Fs.Meta.{Address, GroupMeta}
use ipfs_share.Fs.External.{External, Codec}
use ipfs_share.Fs.Storage.{Storage}
use ipfs_share.Fs.Storage as Storages
use ipfs_share.Communication.Server.{CtxCallback}
use ipfs_share.Communication.Manager.{P2PManager}
use ipfs_share.GroupContext.{
  Eth, ContextError, GroupConnection, kill, GroupContext, Handled, Transaction, joins,
  creates_group, creates_account,
}
use ipfs_share.GroupContext.Opening.{GroupContextConfig}

-- What the generated bindings return at the time of a call: the contracts of a group, the account
-- contract of an Ethereum account, zero for none, its name, and whether a transaction can be sent.
pub record Blockchain : Type 0 where
  pub group_at : Address → Option Eth
  pub get_account : Address → Option Address
  pub account_name : Address → Option Bytes
  pub takes_join : Address → Bool
  pub takes_group : Bytes → Bool
  pub takes_account : Bytes → Bytes → Bytes → Bool

-- The rest of what the methods call and the source does not implement: `listens` says whether
-- `NewP2PManager` can listen on its port.
pub record UserWorld : Type 1 where
  pub fs : External
  pub accounts : AccountWorld
  pub group_codec : Codec GroupMeta
  pub ipfs_id : Option Bytes
  pub listens : Bool

-- `Init` sets the account and the P2P manager together.
pub record SignedIn : Type 0 where
  pub account : Account
  pub p2p : P2PManager

-- `owner` is the Ethereum account. The contexts of the groups share the P2P manager and the list of
-- transactions with the user's: `enter` and `leave_with` copy them in and out at each call.
pub record UserContext : Type 0 where
  pub owner : Address
  pub signed_in : Option SignedIn
  pub groups : Map Address GroupContext
  pub transactions : List Transaction
  pub invitations : List Address
  pub storage : Storage

pub data UserError : Type 0 where
  no_group not_a_member no_proposed_key not_invited no_instance not_sent : UserError
  no_ipfs_id no_account no_name not_listening not_decrypted : UserError
  fs_failed : FsError → UserError
  context_failed : ContextError → UserError

-- What a method returns.
abbrev pub UserHandled : Type 0
UserHandled = Result UserError (Unit {0}) × UserContext × Disk

abbrev pub address_of : SignedIn → Address
address_of si = si.account.account_data.contract_address

-- `IsMember`.
unfoldable pub is_member : UserContext → Address → Address → Result UserError (Unit {0})
is_member u group account = do
  ctx ← or_fail (get group u.groups) no_group
  fail_if (not (Groups.is_member account ctx.group)) not_a_member

-- `GetBoxerOfGroup`.
unfoldable pub get_boxer_of_group : UserContext → Address → Result UserError SymmetricKey
get_boxer_of_group u group = do ctx ← or_fail (get group u.groups) no_group; ok ctx.group.boxer

-- `GetProposedBoxerOfGroup`.
unfoldable pub get_proposed_boxer_of_group :
    UserContext → Address → Address → Result UserError SymmetricKey
get_proposed_boxer_of_group u group proposer = do
  ctx ← or_fail (get group u.groups) no_group
  or_fail (get proposer ctx.proposed_keys) no_proposed_key

abbrev pub succeeds : Result UserError (Unit {0}) → Bool
succeeds (ok _) = true
succeeds (err e) = false
succeeds panic = false

abbrev pub value_of : Result UserError SymmetricKey → Option SymmetricKey
value_of (ok k) = some k
value_of (err e) = none
value_of panic = none

-- The user context as the callback of its sessions.
unfoldable pub callback_of : UserContext → CtxCallback
callback_of u = record {
  is_member = λ g a. succeeds (is_member u g a);
  get_boxer_of_group = λ g. value_of (get_boxer_of_group u g);
  get_proposed_boxer_of_group = λ g p. value_of (get_proposed_boxer_of_group u g p);
}

-- A call of a method of a group's context.
abbrev pub enter : UserContext → SignedIn → GroupContext → GroupContext
enter u si ctx = record ctx { p2p = si.p2p; transactions = u.transactions }

abbrev pub context_result : Result ContextError (Unit {0}) → Result UserError (Unit {0})
context_result (ok _) = ok tt
context_result (err e) = err (context_failed e)
context_result panic = panic

abbrev pub leave_with : Address → UserContext → SignedIn → Handled → UserHandled
leave_with group u si (r, ctx, d) = (
  context_result r,
  record u {
    signed_in = some (record si { p2p = ctx.p2p });
    groups = put group (some ctx) u.groups;
    transactions = ctx.transactions;
  },
  d,
)

abbrev pub on_context :
    Address
    → (GroupContext → Disk → Handled)
    → UserContext
    → Disk
    → Option SignedIn
    → Option GroupContext
    → UserHandled
on_context group method u d (some si) (some ctx) = leave_with group u si (method (enter u si ctx) d)
on_context group method u d (some si) none = (err no_group, u, d)
on_context group method u d none found = (err no_group, u, d)

-- An event or a request for a group reaches its context, if the user has one.
unfoldable pub on_group :
    Address → (GroupContext → Disk → Handled) → UserContext → Disk → UserHandled
on_group group method u d = on_context group method u d u.signed_in (get group u.groups)

abbrev pub add_transaction : Transaction → UserContext → UserContext
add_transaction tx u = record u { transactions = u.transactions ++ tx ∷ [] }

abbrev pub sent : Bool → Transaction → UserContext → Result UserError (Unit {0}) × UserContext
sent true tx u = (ok tt, add_transaction tx u)
sent false tx u = (err not_sent, u)

-- `CreateGroup`; the account is nil before `Init`.
abbrev pub with_contract :
    Option SignedIn
    → Result UserError (Unit {0}) × UserContext
    → UserContext
    → Result UserError (Unit {0}) × UserContext
with_contract none r u = (panic, u)
with_contract (some si) r u = r

unfoldable pub create_group :
    Blockchain → Bytes → UserContext → Result UserError (Unit {0}) × UserContext
create_group chain group_name u =
    with_contract u.signed_in (sent (chain.takes_group group_name) (creates_group group_name) u) u

abbrev pub join :
    Blockchain → Address → Option Eth → UserContext → Result UserError (Unit {0}) × UserContext
join chain group none u = (err no_instance, u)
join chain group (some eth) u = sent (chain.takes_join group) (joins group) u

-- The loop of `AcceptInvitation`.
unfoldable pub accept_from :
    Blockchain → Address → List Address → UserContext → Result UserError (Unit {0}) × UserContext
accept_from chain group [] u = (err not_invited, u)
accept_from chain group (other ∷ others) u =
    let rest = accept_from chain group others u in
    if group == other then join chain group (chain.group_at group) u else rest

unfoldable pub accept_invitation :
    Blockchain → Address → UserContext → Result UserError (Unit {0}) × UserContext
unfolding accept_from
accept_invitation chain group u = accept_from chain group u.invitations u

-- `GroupContext.Stop`: `Kill` sends on a channel of the connection, which is a panic at a nil one.
abbrev pub kill_at : GroupContext → Option GroupConnection → Result UserError GroupContext
kill_at ctx none = panic
kill_at ctx (some conn) = ok (record ctx { connection = some (kill conn) })

-- A nil value of the map does not pass the type assertion.
abbrev pub stop : Option GroupContext → Result UserError GroupContext
stop none = panic
stop (some ctx) = kill_at ctx ctx.connection

unfoldable pub stop_all : List (Option GroupContext) → Result UserError (Unit {0})
stop_all [] = ok tt
stop_all (ctx ∷ ctxs) = stop ctx >>= λ _. stop_all ctxs

abbrev pub sign_out_of : UserContext → Option SignedIn → Result UserError (Unit {0})
sign_out_of u none = panic
sign_out_of u (some si) = stop_all (v_iterator u.groups)

-- `SignOut`; its first line reads the account's name. `Save` does nothing.
unfoldable pub sign_out : UserContext → Result UserError (Unit {0})
unfolding stop_all
sign_out u = sign_out_of u u.signed_in

abbrev pub disposed :
    UserContext
    → Map Address GroupContext × Option GroupContext
    → Result UserError (Unit {0}) × UserContext
disposed u (groups, none) = (err no_group, record u { groups = groups })
disposed u (groups, some ctx) = (stop (some ctx) >>= λ _. ok tt, record u { groups = groups })

-- `disposeGroup`.
unfoldable pub dispose_group : Address → UserContext → Result UserError (Unit {0}) × UserContext
dispose_group group u = disposed u (delete group u.groups)

abbrev pub contexts : List (Option GroupContext) → List GroupContext
contexts [] = []
contexts (none ∷ cs) = contexts cs
contexts (some c ∷ cs) = c ∷ contexts cs

-- `Groups`.
pub groups : UserContext → List GroupContext
groups u = contexts (v_iterator u.groups)
