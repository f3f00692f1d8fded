-- ===== src/UserContext/Events.antt =====
-- client/events.go: what a user does about the events of the blockchain, and with the key of a group
-- that a session delivers. The source logs the errors that the results carry here.
use ipfs_share.Prelude.{
  ℕ, List, [], ◌∷◌, ◌++◌, Bytes, not, Option, none, some, ◌==◌, if◌then◌else◌, Result, ok, err,
  panic, nat_eq,
}
use ipfs_share.Crypto.SymmetricKey.{SymmetricKey, box_seal}
use ipfs_share.Collections.Map.{get, put}
use ipfs_share.Group.{Group, GroupError, new_group, set_ipfs_hash}
use ipfs_share.Account.{Account, new_account_from_storage, set_contract}
use ipfs_share.Fs.Disk.{Disk, FsError}
use ipfs_share.Fs.Meta.{Address, GroupMeta}
use ipfs_share.Fs.Storage.{save_group_meta}
use ipfs_share.Communication.Message.{Contact, Network}
use ipfs_share.GroupContext.{Eth, GroupContext, save_group}
use ipfs_share.GroupContext.Events.{ask_key}
use ipfs_share.GroupContext.Opening.{new_group_context}
use ipfs_share.UserContext.{
  Blockchain, UserWorld, SignedIn, UserContext, UserHandled, no_instance, no_name, not_decrypted,
  fs_failed, address_of,
}
use ipfs_share.UserContext.Startup.{config_of, open_group, rebound}

-- `onGroupInvitation`; its log line reads the account's name, which is nil before `Init`.
unfoldable pub on_group_invitation : Address → UserContext → UserContext
on_group_invitation group u = record u { invitations = u.invitations ++ group ∷ [] }

module _ (n : Network) (book : Address → Option Contact) (session_id : Address → ℕ) where
  abbrev pub ask_members : Address → UserContext → SignedIn → Option (List Address) → UserContext
  ask_members group u si none = u
  ask_members group u si (some members) = record u {
    signed_in =
        some (record si { p2p = ask_key n book session_id group (address_of si) members si.p2p });
  }

  abbrev pub ask_group : Address → UserContext → SignedIn → Option Eth → UserContext
  ask_group group u si none = u
  ask_group group u si (some eth) = ask_members group u si eth.members

  abbrev pub for_account :
      Blockchain → Address → Address → UserContext → Option SignedIn → UserContext
  for_account chain account group u none = u
  for_account chain account group u (some si) =
      if not (account == address_of si) then u else ask_group group u si (chain.group_at group)

  -- `onInvitationAccepted`, for the account and the group of the event.
  unfoldable pub on_invitation_accepted : Blockchain → Address → Address → UserContext → UserContext
  on_invitation_accepted chain account group u = for_account chain account group u u.signed_in

module _ (w : UserWorld) (chain : Blockchain) where
  abbrev pub meta_saved :
      GroupMeta → Bytes → UserContext → SignedIn → Result FsError (Unit {0}) × Disk → UserHandled
  meta_saved m nonce u si (ok _, d) = open_group w chain u si m nonce d (chain.group_at m.address)
  meta_saved m nonce u si (err e, d) = (err (fs_failed e), u, d)
  meta_saved m nonce u si (panic, d) = (panic, u, d)

  abbrev pub on_new_key :
      GroupMeta → Bytes → UserContext → Disk → Option SignedIn → Option GroupContext → UserHandled
  on_new_key m nonce u d (some si) none =
      meta_saved m nonce u si (save_group_meta w.fs w.group_codec m u.storage d)
  on_new_key m nonce u d none none = (panic, u, d)
  on_new_key m nonce u d si (some exists) = (ok tt, u, d)

  -- `onGetKeySuccess`, with the nonce of the repository's first box. Sessions, which call it, are
  -- started after `Init` only.
  unfoldable pub on_get_key_success :
      Address → SymmetricKey → Bytes → UserContext → Disk → UserHandled
  on_get_key_success group boxer nonce u d =
      on_new_key (record { address = group; boxer = boxer }) nonce u d u.signed_in
        (get group u.groups)

  abbrev pub group_saved :
      Address → GroupContext → UserContext → Result FsError (Unit {0}) × Disk → UserHandled
  group_saved group ctx u (ok _, d) =
      (ok tt, record u { groups = put group (some ctx) u.groups }, d)
  group_saved group ctx u (err e, d) = (err (fs_failed e), u, d)
  group_saved group ctx u (panic, d) = (panic, u, d)

  abbrev pub hash_set :
      Address
      → Eth
      → GroupContext
      → UserContext
      → Disk
      → Result GroupError (Unit {0}) × Group
      → UserHandled
  hash_set group eth ctx u d (ok _, g) =
      group_saved group (record ctx { group = g }) u
        (save_group w.fs u.storage eth w.group_codec g d)
  hash_set group eth ctx u d (err e, g) = (err not_decrypted, u, d)
  hash_set group eth ctx u d (panic, g) = (panic, u, d)

  abbrev pub context_made :
      Address → Eth → Bytes → UserContext → Result FsError GroupContext × Disk → UserHandled
  context_made group eth nonce u (ok ctx, d) = hash_set group eth ctx u d (
      set_ipfs_hash w.fs.box (box_seal w.fs.box ctx.group.boxer nonce ctx.repo.ipfs_hash) ctx.group)
  context_made group eth nonce u (err e, d) = (err (fs_failed e), u, d)
  context_made group eth nonce u (panic, d) = (panic, u, d)

  abbrev pub group_named :
      Address
      → Eth
      → SymmetricKey
      → Bytes × Bytes
      → UserContext
      → SignedIn
      → Disk
      → Option Bytes
      → UserHandled
  group_named group eth boxer nonces u si d none = (err no_name, u, d)
  group_named group eth boxer (nonce, nonce') u si d (some name) =
      context_made group eth nonce' u
        (new_group_context w.fs u.storage (config_of u si (new_group group name boxer)) nonce d)

  abbrev pub group_bound :
      Address
      → SymmetricKey
      → Bytes × Bytes
      → UserContext
      → SignedIn
      → Disk
      → Option Eth
      → UserHandled
  group_bound group boxer nonces u si d none = (err no_instance, u, d)
  group_bound group boxer nonces u si d (some eth) =
      group_named group eth boxer nonces u si d eth.name

  abbrev pub created_by :
      Address
      → Address
      → SymmetricKey
      → Bytes × Bytes
      → UserContext
      → Disk
      → Option SignedIn
      → UserHandled
  created_by account group boxer nonces u d none = (panic, u, d)
  created_by account group boxer nonces u d (some si) =
      if not (account == address_of si)
      then (ok tt, u, d)
      else group_bound group boxer nonces u si d (chain.group_at group)

  -- `onGroupCreated`, for the account and the group of the event, with the key that the group draws
  -- and the nonces of the two boxes.
  unfoldable pub on_group_created :
      Address → Address → SymmetricKey → Bytes × Bytes → UserContext → Disk → UserHandled
  on_group_created account group boxer nonces u d =
      created_by account group boxer nonces u d u.signed_in

  module _ (nonce : Address → Bytes) where
    abbrev pub account_loaded : Address → UserContext → Result FsError Account × Disk → UserHandled
    account_loaded address u (ok acc, d) =
        rebound w chain nonce u (set_contract w.accounts address acc) d
    account_loaded address u (err e, d) = (err (fs_failed e), u, d)
    account_loaded address u (panic, d) = (panic, u, d)

    -- `onAccountCreated`, for the owner and the account of the event.
    unfoldable pub on_account_created : Address → Address → UserContext → Disk → UserHandled
    on_account_created owner account u d =
        if not (owner == u.owner)
        then (ok tt, u, d)
        else account_loaded account u (new_account_from_storage w.accounts u.storage d)
