-- ===== src/GroupContext/Events.antt =====
-- client/groupevents.go: what a member does about a proposal of another one, about a key that a session
-- delivers, and when the group's hash changes. The source logs the errors that the results carry here.
use ipfs_share.Prelude.{
  ℕ, List, [], ◌∷◌, ◌++◌, Bytes, bytes_equal, not, Option, none, some, ◌==◌, if◌then◌else◌, Result,
  ok, err, panic, or_fail, ◌>>=◌, nat_eq,
}
use ipfs_share.Crypto.SymmetricKey.{SymmetricKey, box_open}
use ipfs_share.Collections.Map.{get, put}
use ipfs_share.Group.{set_boxer, add_member}
use ipfs_share.Fs.Disk.{Disk, FsError}
use ipfs_share.Fs.Meta.{Address, GroupMeta}
use ipfs_share.Fs.External.{External, Codec}
use ipfs_share.Fs.Storage.{Storage}
use ipfs_share.Fs.Repo.{is_valid_change_set}
use ipfs_share.Communication.Message.{Contact, Network, book_get}
use ipfs_share.Communication.Manager.{
  P2PManager, start_get_group_key_session, start_get_proposed_group_key_session,
}
use ipfs_share.GroupContext.{
  Eth, ContextError, no_instance, no_voters, no_proposer, no_payload, no_consensus, not_decrypted,
  invalid_change_set, GroupContext, Handled, Approve, approves, approve_consensus, update,
}

-- `ethcons.NewConsensus`.
abbrev pub instance_at : Eth → Address → Result ContextError Address
instance_at eth a = if eth.new_consensus a then ok a else err no_instance

module _ (x : External) (s : Storage) (eth : Eth) where
  -- The part of `onGetProposedKeySuccess` before the check of the change set: the consensus that the
  -- proposer has now, and the hash in the payload that was stored.
  unfoldable pub proposal :
      Address → SymmetricKey → GroupContext → Result ContextError (Address × Bytes)
  proposal proposer boxer ctx = do
    payload ← or_fail (get proposer ctx.proposed_payloads) no_payload
    address ← or_fail (eth.get_consensus proposer) no_consensus
    consensus ← instance_at eth address
    ipfs_hash ← or_fail (box_open x.box boxer payload) not_decrypted
    ok (consensus, ipfs_hash)

  abbrev pub approved : Address → GroupContext → Result ContextError Approve → Disk → Handled
  approved proposer ctx (ok tx) d = (
    ok tt,
    record ctx {
      transactions = ctx.transactions ++ approves tx ∷ [];
      proposed_payloads = put proposer none ctx.proposed_payloads;
    },
    d,
  )
  approved proposer ctx (err e) d = (err e, ctx, d)
  approved proposer ctx panic d = (panic, ctx, d)

  abbrev pub validated :
      Address → Address → GroupContext → Result FsError (Unit {0}) × Disk → Handled
  validated proposer consensus ctx (ok _, d) =
      approved proposer ctx (approve_consensus eth consensus) d
  validated proposer consensus ctx (err e, d) = (err (invalid_change_set e), ctx, d)
  validated proposer consensus ctx (panic, d) = (panic, ctx, d)

  abbrev pub checked :
      Address → SymmetricKey → GroupContext → Result ContextError (Address × Bytes) → Disk → Handled
  checked proposer boxer ctx (ok (consensus, hash)) d =
      validated proposer consensus ctx (is_valid_change_set x s ctx.repo hash boxer proposer d)
  checked proposer boxer ctx (err e) d = (err e, ctx, d)
  checked proposer boxer ctx panic d = (panic, ctx, d)

  -- `onGetProposedKeySuccess`.
  unfoldable pub on_get_proposed_key_success :
      Address → SymmetricKey → GroupContext → Disk → Handled
  on_get_proposed_key_success proposer boxer ctx d =
      let ctx' = record ctx { proposed_keys = put proposer (some boxer) ctx.proposed_keys } in
      checked proposer boxer ctx' (proposal proposer boxer ctx') d

-- One round of a loop that starts sessions with the other members; `session_id` is what
-- `rand.Uint32` gives for each of them.
abbrev pub with_contact :
    Option Contact → (Contact → P2PManager → P2PManager) → P2PManager → P2PManager
with_contact none f m = m
with_contact (some c) f m = f c m

module _ (n : Network) (book : Address → Option Contact) (session_id : Address → ℕ) where
  -- The loop of `onNewConsensus`: every other member is asked for the key that it has proposed
  -- itself.
  unfoldable pub ask_proposed : Address → Address → List Address → P2PManager → P2PManager
  ask_proposed group account [] m = m
  ask_proposed group account (member ∷ members) m =
      let m' =
        with_contact (book_get n book member)
          (λ c p.
            start_get_proposed_group_key_session n group member c account (session_id member) p)
          m in
      if member == account
      then ask_proposed group account members m
      else ask_proposed group account members m'

  -- The loop of `onIpfsHashChanged`.
  unfoldable pub ask_key : Address → Address → List Address → P2PManager → P2PManager
  ask_key group account [] m = m
  ask_key group account (member ∷ members) m =
      let m' =
        with_contact (book_get n book member)
          (λ c p. start_get_group_key_session group c account (session_id member) p) m in
      if member == account
      then ask_key group account members m
      else ask_key group account members m'

  -- The reads of `onNewConsensus`: the proposer, and the payload unless the proposal is one's own.
  unfoldable pub read_consensus :
      Eth → Address → Address → Result ContextError (Address × Option Bytes)
  read_consensus eth account address = do
    consensus ← instance_at eth address
    voters ← or_fail (eth.members_that_approved consensus) no_voters
    proposer ← or_fail (eth.proposer consensus) no_proposer
    if proposer == account
        then ok (proposer, none)
        else (or_fail (eth.payload consensus) no_payload >>= λ p. ok (proposer, some p))

  abbrev pub new_proposal :
      Address → GroupContext → Result ContextError (Address × Option Bytes) → GroupContext
  new_proposal group ctx (ok (proposer, some payload)) = record ctx {
    proposed_payloads = put proposer (some payload) ctx.proposed_payloads;
    p2p = ask_proposed group ctx.account ctx.group.members ctx.p2p;
  }
  new_proposal group ctx (ok (proposer, none)) = ctx
  new_proposal group ctx (err e) = ctx
  new_proposal group ctx panic = ctx

  -- `onNewConsensus`, for the consensus and the group of the event.
  unfoldable pub on_new_consensus : Eth → Address → Address → GroupContext → GroupContext
  on_new_consensus eth consensus group ctx =
      new_proposal group ctx (read_consensus eth ctx.account consensus)

  abbrev pub with_key :
      (GroupContext → Disk → Handled)
      → Address
      → GroupContext
      → Disk
      → Option SymmetricKey
      → Handled
  with_key refresh group ctx d (some key) =
      refresh (record ctx { group = set_boxer key ctx.group }) d
  with_key refresh group ctx d none =
      (ok tt, record ctx { p2p = ask_key group ctx.account ctx.group.members ctx.p2p }, d)

  -- `onIpfsHashChanged`, for the group and the proposer of the event.
  unfoldable pub on_ipfs_hash_changed :
      External → Storage → Eth → Codec GroupMeta → Address → Address → GroupContext → Disk → Handled
  on_ipfs_hash_changed x s eth group_codec group proposer ctx d =
      if not (group == ctx.group.address)
      then (ok tt, ctx, d)
      else with_key (update x s eth group_codec) group ctx d (get proposer ctx.proposed_keys)

  -- What a session that this has started calls with the key it got.
  unfoldable pub on_get_key_success :
      External → Storage → Eth → Codec GroupMeta → SymmetricKey → GroupContext → Disk → Handled
  on_get_key_success x s eth group_codec new_boxer ctx d =
      if bytes_equal ctx.group.boxer.key new_boxer.key
      then (ok tt, ctx, d)
      else update x s eth group_codec (record ctx { group = set_boxer new_boxer ctx.group }) d

-- What `HandleGroupInvitationAcceptedEvents` does about an event: its account is a member now.
unfoldable pub on_group_invitation_accepted : Address → GroupContext → GroupContext
on_group_invitation_accepted account ctx = record ctx { group = add_member account ctx.group }
