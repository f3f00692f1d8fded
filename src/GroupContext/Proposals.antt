-- ===== src/GroupContext/Proposals.antt =====
-- What a member does about a new proposal.
use ipfs_share.Prelude.{
  ℕ, ◌≡◌, refl, sym, ◌∙◌, ap, List, [], ◌∷◌, ◌++◌, Bytes, true, false, Option, none, some, ok,
  or_fail, if◌then◌else◌, nat_eq, ==_iff, ◌==◌, Bool-cases, inl, inr,
}
use mathlib.Core.List.{append_assoc, append-nil}
use ipfs_share.Collections.Map.{get}
use ipfs_share.Collections.Map.Laws.{get-put}
use ipfs_share.Fs.Meta.{Address}
use ipfs_share.Communication.Message.{Contact, Network, get_proposed_group_key, book_get}
use ipfs_share.Communication.Client.{new_client}
use ipfs_share.Communication.Manager.{
  Session, client_session, P2PManager, start_get_proposed_group_key_session, add_and_run,
}
use ipfs_share.GroupContext.{Eth, GroupContext}
use ipfs_share.GroupContext.Events.{
  ask_proposed, with_contact, read_consensus, new_proposal, on_new_consensus,
}

module _ (n : Network) (book : Address → Option Contact) (session_id : Address → ℕ) where
  -- A session with a member, for the key that the member itself has proposed.
  abbrev pub ask_member : Address → Address → Address → Option Contact → List Session
  ask_member group account member none = []
  ask_member group account member (some c) =
      client_session (
        new_client get_proposed_group_key group (n.address_bytes member) c account
          (session_id member))
      ∷ []

  -- One with each of the other members that the address book knows.
  abbrev pub asked : Address → Address → List Address → List Session
  asked group account [] = []
  asked group account (member ∷ members) =
      if member == account
      then asked group account members
      else ask_member group account member (book member) ++ asked group account members

  with_contact-objects :
      (group account member : Address) (c : Option Contact) (m : P2PManager)
      → (with_contact c
          (λ c' p.
            start_get_proposed_group_key_session n group member c' account (session_id member) p)
          m).objects
        ≡ m.objects ++ ask_member group account member c
  unfolding start_get_proposed_group_key_session add_and_run
  with_contact-objects group account member none m = sym (append-nil m.objects)
  with_contact-objects group account member (some c) m = refl

  ask_proposed-objects :
      (group account : Address) (members : List Address) (m : P2PManager)
      → (ask_proposed n book session_id group account members m).objects
        ≡ m.objects ++ asked group account members
  unfolding ask_proposed book_get
  ask_proposed-objects group account [] m = sym (append-nil m.objects)
  ask_proposed-objects group account (member ∷ members) m = elim (Bool-cases (member == account)) [
    | inl own ↦ rw own (ask_proposed-objects group account members m)
    | inr other ↦ rw other (
        ask_proposed-objects group account members m'
        ∙ ap (λ os. os ++ asked group account members)
            (with_contact-objects group account member (book member) m)
        ∙ append_assoc m.objects (ask_member group account member (book member))
            (asked group account members))
  ]
    where
      m' : P2PManager
      m' =
          with_contact (book member)
            (λ c p.
              start_get_proposed_group_key_session n group member c account (session_id member) p)
            m

  -- For a proposal of another account whose consensus the contracts give, the payload is stored
  -- under the proposer, and one session is started with each other member that the address book
  -- knows, for the key that this member has proposed itself.
  pub on_new_consensus_lem :
      (eth : Eth) (consensus group proposer : Address) (voters : List Address) (payload : Bytes)
      (ctx : GroupContext)
      → eth.new_consensus consensus ≡ true
      → eth.members_that_approved consensus ≡ some voters
      → eth.proposer consensus ≡ some proposer
      → (proposer == ctx.account) ≡ false
      → eth.payload consensus ≡ some payload
      → let ctx' = on_new_consensus n book session_id eth consensus group ctx in
        (get proposer ctx'.proposed_payloads ≡ some payload)
        × (ctx'.p2p.objects ≡ ctx.p2p.objects ++ asked group ctx.account ctx.group.members)
  unfolding on_new_consensus read_consensus
  on_new_consensus_lem eth consensus group proposer voters payload ctx made voted by other has = (
    ap (λ (c : GroupContext). get proposer c.proposed_payloads) handled
        ∙ get-put proposer proposer (some payload) ctx.proposed_payloads
        ∙ rw ((==_iff proposer proposer).1 refl) refl,
    ap (λ (c : GroupContext). c.p2p.objects) handled
        ∙ ask_proposed-objects group ctx.account ctx.group.members ctx.p2p,
  )
    where
      read :
          read_consensus n book session_id eth ctx.account consensus ≡ ok (proposer, some payload)
      read =
          rw (made, read_consensus)
            (rw (voted, or_fail) (rw (by, or_fail) (rw (other, or_fail) (rw (has, or_fail) refl))))

      handled :
          on_new_consensus n book session_id eth consensus group ctx
          ≡ new_proposal n book session_id group ctx (ok (proposer, some payload))
      handled = ap (new_proposal n book session_id group ctx) read
