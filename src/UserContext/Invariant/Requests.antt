-- ===== src/UserContext/Invariant/Requests.antt =====
-- The requests of the user, and the methods of the groups' contexts, keep the invariant.
use mathlib.Core.List.{append-nil}
use ipfs_share.Prelude.{
  ℕ, ◌≡◌, refl, sym, ◌∙◌, List, [], ◌∷◌, Bytes, Bool, true, false, not, Option, none, some, ◌==◌,
  Result, ok, err, panic, Bool-cases, inl, inr, nat_eq,
}
use ipfs_share.Collections.Map.{get}
use ipfs_share.Account.{Account, new_account, save}
use ipfs_share.Fs.Disk.{Disk, FsError}
use ipfs_share.Fs.Meta.{Address}
use ipfs_share.Fs.Storage as Storages
use ipfs_share.Communication.Message.{Contact, Network}
use ipfs_share.GroupContext.{
  Eth, GroupContext, Handled, Transaction, joins, creates_group, creates_account,
}
use ipfs_share.GroupContext.Access.{grant, revoke}
use ipfs_share.Fs.File.{grant_write_access, revoke_write_access}
use ipfs_share.GroupContext.Frame.{
  Keeps, update-Keeps, on_get_proposed_key_success-Keeps, on_new_consensus-Keeps,
  on_group_invitation_accepted-Keeps, on_ipfs_hash_changed-Keeps, on_get_key_success-Keeps,
}
use ipfs_share.GroupContext.Frame.Requests.{
  leave-Keeps, invite-Keeps, commit_changes-Keeps, change_access-Keeps,
}
use ipfs_share.UserContext.{
  Blockchain, UserWorld, SignedIn, UserContext, UserError, enter, leave_with, on_context, on_group,
  sent, with_contract, create_group, join, accept_from, accept_invitation, address_of,
}
use ipfs_share.UserContext.SignUp.{registering, registered, sign_up_with, sign_up}
use ipfs_share.UserContext.Events.{
  on_group_invitation, ask_members, ask_group, for_account, on_invitation_accepted,
}
use ipfs_share.UserContext.Steps.{
  GroupMethod, hears_acceptance, commits, grants, revokes, leaves_group, invites_member, updates,
  hears_proposal, gets_proposed_key, hears_hash, gets_key,
}
use ipfs_share.UserContext.Invariant.{
  put-AreFiled, Evolves, filed_again, Evolves-refl, Evolves-trans,
}

GroupMethod-Keeps :
    (w : UserWorld) (method : GroupContext → Disk → Handled)
    → GroupMethod w.fs w.group_codec method
    → (ctx : GroupContext) (d : Disk) → Keeps ctx (method ctx d).1
unfolding grant revoke
GroupMethod-Keeps w m (commits s eth key nonce nonce' draws) ctx d =
    commit_changes-Keeps w.fs s eth key nonce nonce' draws ctx d
GroupMethod-Keeps w m (grants s path a key) ctx d =
    change_access-Keeps w.fs s (grant_write_access w.fs) path a key ctx d
GroupMethod-Keeps w m (revokes s path a key) ctx d =
    change_access-Keeps w.fs s (revoke_write_access w.fs) path a key ctx d
GroupMethod-Keeps w m (leaves_group eth) ctx d = leave-Keeps eth ctx
GroupMethod-Keeps w m (invites_member eth a b) ctx d = invite-Keeps eth a b ctx
GroupMethod-Keeps w m (updates s eth) ctx d = update-Keeps w.fs s eth w.group_codec ctx d
GroupMethod-Keeps w m (hears_acceptance a) ctx d = on_group_invitation_accepted-Keeps a ctx
GroupMethod-Keeps w m (hears_proposal n book session_id eth c g) ctx d =
    on_new_consensus-Keeps n book session_id eth c g ctx
GroupMethod-Keeps w m (gets_proposed_key s eth p k) ctx d =
    on_get_proposed_key_success-Keeps w.fs s eth p k ctx d
GroupMethod-Keeps w m (hears_hash n book session_id s eth g p) ctx d =
    on_ipfs_hash_changed-Keeps n book session_id w.fs s eth w.group_codec g p ctx d
GroupMethod-Keeps w m (gets_key n book session_id s eth k) ctx d =
    on_get_key_success-Keeps n book session_id w.fs s eth w.group_codec k ctx d

-- The requests.
sent-Evolves : (b : Bool) (tx : Transaction) (u : UserContext) → Evolves u (sent b tx u).1
sent-Evolves true tx u = record {
  files = λ f. f;
  owner = refl;
  sent = tx ∷ [];
  transactions = refl;
  received = [];
  invitations = sym (append-nil u.invitations);
}
sent-Evolves false tx u = Evolves-refl u

with_contract-Evolves :
    (o : Option SignedIn) (r : Result UserError (Unit {0}) × UserContext) (u : UserContext)
    → Evolves u r.1
    → Evolves u (with_contract o r u).1
with_contract-Evolves none r u e = Evolves-refl u
with_contract-Evolves (some si) r u e = e

pub create_group-Evolves :
    (chain : Blockchain) (name : Bytes) (u : UserContext) → Evolves u (create_group chain name u).1
unfolding create_group
create_group-Evolves chain name u =
    with_contract-Evolves u.signed_in (sent (chain.takes_group name) (creates_group name) u) u
      (sent-Evolves (chain.takes_group name) (creates_group name) u)

join-Evolves :
    (chain : Blockchain) (group : Address) (o : Option Eth) (u : UserContext)
    → Evolves u (join chain group o u).1
join-Evolves chain group none u = Evolves-refl u
join-Evolves chain group (some eth) u = sent-Evolves (chain.takes_join group) (joins group) u

accept_from-Evolves :
    (chain : Blockchain) (group : Address) (l : List Address) (u : UserContext)
    → Evolves u (accept_from chain group l u).1
unfolding accept_from
accept_from-Evolves chain group [] u = Evolves-refl u
accept_from-Evolves chain group (a ∷ l) u = elim (Bool-cases (group == a)) [
  | inl here ↦ rw here (join-Evolves chain group (chain.group_at group) u)
  | inr later ↦ rw later (accept_from-Evolves chain group l u)
]

pub accept_invitation-Evolves :
    (chain : Blockchain) (group : Address) (u : UserContext)
    → Evolves u (accept_invitation chain group u).1
unfolding accept_invitation
accept_invitation-Evolves chain group u = accept_from-Evolves chain group u.invitations u

registering-Evolves :
    (w : UserWorld) (chain : Blockchain) (acc : Account) (u : UserContext) (d : Disk)
    (o : Option Bytes)
    → Evolves u (registering w chain acc u d o).1
registering-Evolves w chain acc u d none = Evolves-refl u
registering-Evolves w chain acc u d (some id) =
    let name = acc.account_data.name in
    let key = acc.account_data.boxer.public_key in
    sent-Evolves (chain.takes_account name id key) (creates_account name id key) u

registered-Evolves :
    (w : UserWorld) (chain : Blockchain) (acc : Account) (u : UserContext)
    (r : Result FsError (Unit {0}) × Disk)
    → Evolves u (registered w chain acc u r).1
registered-Evolves w chain acc u (ok _, d) = registering-Evolves w chain acc u d w.ipfs_id
registered-Evolves w chain acc u (err e, d) = Evolves-refl u
registered-Evolves w chain acc u (panic, d) = Evolves-refl u

-- The storage is no part of the invariant.
with_storage :
    {u u' v : UserContext}
    → u'.groups ≡ u.groups
    → u'.owner ≡ u.owner
    → u'.transactions ≡ u.transactions
    → u'.invitations ≡ u.invitations
    → Evolves u' v
    → Evolves u v
with_storage g o t i e = Evolves-trans (filed_again (λ f. rw g f) o t i) e

sign_up_with-Evolves :
    (w : UserWorld) (chain : Blockchain) (o : Option Account) (name : Bytes) (u : UserContext)
    (d : Disk)
    → Evolves u (sign_up_with w chain o name u d).1
sign_up_with-Evolves w chain none name u d = Evolves-refl u
sign_up_with-Evolves w chain (some acc) name u d =
    let u' : UserContext = record u { storage = Storages.init name u.storage } in
    with_storage {u = u} {u' = u'} refl refl refl refl
      (registered-Evolves w chain acc u' (save w.accounts acc u'.storage d))

pub sign_up-Evolves :
    (w : UserWorld) (chain : Blockchain) (name : Bytes) (secret : Option Bytes) (u : UserContext)
    (d : Disk)
    → Evolves u (sign_up w chain name secret u d).1
unfolding sign_up
sign_up-Evolves w chain name secret u d =
    sign_up_with-Evolves w chain (new_account w.accounts name secret) name u d

pub on_group_invitation-Evolves :
    (group : Address) (u : UserContext) → Evolves u (on_group_invitation group u)
unfolding on_group_invitation
on_group_invitation-Evolves group u = record {
  files = λ f. f;
  owner = refl;
  sent = [];
  transactions = sym (append-nil u.transactions);
  received = group ∷ [];
  invitations = refl;
}

module _ (n : Network) (book : Address → Option Contact) (session_id : Address → ℕ) where
  ask_members-Evolves :
      (group : Address) (u : UserContext) (si : SignedIn) (o : Option (List Address))
      → Evolves u (ask_members n book session_id group u si o)
  ask_members-Evolves group u si none = Evolves-refl u
  ask_members-Evolves group u si (some members) = filed_again (λ f. f) refl refl refl

  ask_group-Evolves :
      (group : Address) (u : UserContext) (si : SignedIn) (o : Option Eth)
      → Evolves u (ask_group n book session_id group u si o)
  ask_group-Evolves group u si none = Evolves-refl u
  ask_group-Evolves group u si (some eth) = ask_members-Evolves group u si eth.members

  for_account-Evolves :
      (chain : Blockchain) (account group : Address) (u : UserContext) (o : Option SignedIn)
      → Evolves u (for_account n book session_id chain account group u o)
  for_account-Evolves chain account group u none = Evolves-refl u
  for_account-Evolves chain account group u (some si) =
      elim (Bool-cases (not (account == address_of si))) [
        | inl other ↦ rw other (Evolves-refl u)
        | inr mine ↦ rw mine (ask_group-Evolves group u si (chain.group_at group))
      ]

  pub on_invitation_accepted-Evolves :
      (chain : Blockchain) (account group : Address) (u : UserContext)
      → Evolves u (on_invitation_accepted n book session_id chain account group u)
  unfolding on_invitation_accepted
  on_invitation_accepted-Evolves chain account group u =
      for_account-Evolves chain account group u u.signed_in

-- A method of the context of a group of the user.
leave_with-Evolves :
    (group : Address) (u : UserContext) (si : SignedIn) (ctx : GroupContext) (h : Handled)
    → get group u.groups ≡ some ctx
    → Keeps (enter u si ctx) h.1
    → Evolves u (leave_with group u si h).1
leave_with-Evolves group u si ctx (r, ctx', d) found k = record {
  files = λ f.
      put-AreFiled group ctx' u.groups f (k.address ∙ (f group ctx found).0)
        (k.connection ∙ (f group ctx found).1);
  owner = refl;
  sent = k.more;
  transactions = k.grown;
  received = [];
  invitations = sym (append-nil u.invitations);
}

on_context-Evolves :
    (group : Address) (method : GroupContext → Disk → Handled) (u : UserContext) (d : Disk)
    (o : Option SignedIn) (c : Option GroupContext)
    → get group u.groups ≡ c
    → ((ctx : GroupContext) → Keeps ctx (method ctx d).1)
    → Evolves u (on_context group method u d o c).1
on_context-Evolves group method u d none c found k = Evolves-refl u
on_context-Evolves group method u d (some si) none found k = Evolves-refl u
on_context-Evolves group method u d (some si) (some ctx) found k =
    leave_with-Evolves group u si ctx (method (enter u si ctx) d) found (k (enter u si ctx))

pub on_group-Evolves :
    (w : UserWorld) (method : GroupContext → Disk → Handled) (group : Address) (u : UserContext)
    (d : Disk)
    → GroupMethod w.fs w.group_codec method
    → Evolves u (on_group group method u d).1
unfolding on_group
on_group-Evolves w method group u d m =
    on_context-Evolves group method u d u.signed_in (get group u.groups) refl
      (λ ctx. GroupMethod-Keeps w method m ctx d)
