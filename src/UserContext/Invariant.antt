-- ===== src/UserContext/Invariant.antt =====
-- Every context of a user stands under the address of its group and has no connection, and transactions and invitations
-- are only added.
pub mod Reachable
pub mod Requests
pub mod Startup
use mathlib.Core.List.{append-nil, append_assoc}
use ipfs_share.Prelude.{
  ℕ, ◌≡◌, refl, sym, ap, ◌∙◌, List, [], ◌∷◌, ◌++◌, Bytes, Bool, true, false, not, Option, none,
  some, ◌==◌, ==_iff, if◌then◌else◌, Result, ok, err, panic, Bool-cases, inl, inr, nat_eq,
}
use ipfs_share.Crypto.SymmetricKey.{SymmetricKey, box_seal, box_open}
use ipfs_share.Collections.Map.{Map, get, put, delete}
use ipfs_share.Collections.Map.Laws.{get-put}
use ipfs_share.Fs.Disk.{Disk, FsError}
use ipfs_share.Fs.Meta.{Address, GroupMeta}
use ipfs_share.GroupContext.{Eth, GroupContext, Handled, Transaction}
use ipfs_share.GroupContext.Frame.{Keeps}
use ipfs_share.UserContext.{
  Blockchain, UserWorld, SignedIn, UserContext, UserHandled, UserError, enter, leave_with,
  on_context, on_group,
}

-- The contexts of a user stand under their addresses, and none has a connection.
abbrev pub AreFiled : Map Address GroupContext → Type 0
AreFiled m =
    (k : Address) (ctx : GroupContext)
    → get k m ≡ some ctx
    → (ctx.group.address ≡ k) × (ctx.connection ≡ none)

pub put-AreFiled :
    (k : Address) (ctx : GroupContext) (m : Map Address GroupContext)
    → AreFiled m
    → ctx.group.address ≡ k
    → ctx.connection ≡ none
    → AreFiled (put k (some ctx) m)
put-AreFiled k ctx m filed e n j c found = elim (Bool-cases (k == j)) [
  | inl same ↦ at_key ((==_iff k j).0 same) (rw same at here)
  | inr other ↦ filed j c (rw other at here)
]
  where
    here : (if k == j then some ctx else get j m) ≡ some c
    here = sym (get-put j k (some ctx) m) ∙ found

    at_key : k ≡ j → some ctx ≡ some c → (c.group.address ≡ j) × (c.connection ≡ none)
    at_key p q =
        let same : ctx ≡ c = cc in
        (
          ap (λ (g : GroupContext). g.group.address) (sym same) ∙ e ∙ p,
          ap (λ (g : GroupContext). g.connection) (sym same) ∙ n,
        )

-- How a user context has gone on.
pub record Evolves (u u' : UserContext) : Type 0 where
  pub files : AreFiled u.groups → AreFiled u'.groups
  pub owner : u'.owner ≡ u.owner
  pub sent : List Transaction
  pub transactions : u'.transactions ≡ u.transactions ++ sent
  pub received : List Address
  pub invitations : u'.invitations ≡ u.invitations ++ received

-- With the same transactions and invitations.
pub filed_again :
    {u u' : UserContext}
    → (AreFiled u.groups → AreFiled u'.groups)
    → u'.owner ≡ u.owner
    → u'.transactions ≡ u.transactions
    → u'.invitations ≡ u.invitations
    → Evolves u u'
filed_again {u} f o t i = record {
  files = f;
  owner = o;
  sent = [];
  transactions = t ∙ sym (append-nil u.transactions);
  received = [];
  invitations = i ∙ sym (append-nil u.invitations);
}

pub Evolves-refl : (u : UserContext) → Evolves u u
Evolves-refl u = filed_again (λ f. f) refl refl refl

pub Evolves-trans : {u v t : UserContext} → Evolves u v → Evolves v t → Evolves u t
Evolves-trans {u} a b = record {
  files = λ f. b.files (a.files f);
  owner = b.owner ∙ a.owner;
  sent = a.sent ++ b.sent;
  transactions = b.transactions ∙ rw a.transactions (append_assoc u.transactions a.sent b.sent);
  received = a.received ++ b.received;
  invitations = b.invitations ∙ rw a.invitations (append_assoc u.invitations a.received b.received);
}
