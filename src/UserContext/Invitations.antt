-- ===== src/UserContext/Invitations.antt =====
-- `AcceptInvitation`, and the sessions that an accepted invitation starts.
use ipfs_share.Prelude.{
  ◌≡◌, refl, List, [], ◌∷◌, ◌==◌, ==_iff, ==_refl, if◌then◌else◌, Result, err, contains, Bool-cases,
  inl, inr, arith, nat_eq,
}
use ipfs_share.Fs.Meta.{Address}
use ipfs_share.UserContext.{
  Blockchain, UserContext, UserError, not_invited, join, accept_from, accept_invitation,
}

-- What `AcceptInvitation` does about an invitation that is there.
abbrev pub accepted : Blockchain → Address → UserContext → Result UserError (Unit {0}) × UserContext
accepted chain group u = join chain group (chain.group_at group) u

accept_from_lem :
    (chain : Blockchain) (group : Address) (l : List Address) (u : UserContext)
    → accept_from chain group l u
      ≡ (if contains group l then accepted chain group u else (err not_invited, u))
unfolding accept_from
accept_from_lem chain group [] u = refl
accept_from_lem chain group (a ∷ l) u = elim (Bool-cases (group == a)) [
  | inl here ↦ let e : group ≡ a = (==_iff group a).0 here in rw here (rw e (rw (==_refl a) refl))
  | inr later ↦ ground (arith, accept_from_lem chain group l u)
]

-- An invitation that is in the list is accepted by a transaction; another group is refused.
pub accept_invitation_lem :
    (chain : Blockchain) (group : Address) (u : UserContext)
    → accept_invitation chain group u
      ≡ (if contains group u.invitations then accepted chain group u else (err not_invited, u))
unfolding accept_invitation
accept_invitation_lem chain group u = accept_from_lem chain group u.invitations u
