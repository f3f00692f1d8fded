-- ===== src/UserContext/Invariant/Reachable.antt =====
-- The invariant of a user context, by induction on the steps.
use ipfs_share.Prelude.{
  refl, Bytes, Bool, true, false, Option, none, some, ◌==◌, if◌then◌else◌, Result, ok, err, panic,
  Bool-cases, inl, inr, nat_eq,
}
use ipfs_share.Collections.Map.{get, new_concurrent_map}
use ipfs_share.Account.{Account, new_account_from_storage, set_contract}
use ipfs_share.Fs.Disk.{Disk, FsError}
use ipfs_share.Fs.Meta.{Address}
use ipfs_share.Fs.Storage.{new_storage}
use ipfs_share.Fs.Storage as Storages
use ipfs_share.UserContext.{Blockchain, UserWorld, UserContext, no_account}
use ipfs_share.UserContext.Startup.{loaded, named, found, new_user_context}
use ipfs_share.UserContext.Steps.{
  Step, signs_up, creates, accepts, is_invited, joins, gets_group_key, has_created, is_registered,
  acts, Reach, starts, goes_on,
}
use ipfs_share.UserContext.Invariant.{AreFiled, Evolves, Evolves-refl, Evolves-trans, filed_again}
use ipfs_share.UserContext.Invariant.Startup.{
  init-Evolves, rebound-Evolves, on_account_created-Evolves, on_get_key_success-Evolves,
  on_group_created-Evolves,
}
use ipfs_share.UserContext.Invariant.Requests.{
  sign_up-Evolves, create_group-Evolves, accept_invitation-Evolves, on_group_invitation-Evolves,
  on_invitation_accepted-Evolves, on_group-Evolves,
}

module _ (w : UserWorld) where
  -- No step of a user context changes its Ethereum account or takes a transaction or an invitation
  -- away: both lists are only appended to; and it keeps contexts under the addresses of their
  -- groups.
  pub Step-Evolves : (u u' : UserContext) → Step w u u' → Evolves u u'
  Step-Evolves u u' (signs_up chain name secret _ d) = sign_up-Evolves w chain name secret u d
  Step-Evolves u u' (creates chain name _) = create_group-Evolves chain name u
  Step-Evolves u u' (accepts chain group _) = accept_invitation-Evolves chain group u
  Step-Evolves u u' (is_invited group _) = on_group_invitation-Evolves group u
  Step-Evolves u u' (joins n book session_id chain account group _) =
      on_invitation_accepted-Evolves n book session_id chain account group u
  Step-Evolves u u' (gets_group_key chain group k nonce _ d) =
      on_get_key_success-Evolves w chain group k nonce u d
  Step-Evolves u u' (has_created chain account group k nonces _ d) =
      on_group_created-Evolves w chain account group k nonces u d
  Step-Evolves u u' (is_registered chain nonce owner account _ d) =
      on_account_created-Evolves w chain nonce owner account u d
  Step-Evolves u u' (acts method group _ d m) = on_group-Evolves w method group u d m

  module _ (chain : Blockchain) (nonce : Address → Bytes) where
    loaded-Evolves :
        (a : Address) (u : UserContext) (r : Result FsError Account × Disk)
        → Evolves u (loaded w chain nonce a u r).1
    loaded-Evolves a u (ok acc, d) = elim (Bool-cases (acc.account_data.contract_address == a)) [
      | inl same ↦ rw same (init-Evolves w chain nonce acc u d)
      | inr other ↦ rw other (rebound-Evolves w chain nonce u (set_contract w.accounts a acc) d)
    ]
    loaded-Evolves a u (err e, d) = Evolves-refl u
    loaded-Evolves a u (panic, d) = Evolves-refl u

    named-Evolves :
        (a : Address) (u : UserContext) (d : Disk) (o : Option Bytes)
        → Evolves u (named w chain nonce a u d o).1
    named-Evolves a u d none = Evolves-refl u
    named-Evolves a u d (some name) =
        let u' : UserContext = record u { storage = Storages.init name u.storage } in
        Evolves-trans (filed_again {u = u} {u' = u'} (λ f. f) refl refl refl)
          (loaded-Evolves a u' (new_account_from_storage w.accounts u'.storage d))

    found-Evolves :
        (u : UserContext) (d : Disk) (o : Option Address) → Evolves u (found w chain nonce u d o).1
    found-Evolves u d none = Evolves-refl u
    found-Evolves u d (some a) = elim (Bool-cases (a == 0)) [
      | inl zero_address ↦ rw zero_address (Evolves-refl u)
      | inr registered ↦ rw registered (bound (w.accounts.new_contract a))
    ]
      where
        bound :
            (b : Bool)
            → Evolves u
                (if b
                  then named w chain nonce a u d (chain.account_name a)
                  else (err no_account, u, d)).1
        bound true = named-Evolves a u d (chain.account_name a)
        bound false = Evolves-refl u

    new_user_context-AreFiled :
        (owner : Address) (home : Bytes) (d : Disk)
        → AreFiled (new_user_context w chain nonce owner home d).1.groups
    unfolding new_user_context get new_concurrent_map
    new_user_context-AreFiled owner home d =
        (found-Evolves _ d (chain.get_account owner)).files (λ k c h. cc)

  -- Whatever a user does, hears from the blockchain or gets from sessions, from the start on and
  -- in whatever order, every context of the user stands under the address of its own group and has
  -- no connection.
  pub reach-AreFiled : (u : UserContext) → Reach w u → AreFiled u.groups
  reach-AreFiled u (starts chain nonce owner home d) =
      new_user_context-AreFiled chain nonce owner home d
  reach-AreFiled u (goes_on r s) = (Step-Evolves _ u s).files (reach-AreFiled _ r)
