-- ===== src/UserContext/Joining.antt =====
-- How an invited user gets the key of a group: the session with a member, the member's user context
-- as its callback, and `onGetKeySuccess` on the side of the user.
use ipfs_share.Prelude.{
  ℕ, ◌≡◌, refl, sym, ap, ◌∙◌, [], Bytes, true, not, Option, none, some, Result, ok, err, panic,
  or_fail, fail_if, ◌>>=◌, contains, nat_eq, ==_refl,
}
use ipfs_share.Collections.Map.{get}
use ipfs_share.Collections.Map.Laws.{get-put}
use ipfs_share.Group as Groups
use ipfs_share.Fs.Disk.{Disk, FsError}
use ipfs_share.Fs.Meta.{Address, GroupMeta}
use ipfs_share.Fs.Storage.{save_group_meta}
use ipfs_share.Communication.Message.{Contact, Network, IsNetwork, Signer, get_group_key}
use ipfs_share.Communication.Message.Sending.{Signs}
use ipfs_share.Communication.Exchange.{FourMessages, exchange_group_key}
use ipfs_share.GroupContext.{GroupContext}
use ipfs_share.UserContext.{
  Blockchain, UserWorld, SignedIn, UserContext, is_member, get_boxer_of_group, callback_of,
  succeeds, value_of, no_group, not_a_member,
}
use ipfs_share.UserContext.Events.{on_get_key_success, on_new_key, meta_saved}
use ipfs_share.UserContext.Restart.{Opens, open_group-Opens}

module _ (u : UserContext) (group : Address) (ctx : GroupContext)
    (has : get group u.groups ≡ some ctx) where
  pub callback-is_member :
      (account : Address)
      → contains account ctx.group.members ≡ true
      → (callback_of u).is_member group account ≡ true
  unfolding callback_of is_member Groups.is_member
  callback-is_member account member =
      ap
        (λ o. succeeds (
          or_fail o no_group >>= λ c.
          fail_if (not (Groups.is_member account c.group)) not_a_member))
        has
      ∙ ap (λ b. succeeds (fail_if (not b) not_a_member)) member

  pub callback-get_boxer_of_group : (callback_of u).get_boxer_of_group group ≡ some ctx.group.boxer
  unfolding callback_of get_boxer_of_group
  callback-get_boxer_of_group =
      ap (λ o. value_of (or_fail o no_group >>= λ c. ok c.group.boxer)) has

module _ (w : UserWorld) (chain : Blockchain) where
  meta_saved-Opens :
      (m : GroupMeta) (nonce : Bytes) (u u' : UserContext) (si : SignedIn) (d' : Disk)
      (r : Result FsError (Unit {0}) × Disk)
      → meta_saved w chain m nonce u si r ≡ (ok tt, u', d')
      → Opens m u u'
  meta_saved-Opens m nonce u u' si d' (ok _, d) e =
      open_group-Opens w chain u u' si m nonce d d' (chain.group_at m.address) e
  meta_saved-Opens m nonce u u' si d' (err f, d) e = cc
  meta_saved-Opens m nonce u u' si d' (panic, d) e = cc

  -- A key for a group that the user does not have yet.
  pub on_get_key_success-Opens :
      (group : Address) (m : GroupMeta) (nonce : Bytes) (u u' : UserContext) (d d' : Disk)
      → m.address ≡ group
      → get group u.groups ≡ none
      → on_get_key_success w chain group m.boxer nonce u d ≡ (ok tt, u', d')
      → Opens m u u'
  unfolding on_get_key_success
  on_get_key_success-Opens group m nonce u u' d d' at fresh e = by_account u.signed_in (
      ap
        (λ a.
          on_new_key w chain (record { address = a; boxer = m.boxer }) nonce u d u.signed_in none)
        at
      ∙ ap (on_new_key w chain (record { address = group; boxer = m.boxer }) nonce u d u.signed_in)
          (sym fresh)
      ∙ e)
    where
      by_account :
          (o : Option SignedIn)
          → on_new_key w chain m nonce u d o none ≡ (ok tt, u', d')
          → Opens m u u'
      by_account none q = cc
      by_account (some si) q =
          meta_saved-Opens m nonce u u' si d' (save_group_meta w.fs w.group_codec m u.storage d) q

  -- Under the laws of the codecs, where the network delivers, both sides sign as the accounts that
  -- their contacts name and are known to the address book: a user who is listed as a member in the
  -- group of another user's context gets that context's key in a session of four messages whose
  -- server side asks the other user's callbacks; and where the user has no context for the group
  -- yet and the handling of the key succeeds, the user then has one for the group, with that key.
  pub session-on_get_key_success :
      (n : Network) (laws : IsNetwork n) {alice_signs bob_signs : Signer} (alice bob : Contact)
      (a : Signs n alice_signs alice.eth_account_address)
      (b : Signs n bob_signs bob.eth_account_address) (book : Address → Option Contact)
      (alice_known : book alice.account_address ≡ some alice)
      (bob_known : book bob.account_address ≡ some bob)
      (delivers : (c : Contact) (bs : Bytes) → n.delivers c bs ≡ true) (theirs : UserContext)
      (ctx : GroupContext) (group : Address) (session_id : ℕ) (challenge nonce : Bytes)
      (u u' : UserContext) (d d' : Disk)
      → get group theirs.groups ≡ some ctx
      → contains alice.account_address ctx.group.members ≡ true
      → get group u.groups ≡ none
      → on_get_key_success w chain group ctx.group.boxer nonce u d ≡ (ok tt, u', d')
      → FourMessages n laws alice bob a b book alice_known bob_known delivers
          (callback_of theirs)
          group
          session_id
          challenge
          get_group_key
          []
          group
          ctx.group.boxer
        × (mine : GroupContext) × (get group u'.groups ≡ some mine)
        × (mine.group.address ≡ group)
        × (mine.group.boxer ≡ ctx.group.boxer)
  session-on_get_key_success n laws alice bob a b book alice_known bob_known delivers theirs ctx
        group session_id challenge nonce u u' d d' has member fresh e =
      let m : GroupMeta = record { address = group; boxer = ctx.group.boxer } in
      let o = on_get_key_success-Opens group m nonce u u' d d' refl fresh e in
      (
        exchange_group_key n laws alice bob a b book alice_known bob_known delivers
            (callback_of theirs) group session_id challenge ctx.group.boxer
            (callback-is_member theirs group ctx has alice.account_address member)
            (callback-get_boxer_of_group theirs group ctx has),
        o.ctx,
        ap (λ g. get group g) o.groups
            ∙ get-put group group (some o.ctx) u.groups
            ∙ rw (==_refl group) refl,
        o.address,
        o.boxer,
      )
