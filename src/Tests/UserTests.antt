-- ===== src/Tests/UserTests.antt =====
-- The theorems on client/usercontext.go, client/events.go and client/account.go at concrete inputs.
use ipfs_share.Prelude.{
  ap, sym, ◌∙◌, none, Bool, true, false, ◌==◌, ==_iff, ◌↔◌, ◌≡◌, ◌≢◌, refl, [], ◌∷◌, some, Result,
  ok, err, if◌then◌else◌, contains, nat_eq,
}
use ipfs_share.Collections.Map.{get, v_iterator}
use ipfs_share.Account.{save, new_account_from_storage}
use ipfs_share.Account.Saved.{new_account_from_storage-save}
use ipfs_share.Fs.Disk.{Disk}
use ipfs_share.Fs.Storage.{new_storage}
use ipfs_share.UserContext.{not_invited, accept_invitation, sign_out}
use ipfs_share.UserContext.SignUp.{sign_up}
use ipfs_share.UserContext.Startup.{build_groups, new_user_context}
use ipfs_share.UserContext.Events.{on_account_created, on_group_created}
use ipfs_share.UserContext.Startup as Startup
use ipfs_share.UserContext.Steps.{starts, goes_on, has_created, is_registered}
use ipfs_share.UserContext.Invariant.{AreFiled, Evolves}
use ipfs_share.UserContext.Invariant.Reachable.{Step-Evolves, reach-AreFiled}
use ipfs_share.UserContext.Registration.{fresh_context, after_sign_up, sign_up-registers}
use ipfs_share.UserContext.Invitations.{accepted, accept_invitation_lem}
use ipfs_share.UserContext.SigningOut.{sign_out_panics}
use ipfs_share.Tests.Wire.{codec-IsCodec}
use ipfs_share.Tests.CryptoTests.{nonce24}
use ipfs_share.Tests.StateTests.{disk1}
use ipfs_share.Tests.FsTests.{storage1, usable1}
use ipfs_share.Tests.UserWorld.{
  account_wire, accounts, user_world, chain, nonces, account1, signed_in1, user1,
}
use ipfs_share.Tests.ContextTests.{context1}
use ipfs_share.GroupContext.{GroupContext}

new_account_from_storage-save_example :
    let (r, d') = save accounts account1 storage1 disk1 in
    (r ≡ ok tt)
    × (new_account_from_storage accounts storage1 d'
        ≡ (ok (record account1 { contract = some 11 }), d'))
new_account_from_storage-save_example =
    new_account_from_storage-save accounts (codec-IsCodec account_wire) account1 storage1 disk1
      (usable1 _) refl

sign_up-registers_example :
    let u =
      record (fresh_context user_world
        (codec-IsCodec account_wire)
        chain
        nonces
        21
        []
        (b'u' ∷ [])) { storage = new_storage [] } in
    let u' =
      after_sign_up user_world
        (codec-IsCodec account_wire)
        chain
        (b'u' ∷ [])
        (9 ∷ [])
        (b'i' ∷ [])
        u in
    (d1 : Disk) × (d2 : Disk) × (sign_up user_world chain (b'u' ∷ []) (some (9 ∷ [])) u disk1
      ≡ (ok tt, u', d1))
    × (on_account_created user_world chain nonces 21 11 u' d1
        ≡ Startup.init user_world chain nonces (record account1 { contract = some 11 }) u' d2)
    × (new_user_context user_world chain nonces 21 [] d2
        ≡ Startup.init user_world chain nonces
            (record account1 { contract = some 11 })
            (record u { storage = storage1 })
            d2)
sign_up-registers_example =
    sign_up-registers user_world (codec-IsCodec account_wire) chain nonces nonces [] (b'u' ∷ [])
      (9 ∷ []) (b'i' ∷ []) 21 11 disk1 refl refl (λ a. refl) usable1 refl refl refl

accept_invitation_lem_example : accept_invitation chain 101 user1 ≡ (
    if contains 101 user1.invitations then accepted chain 101 user1 else (err not_invited, user1))
accept_invitation_lem_example = accept_invitation_lem chain 101 user1

has_groups : v_iterator user1.groups ≢ []
unfolding v_iterator
has_groups e = cc

user1-AreFiled : AreFiled user1.groups
unfolding get
user1-AreFiled k ctx e = at (100 == k) ((==_iff 100 k).0) e
  where
    at :
        (same : Bool)
        → (same ≡ true → 100 ≡ k)
        → (if same then some context1 else none) ≡ some ctx
        → (ctx.group.address ≡ k) × (ctx.connection ≡ none)
    at true h q =
        let is : context1 ≡ ctx = cc in
        (
          ap (λ (c : GroupContext). c.group.address) (sym is) ∙ h refl,
          ap (λ (c : GroupContext). c.connection) (sym is),
        )
    at false h q = cc

sign_out_panics_example : (sign_out user1 ≡ Result.panic) ↔ (v_iterator user1.groups ≢ [])
sign_out_panics_example = sign_out_panics user1 signed_in1 refl user1-AreFiled

-- Its only group has no connection.
no_sign_out_with_group : sign_out user1 ≡ Result.panic
no_sign_out_with_group = (sign_out_panics user1 signed_in1 refl user1-AreFiled).1 has_groups

Step-Evolves_example :
    Evolves user1
      (on_group_created user_world chain 11 102
        (record { key = 5 ∷ [] })
        (nonce24, nonce24)
        user1
        disk1).1
Step-Evolves_example =
    Step-Evolves user_world user1
      (on_group_created user_world chain 11 102 (record { key = 5 ∷ [] }) (nonce24, nonce24) user1
        disk1).1
      (has_created chain 11 102 (record { key = 5 ∷ [] }) (nonce24, nonce24) user1 disk1)

reach-AreFiled_example :
    AreFiled
      (on_account_created user_world chain nonces 21 11
        (new_user_context user_world chain nonces 21 [] disk1).1
        disk1).1.groups
reach-AreFiled_example =
    reach-AreFiled user_world
      (on_account_created user_world chain nonces 21 11
        (new_user_context user_world chain nonces 21 [] disk1).1 disk1).1
      (goes_on (starts chain nonces 21 [] disk1) (
        is_registered chain nonces 21 11 (new_user_context user_world chain nonces 21 [] disk1).1
          disk1))
