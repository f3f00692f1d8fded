-- ===== src/UserContext/Founding.antt =====
-- The founding of a group: `onGroupCreated`, and the first member that accepts an invitation.
use ipfs_share.Prelude.{
  ◌≡◌, refl, ap, ◌∙◌, [], Bytes, Bool, true, not, some, ==_refl, length, ok, if◌then◌else◌, nat_eq,
}
use ipfs_share.Crypto.SymmetricKey.{SymmetricKey, box_seal, box_open}
use ipfs_share.Crypto.SymmetricKey.RoundTrip.{box_open-box_seal}
use ipfs_share.Collections.Map.{get, put, new_concurrent_map}
use ipfs_share.Collections.Map.Laws.{get-put}
use ipfs_share.Group.{Group, new_group, is_member, group_meta}
use ipfs_share.Group.Frame.{add_member_keeps}
use ipfs_share.Group.Hash.{update_sealed}
use ipfs_share.Fs.Disk.{Disk, require, pure, ◌>>=◌, not_encoded, ipfs_failed}
use ipfs_share.Fs.Disk.Laws.{bind_ok, written}
use ipfs_share.Fs.Meta.{Address}
use ipfs_share.Fs.External.{External, IsExternal, IsCodec}
use ipfs_share.Fs.Storage.{Storage}
use ipfs_share.Fs.Storage.Downloads.{Usable, group_meta_path}
use ipfs_share.Fs.Storage.Listing.{get_group_file_metas}
use ipfs_share.Fs.Repo.{GroupRepo}
use ipfs_share.Fs.Repo.Commit.{appended}
use ipfs_share.Fs.Repo.Opening.{new_group_repo, opened_with, logged_metas}
use ipfs_share.GroupContext.{Eth, GroupContext}
use ipfs_share.GroupContext.Opening.{new_group_context, context_of, with_repo}
use ipfs_share.GroupContext.Events.{on_group_invitation_accepted}
use ipfs_share.GroupContext.HashChange.{save_group_lem}
use ipfs_share.UserContext.{
  Blockchain, UserWorld, SignedIn, UserContext, address_of, callback_of, on_group, on_context,
  enter,
}
use ipfs_share.UserContext.Startup.{config_of}
use ipfs_share.UserContext.Events.{
  on_group_created, created_by, group_bound, group_named, context_made, hash_set, group_saved,
}
use ipfs_share.UserContext.Steps.{beside}
use ipfs_share.UserContext.Joining.{callback-is_member, callback-get_boxer_of_group}

-- Where IPFS takes what is added, a repository is opened and the disk stays.
new_group_repo_lem :
    (x : External) (laws : IsExternal x)
    (takes : (c : Bytes) → (h : Bytes) × (x.ipfs_add c ≡ some h)) (s : Storage) (g : Group)
    (user : Address) (nonce : Bytes) (d : Disk)
    → (repo : GroupRepo) × (new_group_repo x s g user nonce d ≡ (ok repo, d))
unfolding new_group_repo opened_with
new_group_repo_lem x laws takes s g user nonce d =
    let metas = logged_metas (get_group_file_metas x.meta_codec (x.address_string g.address) s d) in
    let (bs, marshals, _) = laws.metas_laws.round_trip (appended metas) in
    let (h, added) = takes (box_seal x.box g.boxer nonce bs) in
    let repo : GroupRepo = record { files = new_concurrent_map; ipfs_hash = h; user = user } in
    (
      repo,
      bind_ok (require (x.metas_codec.marshal (appended metas)) not_encoded)
            (λ encoded. do
              ipfs_hash ← require (x.ipfs_add (box_seal x.box g.boxer nonce encoded)) ipfs_failed
              pure (record { files = new_concurrent_map; ipfs_hash = ipfs_hash; user = user }))
            d (ap (λ o. require o not_encoded d) marshals)
          ∙ bind_ok (require (x.ipfs_add (box_seal x.box g.boxer nonce bs)) ipfs_failed)
              (λ ipfs_hash.
                pure (record { files = new_concurrent_map; ipfs_hash = ipfs_hash; user = user }))
              d (ap (λ o. require o ipfs_failed d) added),
    )

-- A group that its founder has just opened, with its key.
pub record Founded (w : UserWorld) (group : Address) (name : Bytes) (key : SymmetricKey)
    (ctx : GroupContext) : Type 0 where
  pub address : ctx.group.address ≡ group
  pub named : ctx.group.name ≡ name
  pub boxer : ctx.group.boxer ≡ key
  pub no_members : ctx.group.members ≡ []
  pub hash : ctx.group.ipfs_hash ≡ ctx.repo.ipfs_hash
  pub opens : box_open w.fs.box key ctx.group.encrypted_ipfs_hash ≡ some ctx.repo.ipfs_hash

abbrev pub with_group : Address → GroupContext → UserContext → UserContext
with_group group ctx u = record u { groups = put group (some ctx) u.groups }

-- The event that an account has joined a group of the user.
unfoldable pub joined : (account group : Address) (u : UserContext) (d : Disk) → UserContext
joined account group u d =
    (on_group group (λ ctx d'. beside d' (on_group_invitation_accepted account ctx)) u d).1

module _ (w : UserWorld) (laws : IsExternal w.fs) (meta_laws : IsCodec w.group_codec)
    (chain : Blockchain) (takes : (c : Bytes) → (h : Bytes) × (w.fs.ipfs_add c ≡ some h)) where
  on_group_created_lem :
      (group : Address) (key : SymmetricKey) (nonce nonce' name : Bytes) (u : UserContext)
      (si : SignedIn) (eth : Eth) (d : Disk)
      → u.signed_in ≡ some si
      → chain.group_at group ≡ some eth
      → eth.name ≡ some name
      → length nonce' ≡ 24
      → Usable (group_meta_path w.fs u.storage group) d
      → (ctx : GroupContext) × (bs : Bytes) × (on_group_created w chain
            (address_of si)
            group
            key
            (nonce, nonce')
            u
            d
          ≡ (ok tt, with_group group ctx u, written (group_meta_path w.fs u.storage group) bs d))
        × (w.group_codec.unmarshal bs ≡ some (record { address = group; boxer = key }))
        × Founded w group name key ctx
  unfolding on_group_created new_group_context new_group group_meta
  on_group_created_lem group key nonce nonce' name u si eth d signed bound is_named l usable =
      let g = new_group group name key in
      let (repo, opened) = new_group_repo_lem w.fs laws takes u.storage g (address_of si) nonce d in
      let enc = box_seal w.fs.box key nonce' repo.ipfs_hash in
      let g' : Group = record g { ipfs_hash = repo.ipfs_hash; encrypted_ipfs_hash = enc } in
      let ctx = context_of (config_of u si g) repo in
      let ctx' : GroupContext = record ctx { group = g' } in
      let sets = (update_sealed w.fs.box laws.box_laws name [] nonce' repo.ipfs_hash g l).1 in
      let (bs, decodes, saves) =
        save_group_lem w.fs u.storage eth w.group_codec meta_laws g' d usable in
      (
        ctx',
        bs,
        ap (created_by w chain (address_of si) group key (nonce, nonce') u d) signed
            ∙ ap
                (λ (b : Bool).
                  if not b
                  then (ok tt, u, d)
                  else group_bound w chain group key (nonce, nonce') u si d (chain.group_at group))
                (==_refl (address_of si))
            ∙ ap (group_bound w chain group key (nonce, nonce') u si d) bound
            ∙ ap (group_named w chain group eth key (nonce, nonce') u si d) is_named
            ∙ ap (λ r. context_made w chain group eth nonce' u (with_repo (config_of u si g) r))
                opened
            ∙ ap (hash_set w chain group eth ctx u d) sets
            ∙ ap (group_saved w chain group ctx' u) saves,
        decodes,
        record {
          address = refl;
          named = refl;
          boxer = refl;
          no_members = refl;
          hash = refl;
          opens = box_open-box_seal w.fs.box laws.box_laws key nonce' repo.ipfs_hash l;
        },
      )

  joined_lem :
      (account group : Address) (key : SymmetricKey) (u : UserContext) (si : SignedIn)
      (ctx : GroupContext) (d : Disk)
      → u.signed_in ≡ some si
      → get group u.groups ≡ some ctx
      → ctx.group.boxer ≡ key
      → let u' = joined account group u d in
        ((callback_of u').is_member group account ≡ true)
        × ((callback_of u').get_boxer_of_group group ≡ some key)
  unfolding joined on_group on_group_invitation_accepted is_member
  joined_lem account group key u si ctx d signed has boxed =
      let method =
        λ (c : GroupContext) (d' : Disk). beside d' (on_group_invitation_accepted account c) in
      let ctx' = on_group_invitation_accepted account (enter u si ctx) in
      let same : (on_group group method u d).1.groups ≡ put group (some ctx') u.groups =
        ap (λ o. (on_context group method u d o (get group u.groups)).1.groups) signed
        ∙ ap (λ o. (on_context group method u d (some si) o).1.groups) has in
      let there : get group (joined account group u d).groups ≡ some ctx' =
        ap (λ m. get group m) same
        ∙ get-put group group (some ctx') u.groups
        ∙ rw (==_refl group) refl in
      let (_, key_kept, member) = add_member_keeps account ctx.group in
      (
        callback-is_member (joined account group u d) group ctx' there account member,
        callback-get_boxer_of_group (joined account group u d) group ctx' there
            ∙ ap (λ k. some k) (key_kept ∙ boxed),
      )

  -- Under the laws of the box and the codecs, where IPFS takes what is added and the group's
  -- metadata file can be written: for a GroupCreated event of the user's own account, whose
  -- contract gives a name, onGroupCreated with a nonce of 24 bytes succeeds, saves the group's
  -- address and drawn key, and keeps a context with that name and key, no members, and the hash of
  -- its repository, which its sealed hash opens to under the key; and once the event of an account
  -- that has joined is handled, the user's callbacks name that account a member and give the drawn
  -- key.
  pub on_group_created-Founded :
      (group account : Address) (key : SymmetricKey) (nonce nonce' name : Bytes) (u : UserContext)
      (si : SignedIn) (eth : Eth) (d d2 : Disk)
      → u.signed_in ≡ some si
      → chain.group_at group ≡ some eth
      → eth.name ≡ some name
      → length nonce' ≡ 24
      → Usable (group_meta_path w.fs u.storage group) d
      → (ctx : GroupContext) × (bs : Bytes) × (on_group_created w chain
            (address_of si)
            group
            key
            (nonce, nonce')
            u
            d
          ≡ (ok tt, with_group group ctx u, written (group_meta_path w.fs u.storage group) bs d))
        × (w.group_codec.unmarshal bs ≡ some (record { address = group; boxer = key }))
        × Founded w group name key ctx
        × (let theirs = callback_of (joined account group (with_group group ctx u) d2) in
            (theirs.is_member group account ≡ true) × (theirs.get_boxer_of_group group ≡ some key))
  on_group_created-Founded group account key nonce nonce' name u si eth d d2 signed bound is_named l
        usable =
      let (ctx, bs, created, decodes, founded) =
        on_group_created_lem group key nonce nonce' name u si eth d signed bound is_named l
          usable in
      (
        ctx,
        bs,
        created,
        decodes,
        founded,
        joined_lem account group key (with_group group ctx u) si ctx d2 signed
            (get-put group group (some ctx) u.groups ∙ rw (==_refl group) refl) founded.boxer,
      )
