-- ===== src/UserContext/Invariant/Startup.antt =====
-- The start of a user context, and the events that open the context of a group, keep the invariant.
use ipfs_share.Prelude.{
  ◌≡◌, refl, ◌∙◌, List, [], ◌∷◌, Bytes, Bool, true, false, not, Option, none, some, ◌==◌, Result,
  ok, err, panic, Bool-cases, inl, inr, nat_eq,
}
use ipfs_share.Crypto.SymmetricKey.{SymmetricKey, box_seal}
use ipfs_share.Collections.Map.{get}
use ipfs_share.Group.{Group, GroupError, set_ipfs_hash, new_group, new_group_from_meta}
use ipfs_share.Group.Frame.{set_ipfs_hash_keeps}
use ipfs_share.Account.{Account, new_account_from_storage, set_contract, save}
use ipfs_share.Fs.Disk.{Disk, FsError}
use ipfs_share.Fs.Meta.{Address, GroupMeta}
use ipfs_share.Fs.Repo.{GroupRepo}
use ipfs_share.Fs.Repo.Opening.{new_group_repo}
use ipfs_share.Fs.Storage.{save_group_meta}
use ipfs_share.Fs.Storage.Listing.{get_group_metas}
use ipfs_share.GroupContext.{Eth, GroupContext, Handled, save_group}
use ipfs_share.GroupContext as Contexts
use ipfs_share.GroupContext.Opening.{GroupContextConfig, context_of, with_repo, new_group_context}
use ipfs_share.UserContext.{Blockchain, UserWorld, SignedIn, UserContext, UserHandled, address_of}
use ipfs_share.UserContext.Startup.{
  config_of, kept, updated, open_group, and_then, build_metas, built, build_groups, listening, init,
  saved, rebound,
}
use ipfs_share.UserContext.Events.{
  meta_saved, on_new_key, on_get_key_success, group_saved, hash_set, context_made, group_named,
  group_bound, created_by, on_group_created, account_loaded, on_account_created,
}
use ipfs_share.UserContext.Invariant.{
  put-AreFiled, Evolves, filed_again, Evolves-refl, Evolves-trans,
}
use ipfs_share.GroupContext.Frame.{update-Keeps}

module _ (w : UserWorld) (chain : Blockchain) where
  kept-Evolves :
      (u : UserContext) (h : Handled) → h.1.connection ≡ none → Evolves u (kept w chain u h).1
  kept-Evolves u (ok _, ctx, d) n =
      filed_again (λ f. put-AreFiled ctx.group.address ctx u.groups f refl n) refl refl refl
  kept-Evolves u (err e, ctx, d) n = Evolves-refl u
  kept-Evolves u (panic, ctx, d) n = Evolves-refl u

  -- What `NewGroupContext` makes has no connection.
  abbrev IsUnconnected : Result FsError GroupContext × Disk → Type 0
  IsUnconnected (ok ctx, d) = ctx.connection ≡ none
  IsUnconnected (err e, d) = Unit
  IsUnconnected (panic, d) = Unit

  with_repo-IsUnconnected :
      (config : GroupContextConfig) (r : Result FsError GroupRepo × Disk)
      → IsUnconnected (with_repo config r)
  with_repo-IsUnconnected config (ok repo, d) = refl
  with_repo-IsUnconnected config (err e, d) = tt
  with_repo-IsUnconnected config (panic, d) = tt

  updated-Evolves :
      (u : UserContext) (eth : Eth) (r : Result FsError GroupContext × Disk)
      → IsUnconnected r
      → Evolves u (updated w chain u eth r).1
  updated-Evolves u eth (ok ctx, d) n =
      kept-Evolves u (Contexts.update w.fs u.storage eth w.group_codec ctx d)
        ((update-Keeps w.fs u.storage eth w.group_codec ctx d).connection ∙ n)
  updated-Evolves u eth (err e, d) n = Evolves-refl u
  updated-Evolves u eth (panic, d) n = Evolves-refl u

  open_group-Evolves :
      (u : UserContext) (si : SignedIn) (m : GroupMeta) (nonce : Bytes) (d : Disk) (o : Option Eth)
      → Evolves u (open_group w chain u si m nonce d o).1
  unfolding new_group_context
  open_group-Evolves u si m nonce d none = Evolves-refl u
  open_group-Evolves u si m nonce d (some eth) =
      updated-Evolves u eth
        (new_group_context w.fs u.storage (config_of u si (new_group_from_meta m)) nonce d)
        (with_repo-IsUnconnected (config_of u si (new_group_from_meta m)) _)

  and_then-Evolves :
      (u : UserContext) (h : UserHandled) (k : UserContext → Disk → UserHandled)
      → Evolves u h.1
      → ((v : UserContext) (d : Disk) → Evolves v (k v d).1)
      → Evolves u (and_then w chain h k).1
  and_then-Evolves u (ok _, v, d) k a b = Evolves-trans a (b v d)
  and_then-Evolves u (err e, v, d) k a b = a
  and_then-Evolves u (panic, v, d) k a b = a

  module _ (nonce : Address → Bytes) where
    build_metas-Evolves :
        (si : SignedIn) (ms : List GroupMeta) (u : UserContext) (d : Disk)
        → Evolves u (build_metas w chain nonce si ms u d).1
    unfolding build_metas
    build_metas-Evolves si [] u d = Evolves-refl u
    build_metas-Evolves si (m ∷ ms) u d =
        and_then-Evolves u
          (open_group w chain u si m (nonce m.address) d (chain.group_at m.address))
          (λ u' d'. build_metas w chain nonce si ms u' d')
          (open_group-Evolves u si m (nonce m.address) d (chain.group_at m.address))
          (λ v d'. build_metas-Evolves si ms v d')

    built-Evolves :
        (si : SignedIn) (u : UserContext) (r : Result FsError (List GroupMeta) × Disk)
        → Evolves u (built w chain nonce si u r).1
    built-Evolves si u (ok ms, d) = build_metas-Evolves si ms u d
    built-Evolves si u (err e, d) = Evolves-refl u
    built-Evolves si u (panic, d) = Evolves-refl u

    listening-Evolves :
        (si : SignedIn) (u : UserContext) (d : Disk) (b : Bool)
        → Evolves u (listening w chain nonce si u d b).1
    unfolding build_groups
    listening-Evolves si u d true =
        let u' : UserContext = record u { signed_in = some si } in
        let e = built-Evolves si u' (get_group_metas w.group_codec u.storage d) in
        record {
          files = e.files;
          owner = e.owner;
          sent = e.sent;
          transactions = e.transactions;
          received = e.received;
          invitations = e.invitations;
        }
    listening-Evolves si u d false = Evolves-refl u

    pub init-Evolves :
        (acc : Account) (u : UserContext) (d : Disk) → Evolves u (init w chain nonce acc u d).1
    unfolding init
    init-Evolves acc u d = listening-Evolves _ u d w.listens

    saved-Evolves :
        (acc : Account) (u : UserContext) (r : Result FsError (Unit {0}) × Disk)
        → Evolves u (saved w chain nonce acc u r).1
    saved-Evolves acc u (ok _, d) = init-Evolves acc u d
    saved-Evolves acc u (err e, d) = Evolves-refl u
    saved-Evolves acc u (panic, d) = Evolves-refl u

    pub rebound-Evolves :
        (u : UserContext) (o : Option Account) (d : Disk)
        → Evolves u (rebound w chain nonce u o d).1
    rebound-Evolves u none d = Evolves-refl u
    rebound-Evolves u (some acc) d = saved-Evolves acc u (save w.accounts acc u.storage d)

    account_loaded-Evolves :
        (a : Address) (u : UserContext) (r : Result FsError Account × Disk)
        → Evolves u (account_loaded w chain nonce a u r).1
    account_loaded-Evolves a u (ok acc, d) = rebound-Evolves u (set_contract w.accounts a acc) d
    account_loaded-Evolves a u (err e, d) = Evolves-refl u
    account_loaded-Evolves a u (panic, d) = Evolves-refl u

    pub on_account_created-Evolves :
        (owner a : Address) (u : UserContext) (d : Disk)
        → Evolves u (on_account_created w chain nonce owner a u d).1
    unfolding on_account_created
    on_account_created-Evolves owner a u d = elim (Bool-cases (not (owner == u.owner))) [
      | inl other ↦ rw other (Evolves-refl u)
      | inr mine ↦
          rw mine (account_loaded-Evolves a u (new_account_from_storage w.accounts u.storage d))
    ]

  meta_saved-Evolves :
      (m : GroupMeta) (nonce : Bytes) (u : UserContext) (si : SignedIn)
      (r : Result FsError (Unit {0}) × Disk)
      → Evolves u (meta_saved w chain m nonce u si r).1
  meta_saved-Evolves m nonce u si (ok _, d) =
      open_group-Evolves u si m nonce d (chain.group_at m.address)
  meta_saved-Evolves m nonce u si (err e, d) = Evolves-refl u
  meta_saved-Evolves m nonce u si (panic, d) = Evolves-refl u

  on_new_key-Evolves :
      (m : GroupMeta) (nonce : Bytes) (u : UserContext) (d : Disk) (si : Option SignedIn)
      (o : Option GroupContext)
      → Evolves u (on_new_key w chain m nonce u d si o).1
  on_new_key-Evolves m nonce u d (some si) none =
      meta_saved-Evolves m nonce u si (save_group_meta w.fs w.group_codec m u.storage d)
  on_new_key-Evolves m nonce u d none none = Evolves-refl u
  on_new_key-Evolves m nonce u d none (some c) = Evolves-refl u
  on_new_key-Evolves m nonce u d (some si) (some c) = Evolves-refl u

  pub on_get_key_success-Evolves :
      (group : Address) (k : SymmetricKey) (nonce : Bytes) (u : UserContext) (d : Disk)
      → Evolves u (on_get_key_success w chain group k nonce u d).1
  unfolding on_get_key_success
  on_get_key_success-Evolves group k nonce u d =
      on_new_key-Evolves (record { address = group; boxer = k }) nonce u d u.signed_in
        (get group u.groups)

  group_saved-Evolves :
      (group : Address) (ctx : GroupContext) (u : UserContext)
      (r : Result FsError (Unit {0}) × Disk)
      → ctx.group.address ≡ group
      → ctx.connection ≡ none
      → Evolves u (group_saved w chain group ctx u r).1
  group_saved-Evolves group ctx u (ok _, d) e n =
      filed_again (λ f. put-AreFiled group ctx u.groups f e n) refl refl refl
  group_saved-Evolves group ctx u (err _, d) e n = Evolves-refl u
  group_saved-Evolves group ctx u (panic, d) e n = Evolves-refl u

  hash_set-Evolves :
      (group : Address) (eth : Eth) (ctx : GroupContext) (u : UserContext) (d : Disk)
      (r : Result GroupError (Unit {0}) × Group)
      → r.1.address ≡ group
      → ctx.connection ≡ none
      → Evolves u (hash_set w chain group eth ctx u d r).1
  hash_set-Evolves group eth ctx u d (ok _, g) e n =
      group_saved-Evolves group (record ctx { group = g }) u
        (save_group w.fs u.storage eth w.group_codec g d) e n
  hash_set-Evolves group eth ctx u d (err _, g) e n = Evolves-refl u
  hash_set-Evolves group eth ctx u d (panic, g) e n = Evolves-refl u

  -- A context is made for the group of its configuration.
  context_made-Evolves :
      (group : Address) (eth : Eth) (nonce : Bytes) (u : UserContext) (config : GroupContextConfig)
      (r : Result FsError GroupRepo × Disk)
      → config.group.address ≡ group
      → Evolves u (context_made w chain group eth nonce u (with_repo config r)).1
  context_made-Evolves group eth nonce u config (ok repo, d) e =
      let enc = box_seal w.fs.box config.group.boxer nonce repo.ipfs_hash in
      hash_set-Evolves group eth (context_of config repo) u d
        (set_ipfs_hash w.fs.box enc config.group)
        ((set_ipfs_hash_keeps w.fs.box enc config.group).0 ∙ e) refl
  context_made-Evolves group eth nonce u config (err _, d) e = Evolves-refl u
  context_made-Evolves group eth nonce u config (panic, d) e = Evolves-refl u

  group_named-Evolves :
      (group : Address) (eth : Eth) (k : SymmetricKey) (nonces : Bytes × Bytes) (u : UserContext)
      (si : SignedIn) (d : Disk) (o : Option Bytes)
      → Evolves u (group_named w chain group eth k nonces u si d o).1
  unfolding new_group_context new_group
  group_named-Evolves group eth k nonces u si d none = Evolves-refl u
  group_named-Evolves group eth k (nonce, nonce') u si d (some name) =
      let config = config_of u si (new_group group name k) in
      context_made-Evolves group eth nonce' u config
        (new_group_repo w.fs u.storage config.group config.account nonce d) refl

  group_bound-Evolves :
      (group : Address) (k : SymmetricKey) (nonces : Bytes × Bytes) (u : UserContext)
      (si : SignedIn) (d : Disk) (o : Option Eth)
      → Evolves u (group_bound w chain group k nonces u si d o).1
  group_bound-Evolves group k nonces u si d none = Evolves-refl u
  group_bound-Evolves group k nonces u si d (some eth) =
      group_named-Evolves group eth k nonces u si d eth.name

  created_by-Evolves :
      (account group : Address) (k : SymmetricKey) (nonces : Bytes × Bytes) (u : UserContext)
      (d : Disk) (o : Option SignedIn)
      → Evolves u (created_by w chain account group k nonces u d o).1
  created_by-Evolves account group k nonces u d none = Evolves-refl u
  created_by-Evolves account group k nonces u d (some si) =
      elim (Bool-cases (not (account == address_of si))) [
        | inl other ↦ rw other (Evolves-refl u)
        | inr mine ↦ rw mine (group_bound-Evolves group k nonces u si d (chain.group_at group))
      ]

  pub on_group_created-Evolves :
      (account group : Address) (k : SymmetricKey) (nonces : Bytes × Bytes) (u : UserContext)
      (d : Disk)
      → Evolves u (on_group_created w chain account group k nonces u d).1
  unfolding on_group_created
  on_group_created-Evolves account group k nonces u d =
      created_by-Evolves account group k nonces u d u.signed_in
