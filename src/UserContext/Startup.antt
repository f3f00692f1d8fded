-- ===== src/UserContext/Startup.antt =====
-- `NewUserContext`, `Init` and `BuildGroups` of client/usercontext.go, with the opening of a group's
-- context, which client/events.go does too.
use ipfs_share.Prelude.{
  List, [], ◌∷◌, Bytes, Bool, true, false, Option, none, some, ◌==◌, if◌then◌else◌, Result, ok, err,
  panic, nat_eq,
}
use ipfs_share.Collections.Map.{put, new_concurrent_map}
use ipfs_share.Group.{Group, new_group_from_meta}
use ipfs_share.Account.{Account, new_account_from_storage, set_contract, save}
use ipfs_share.Fs.Disk.{Disk, FsError}
use ipfs_share.Fs.Meta.{Address, GroupMeta}
use ipfs_share.Fs.Storage.{Storage, new_storage}
use ipfs_share.Fs.Storage as Storages
use ipfs_share.Fs.Storage.Listing.{get_group_metas}
use ipfs_share.Communication.Manager.{new_p2p_manager}
use ipfs_share.GroupContext.{Eth, ContextError, GroupContext, Handled}
use ipfs_share.GroupContext as Contexts
use ipfs_share.GroupContext.Opening.{GroupContextConfig, new_group_context}
use ipfs_share.UserContext.{
  Blockchain, UserWorld, SignedIn, UserContext, UserHandled, no_instance, no_account, no_name,
  not_listening, fs_failed, context_failed, address_of,
}

-- The configuration of a group's context.
abbrev pub config_of : UserContext → SignedIn → Group → GroupContextConfig
config_of u si group = record {
  group = group;
  account = address_of si;
  p2p = si.p2p;
  transactions = u.transactions;
}

module _ (w : UserWorld) (chain : Blockchain) where
  -- `ctx.groups.Put(groupCtx.Address(), groupCtx)`, once the context is up to date.
  abbrev pub kept : UserContext → Handled → UserHandled
  kept u (ok _, ctx, d) =
      (ok tt, record u { groups = put ctx.group.address (some ctx) u.groups }, d)
  kept u (err e, ctx, d) = (err (context_failed e), u, d)
  kept u (panic, ctx, d) = (panic, u, d)

  abbrev pub updated : UserContext → Eth → Result FsError GroupContext × Disk → UserHandled
  updated u eth (ok ctx, d) = kept u (Contexts.update w.fs u.storage eth w.group_codec ctx d)
  updated u eth (err e, d) = (err (fs_failed e), u, d)
  updated u eth (panic, d) = (panic, u, d)

  -- A context for a group whose address and key are known: a round of `BuildGroups`, and the end of
  -- `onGetKeySuccess`.
  abbrev pub open_group :
      UserContext → SignedIn → GroupMeta → Bytes → Disk → Option Eth → UserHandled
  open_group u si m nonce d none = (err no_instance, u, d)
  open_group u si m nonce d (some eth) =
      updated u eth
        (new_group_context w.fs u.storage (config_of u si (new_group_from_meta m)) nonce d)

  abbrev pub and_then : UserHandled → (UserContext → Disk → UserHandled) → UserHandled
  and_then (ok _, u, d) k = k u d
  and_then (err e, u, d) k = (err e, u, d)
  and_then (panic, u, d) k = (panic, u, d)

  module _ (nonce : Address → Bytes) where
    -- The loop of `BuildGroups`; `nonce` is what the boxes of the repositories draw.
    unfoldable pub build_metas : SignedIn → List GroupMeta → UserContext → Disk → UserHandled
    build_metas si [] u d = (ok tt, u, d)
    build_metas si (m ∷ ms) u d =
        and_then (open_group u si m (nonce m.address) d (chain.group_at m.address))
          (λ u' d'. build_metas si ms u' d')

    abbrev pub built : SignedIn → UserContext → Result FsError (List GroupMeta) × Disk → UserHandled
    built si u (ok ms, d) = build_metas si ms u d
    built si u (err e, d) = (err (fs_failed e), u, d)
    built si u (panic, d) = (panic, u, d)

    unfoldable pub build_groups : SignedIn → UserContext → Disk → UserHandled
    unfolding build_metas
    build_groups si u d = built si u (get_group_metas w.group_codec u.storage d)

    abbrev pub listening : SignedIn → UserContext → Disk → Bool → UserHandled
    listening si u d true = build_groups si (record u { signed_in = some si }) d
    listening si u d false = (err not_listening, u, d)

    -- `Init`.
    unfoldable pub init : Account → UserContext → Disk → UserHandled
    init acc u d =
        listening
          (record { account = acc; p2p = new_p2p_manager acc.account_data.contract_address }) u d
          w.listens

    abbrev pub saved : Account → UserContext → Result FsError (Unit {0}) × Disk → UserHandled
    saved acc u (ok _, d) = init acc u d
    saved acc u (err e, d) = (err (fs_failed e), u, d)
    saved acc u (panic, d) = (panic, u, d)

    -- A changed address is set and saved before `Init`.
    abbrev pub rebound : UserContext → Option Account → Disk → UserHandled
    rebound u none d = (err no_account, u, d)
    rebound u (some acc) d = saved acc u (save w.accounts acc u.storage d)

    abbrev pub loaded : Address → UserContext → Result FsError Account × Disk → UserHandled
    loaded address u (ok acc, d) =
        if acc.account_data.contract_address == address
        then init acc u d
        else rebound u (set_contract w.accounts address acc) d
    loaded address u (err e, d) = (err (fs_failed e), u, d)
    loaded address u (panic, d) = (panic, u, d)

    abbrev pub named : Address → UserContext → Disk → Option Bytes → UserHandled
    named address u d none = (err no_name, u, d)
    named address u d (some name) =
        let u' = record u { storage = Storages.init name u.storage } in
        loaded address u' (new_account_from_storage w.accounts u'.storage d)

    -- No account is registered yet where the address is zero: the user is to sign up.
    abbrev pub found : UserContext → Disk → Option Address → UserHandled
    found u d none = (err no_account, u, d)
    found u d (some address) =
        if address == 0
        then (ok tt, u, d)
        else if w.accounts.new_contract address
        then named address u d (chain.account_name address)
        else (err no_account, u, d)

    -- `NewUserContext`, for the Ethereum account and the home directory. The source returns the
    -- context only where it returns no error.
    unfoldable pub new_user_context : Address → Bytes → Disk → UserHandled
    new_user_context owner home d =
        found
          (record {
            owner = owner;
            signed_in = none;
            groups = new_concurrent_map;
            transactions = [];
            invitations = [];
            storage = new_storage home;
          })
          d (chain.get_account owner)
