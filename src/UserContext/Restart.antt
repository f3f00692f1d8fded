-- ===== src/UserContext/Restart.antt =====
-- The groups of a user after a restart: `BuildGroups` opens what was saved.
use mathlib.Core.List.{Memᴰ}
use ipfs_share.Prelude.{
  ◌≡◌, refl, sym, ap, ◌∙◌, ◌⊎◌, inl, inr, List, [], ◌∷◌, Bytes, Bool, true, false, Option, none,
  some, ◌==◌, ==_iff, ==_refl, ◌++◌, subst, if◌then◌else◌, Result, ok, err, panic, Bool-cases,
  nat_eq,
}
use ipfs_share.Collections.Map.{get, put}
use ipfs_share.Collections.Map.Laws.{get-put}
use ipfs_share.Group.{new_group, new_group_from_meta}
use ipfs_share.Fs.Disk.{Disk, FsError}
use ipfs_share.Fs.Meta.{Address, GroupMeta}
use ipfs_share.Fs.Repo.{GroupRepo}
use ipfs_share.Fs.Repo.Opening.{new_group_repo}
use ipfs_share.Fs.External.{IsCodec}
use ipfs_share.Fs.Storage.{meta_ext, save_group_meta}
use ipfs_share.Fs.Storage.Downloads.{Usable, group_meta_path}
use ipfs_share.Fs.Storage.Listing.{get_group_metas}
use ipfs_share.Fs.Storage.Listing.Saved.{IsName, get_group_metas-save_group_meta}
use ipfs_share.GroupContext.{Eth, GroupContext, Handled}
use ipfs_share.GroupContext as Contexts
use ipfs_share.GroupContext.Opening.{GroupContextConfig, context_of, with_repo, new_group_context}
use ipfs_share.GroupContext.Frame.{update-Keeps}
use ipfs_share.GroupContext.Frame.Key.{update-boxer}
use ipfs_share.UserContext.{Blockchain, UserWorld, SignedIn, UserContext, UserHandled}
use ipfs_share.UserContext.Startup.{
  config_of, kept, updated, open_group, and_then, build_metas, built, build_groups,
}

-- A context was put into the map for the group of a meta.
pub record Opens (m : GroupMeta) (u u' : UserContext) : Type 0 where
  pub ctx : GroupContext
  pub address : ctx.group.address ≡ m.address
  pub boxer : ctx.group.boxer ≡ m.boxer
  pub groups : u'.groups ≡ put m.address (some ctx) u.groups

module _ (w : UserWorld) (chain : Blockchain) where
  kept-Opens :
      (m : GroupMeta) (u u' : UserContext) (d' : Disk) (h : Handled)
      → h.1.group.address ≡ m.address
      → h.1.group.boxer ≡ m.boxer
      → kept w chain u h ≡ (ok tt, u', d')
      → Opens m u u'
  kept-Opens m u u' d' (ok _, ctx, d) a b e = record {
    ctx = ctx;
    address = a;
    boxer = b;
    groups =
        ap (λ (h : UserHandled). h.1.groups) (sym e)
        ∙ ap (λ (k : Address). put k (some ctx) u.groups) a;
  }
  kept-Opens m u u' d' (err f, ctx, d) a b e = cc
  kept-Opens m u u' d' (panic, ctx, d) a b e = cc

  updated-Opens :
      (m : GroupMeta) (u u' : UserContext) (d' : Disk) (eth : Eth) (config : GroupContextConfig)
      (r : Result FsError GroupRepo × Disk)
      → config.group.address ≡ m.address
      → config.group.boxer ≡ m.boxer
      → updated w chain u eth (with_repo config r) ≡ (ok tt, u', d')
      → Opens m u u'
  updated-Opens m u u' d' eth config (ok repo, d) a b e =
      kept-Opens m u u' d'
        (Contexts.update w.fs u.storage eth w.group_codec (context_of config repo) d)
        ((update-Keeps w.fs u.storage eth w.group_codec (context_of config repo) d).address ∙ a)
        (update-boxer w.fs u.storage eth w.group_codec (context_of config repo) d ∙ b) e
  updated-Opens m u u' d' eth config (err f, d) a b e = cc
  updated-Opens m u u' d' eth config (panic, d) a b e = cc

  -- What a round of `BuildGroups`, or a key that was delivered, has done where it succeeded.
  pub open_group-Opens :
      (u u' : UserContext) (si : SignedIn) (m : GroupMeta) (nonce : Bytes) (d d' : Disk)
      (o : Option Eth)
      → open_group w chain u si m nonce d o ≡ (ok tt, u', d')
      → Opens m u u'
  unfolding new_group_context new_group_from_meta new_group
  open_group-Opens u u' si m nonce d d' none e = cc
  open_group-Opens u u' si m nonce d d' (some eth) e =
      let config = config_of u si (new_group_from_meta m) in
      updated-Opens m u u' d' eth config
        (new_group_repo w.fs u.storage config.group config.account nonce d) refl refl e

-- Where the contexts of `u'` come from.
abbrev pub Origin : List GroupMeta → UserContext → Address → GroupContext → Type 0
Origin ms u k ctx =
    (get k u.groups ≡ some ctx)
    ⊎ ((m : GroupMeta) × Memᴰ m ms
        × (m.address ≡ k)
        × (ctx.group.address ≡ k)
        × (ctx.group.boxer ≡ m.boxer))

pub record Built (ms : List GroupMeta) (u u' : UserContext) : Type 0 where
  pub origin : (k : Address) (ctx : GroupContext) → get k u'.groups ≡ some ctx → Origin ms u k ctx
  pub stays :
      (k : Address) (c : GroupContext)
      → get k u.groups ≡ some c
      → (c' : GroupContext) × (get k u'.groups ≡ some c')
  pub all_opened :
      (m : GroupMeta) → Memᴰ m ms → (c : GroupContext) × (get m.address u'.groups ≡ some c)

some_eq : {A : Type 0} {a b : A} → some a ≡ some b → a ≡ b
some_eq e = cc

get_opened :
    (m : GroupMeta) (u u' : UserContext) (o : Opens m u u') (k : Address)
    → get k u'.groups ≡ (if m.address == k then some o.ctx else get k u.groups)
get_opened m u u' o k = ap (λ g. get k g) o.groups ∙ get-put k m.address (some o.ctx) u.groups

Built-nil : (u : UserContext) → Built [] u u
Built-nil u = record {
  origin = λ k c e. inl e;
  stays = λ k c e. (c, e);
  all_opened = λ m h. elim h [ ];
}

Built-cons :
    (m : GroupMeta) (ms : List GroupMeta) (u v u' : UserContext)
    → Opens m u v
    → Built ms v u'
    → Built (m ∷ ms) u u'
Built-cons m ms u v u' o b = record {
  origin = λ k c e. from k c (b.origin k c e);
  stays = λ k c e. let (c', f) = still k c e in b.stays k c' f;
  all_opened = each;
}
  where
    at :
        (k : Address) (c : GroupContext) (t : Bool)
        → (m.address == k) ≡ t
        → (if t then some o.ctx else get k u.groups) ≡ some c
        → Origin (m ∷ ms) u k c
    at k c true same e =
        let here : o.ctx ≡ c = some_eq e in
        let key : m.address ≡ k = (==_iff m.address k).0 same in
        inr (
          m,
          Memᴰ.head refl,
          key,
          ap (λ (g : GroupContext). g.group.address) (sym here) ∙ o.address ∙ key,
          ap (λ (g : GroupContext). g.group.boxer) (sym here) ∙ o.boxer,
        )
    at k c false other e = inl e

    from : (k : Address) (c : GroupContext) → Origin ms v k c → Origin (m ∷ ms) u k c
    from k c (inl e) = at k c (m.address == k) refl (sym (get_opened m u v o k) ∙ e)
    from k c (inr (n, h, a, b', t)) = inr (n, Memᴰ.tail h, a, b', t)

    still :
        (k : Address) (c : GroupContext)
        → get k u.groups ≡ some c
        → (c' : GroupContext) × (get k v.groups ≡ some c')
    still k c e = elim (Bool-cases (m.address == k)) [
      | inl same ↦ (o.ctx, get_opened m u v o k ∙ rw same refl)
      | inr other ↦ (c, get_opened m u v o k ∙ rw other e)
    ]

    each :
        (n : GroupMeta) → Memᴰ n (m ∷ ms) → (c : GroupContext) × (get n.address u'.groups ≡ some c)
    each n (Memᴰ.head same) =
        let (c, e) =
          b.stays m.address o.ctx (get_opened m u v o m.address ∙ rw (==_refl m.address) refl) in
        (c, ap (λ (q : GroupMeta). get q.address u'.groups) same ∙ e)
    each n (Memᴰ.tail h) = b.all_opened n h

module _ (w : UserWorld) (chain : Blockchain) (nonce : Address → Bytes) where
  and_then_inv :
      (h : UserHandled) (k : UserContext → Disk → UserHandled) (u' : UserContext) (d' : Disk)
      → and_then w chain h k ≡ (ok tt, u', d')
      → (v : UserContext) × (d1 : Disk) × (h ≡ (ok tt, v, d1)) × (k v d1 ≡ (ok tt, u', d'))
  and_then_inv (ok _, v, d1) k u' d' e = (v, d1, refl, e)
  and_then_inv (err f, v, d1) k u' d' e = cc
  and_then_inv (panic, v, d1) k u' d' e = cc

  build_metas-Built :
      (si : SignedIn) (ms : List GroupMeta) (u u' : UserContext) (d d' : Disk)
      → build_metas w chain nonce si ms u d ≡ (ok tt, u', d')
      → Built ms u u'
  unfolding build_metas
  build_metas-Built si [] u u' d d' e =
      subst (Built [] u) (ap (λ (h : UserHandled). h.1) e) (Built-nil u)
  build_metas-Built si (m ∷ ms) u u' d d' e =
      let round = open_group w chain u si m (nonce m.address) d (chain.group_at m.address) in
      let (v, d1, opened, rest) =
        and_then_inv round (λ v' d''. build_metas w chain nonce si ms v' d'') u' d' e in
      Built-cons m ms u v u'
        (open_group-Opens w chain u v si m (nonce m.address) d d1 (chain.group_at m.address) opened)
        (build_metas-Built si ms v u' d1 d' rest)

  build_groups-Built :
      (si : SignedIn) (ms : List GroupMeta) (u u' : UserContext) (d d1 d' : Disk)
      → get_group_metas w.group_codec u.storage d ≡ (ok ms, d1)
      → build_groups w chain nonce si u d ≡ (ok tt, u', d')
      → Built ms u u'
  unfolding build_groups
  build_groups-Built si ms u u' d d1 d' loads e =
      build_metas-Built si ms u u' d1 d' (sym (ap (built w chain nonce si u) loads) ∙ e)

-- Under the law of the codec, where the group's file name is an ordinary one, its directory can be
-- read and its file can be written: after SaveGroupMeta, GetGroupMetas returns a list with that
-- meta in it; and where BuildGroups succeeds then, the user has a context for the meta's address,
-- and every context that the user has was there before or was opened for a meta of the list, with
-- its address and its key.
pub build_groups-save_group_meta :
    (w : UserWorld) (laws : IsCodec w.group_codec) (chain : Blockchain) (nonce : Address → Bytes)
    (si : SignedIn) (u u' : UserContext) (m : GroupMeta) (k : Address) (ctx : GroupContext)
    (d d1 d' : Disk)
    → IsName u.storage.metas_ga_path (w.fs.address_string m.address ++ meta_ext)
    → d.denied u.storage.metas_ga_path ≡ false
    → Usable (group_meta_path w.fs u.storage m.address) d
    → save_group_meta w.fs w.group_codec m u.storage d ≡ (ok tt, d1)
    → build_groups w chain nonce si u d1 ≡ (ok tt, u', d')
    → get k u'.groups ≡ some ctx
    → (ms : List GroupMeta) × (get_group_metas w.group_codec u.storage d1 ≡ (ok ms, d1))
      × Memᴰ m ms
      × ((c : GroupContext) × (get m.address u'.groups ≡ some c))
      × Origin ms u k ctx
build_groups-save_group_meta w laws chain nonce si u u' m k ctx d d1 d' i dir usable saves builds
      stands =
    let (ms, loads, listed) =
      get_group_metas-save_group_meta w.fs w.group_codec laws m u.storage d d1 i dir usable saves in
    let b = build_groups-Built w chain nonce si ms u u' d1 d1 d' loads builds in
    (ms, loads, listed, b.all_opened m listed, b.origin k ctx stands)
