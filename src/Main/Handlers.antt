-- ===== src/Main/Handlers.antt =====
-- The HTTP handlers of main/main.go. A panic in a handler is caught by net/http, which drops the
-- connection: the global client stays as it is then.
pub mod Sending
pub mod Access
pub mod Requests
use ipfs_share.Prelude.{
  ℕ, zero, suc, List, [], ◌∷◌, Bytes, Bool, true, false, Option, none, some, Result, ok, err, panic,
  nat_eq,
}
use ipfs_share.Collections.Map.{get}
use ipfs_share.Fs.Disk.{Disk}
use ipfs_share.Fs.Meta.{Address}
use ipfs_share.Fs.Repo.Commit.{Draws}
use ipfs_share.Communication.Message.{Contact}
use ipfs_share.GroupContext.{Eth, GroupContext, Handled, Transaction}
use ipfs_share.GroupContext.Commit as Contexts
use ipfs_share.GroupContext.Commit.{commit_changes}
use ipfs_share.GroupContext.Access.{grant, revoke, MemberView, FileView, list_files, list_members}
use ipfs_share.UserContext.{
  Blockchain, UserWorld, UserContext, UserError, UserHandled, no_group, on_group, accept_invitation,
  groups,
}
use ipfs_share.UserContext as Users
use ipfs_share.UserContext.SignUp as SignUp
use ipfs_share.Main.{
  Endpoint, sign_up, sign_out, create_group, join_group, invite, leave, group_list_members,
  group_repo_commit, group_repo_list_files, group_repo_grant, group_repo_revoke, ls_groups,
  list_transactions,
}

pub record GroupView : Type 0 where
  pub group_name : Bytes
  pub address : Bytes

pub data Refusal : Type 0 where
  no_client no_argument : Refusal
  failed : UserError → Refusal

-- What is answered. `refuses` is a 404 with a message, `drops` a panic.
pub data Reply : Type 0 where
  done : Reply
  shows_groups : List GroupView → Reply
  shows_files : List FileView → Reply
  shows_members : List MemberView → Reply
  shows_transactions : List Bytes → Reply
  refuses : Refusal → Reply
  drops : Reply

-- What is called and not implemented, at the time of a request: the JSON string of a body,
-- `HexToAddress`, the hash of a transaction, the contracts of the groups, what `rand` gives, also
-- for the files in a group's directory.
pub record Site : Type 0 where
  pub decodes : Bytes → Option Bytes
  pub hex_to_address : Bytes → Address
  pub tx_hash : Transaction → Bytes
  pub chain : Blockchain
  pub contract : Address → Eth
  pub book : Address → Option Contact
  pub secret : Option Bytes
  pub key : Option Bytes
  pub nonce : Bytes
  pub nonce' : Bytes
  pub draws : Address → Draws

-- With the global client, nil for `none`.
abbrev pub Served : Type 0
Served = Reply × Option UserContext × Disk

abbrev pub reply : Result UserError (Unit {0}) → Reply
reply (ok _) = done
reply (err e) = refuses (failed e)
reply panic = drops

abbrev pub served : UserHandled → Served
served (r, u, d) = (reply r, some u, d)

abbrev pub served_at : Disk → Result UserError (Unit {0}) × UserContext → Served
served_at d (r, u) = (reply r, some u, d)

-- A list is shown for a group of the user.
abbrev shown : UserContext → Disk → (GroupContext → Reply) → Option GroupContext → Served
shown u d view none = (refuses (failed no_group), some u, d)
shown u d view (some ctx) = (view ctx, some u, d)

abbrev nth : ℕ → List Bytes → Bytes
nth n [] = []
nth zero (v ∷ vs) = v
nth (suc n) (v ∷ vs) = nth n vs

-- `SignOut` returns nothing, and the client is set to nil behind it.
abbrev signed_out : UserContext → Disk → Result UserError (Unit {0}) → Served
signed_out u d (ok _) = (done, none, d)
signed_out u d (err e) = (done, none, d)
signed_out u d panic = (drops, some u, d)

module _ (w : UserWorld) (site : Site) where
  abbrev group_views : List GroupContext → List GroupView
  group_views [] = []
  group_views (ctx ∷ cs) =
      record { group_name = ctx.group.name; address = w.fs.address_string ctx.group.address }
      ∷ group_views cs

  abbrev hashes : List Transaction → List Bytes
  hashes [] = []
  hashes (t ∷ ts) = site.tx_hash t ∷ hashes ts

  abbrev with_argument : Option Bytes → UserContext → Disk → (Bytes → Served) → Served
  with_argument none u d k = (refuses Refusal.no_argument, some u, d)
  with_argument (some arg) u d k = k arg

  -- A handler, with the variables of its route and the body of the request.
  abbrev pub Handler : Type 0
  Handler = List Bytes → Bytes → Option UserContext → Disk → Served

  -- `signUp`, which lacks the test for a nil client of the others.
  abbrev pub serve_sign_up : Handler
  serve_sign_up vars body none d = (drops, none, d)
  serve_sign_up vars body (some u) d =
      served (SignUp.sign_up w site.chain (nth 0 vars) site.secret u d)

  -- `signOut`.
  abbrev pub serve_sign_out : Handler
  serve_sign_out vars body none d = (refuses Refusal.no_client, none, d)
  serve_sign_out vars body (some u) d = signed_out u d (Users.sign_out u)

  -- `createGroup`.
  abbrev pub serve_create_group : Handler
  serve_create_group vars body none d = (refuses Refusal.no_client, none, d)
  serve_create_group vars body (some u) d =
      with_argument (site.decodes body) u d
        (λ name. served_at d (Users.create_group site.chain name u))

  -- `joinGroup`.
  abbrev pub serve_join_group : Handler
  serve_join_group vars body none d = (refuses Refusal.no_client, none, d)
  serve_join_group vars body (some u) d =
      with_argument (site.decodes body) u d
        (λ group. served_at d (accept_invitation site.chain (site.hex_to_address group) u))

  -- `invite`.
  abbrev pub serve_invite : Handler
  serve_invite vars body none d = (refuses Refusal.no_client, none, d)
  serve_invite vars body (some u) d =
      let group = site.hex_to_address (nth 0 vars) in
      with_argument (site.decodes body) u d (λ member. served (
        on_group group
          (λ ctx d'.
            let (r, ctx') =
              Contexts.invite (site.contract group) (site.hex_to_address member) true ctx in
            (r, ctx', d'))
          u d))

  -- `leave`.
  abbrev pub serve_leave : Handler
  serve_leave vars body none d = (refuses Refusal.no_client, none, d)
  serve_leave vars body (some u) d =
      let group = site.hex_to_address (nth 0 vars) in
      served (
        on_group group
          (λ ctx d'. let (r, ctx') = Contexts.leave (site.contract group) ctx in (r, ctx', d')) u d)

  -- `groupListMembers`.
  abbrev pub serve_group_list_members : Handler
  serve_group_list_members vars body none d = (refuses Refusal.no_client, none, d)
  serve_group_list_members vars body (some u) d =
      shown u d (λ ctx. shows_members (list_members w.fs u.storage site.book ctx))
        (get (site.hex_to_address (nth 0 vars)) u.groups)

  -- `groupRepoCommit`.
  abbrev pub serve_group_repo_commit : Handler
  serve_group_repo_commit vars body none d = (refuses Refusal.no_client, none, d)
  serve_group_repo_commit vars body (some u) d =
      let group = site.hex_to_address (nth 0 vars) in
      served (
        on_group group
          (commit_changes w.fs u.storage (site.contract group) site.key site.nonce site.nonce'
            (site.draws group))
          u d)

  -- `groupRepoListFiles`.
  abbrev pub serve_group_repo_list_files : Handler
  serve_group_repo_list_files vars body none d = (refuses Refusal.no_client, none, d)
  serve_group_repo_list_files vars body (some u) d =
      shown u d (λ ctx. shows_files (list_files w.fs u.storage site.book ctx))
        (get (site.hex_to_address (nth 0 vars)) u.groups)

  -- `groupRepoGrantWriteAccess`.
  abbrev pub serve_group_repo_grant : Handler
  serve_group_repo_grant vars body none d = (refuses Refusal.no_client, none, d)
  serve_group_repo_grant vars body (some u) d =
      let group = site.hex_to_address (nth 0 vars) in
      served (
        on_group group
          (grant w.fs u.storage (nth 1 vars) (site.hex_to_address (nth 2 vars)) site.key) u d)

  -- `groupRepoRevokeWriteAccess`.
  abbrev pub serve_group_repo_revoke : Handler
  serve_group_repo_revoke vars body none d = (refuses Refusal.no_client, none, d)
  serve_group_repo_revoke vars body (some u) d =
      let group = site.hex_to_address (nth 0 vars) in
      served (
        on_group group
          (revoke w.fs u.storage (nth 1 vars) (site.hex_to_address (nth 2 vars)) site.key) u d)

  -- `lsGroups`.
  abbrev pub serve_ls_groups : Handler
  serve_ls_groups vars body none d = (refuses Refusal.no_client, none, d)
  serve_ls_groups vars body (some u) d = (shows_groups (group_views (groups u)), some u, d)

  -- `listTransactions`.
  abbrev pub serve_list_transactions : Handler
  serve_list_transactions vars body none d = (refuses Refusal.no_client, none, d)
  serve_list_transactions vars body (some u) d =
      (shows_transactions (hashes u.transactions), some u, d)

  -- The handler of an endpoint.
  unfoldable pub serve : Endpoint → List Bytes → Bytes → Option UserContext → Disk → Served
  serve sign_up = serve_sign_up
  serve sign_out = serve_sign_out
  serve create_group = serve_create_group
  serve join_group = serve_join_group
  serve invite = serve_invite
  serve leave = serve_leave
  serve group_list_members = serve_group_list_members
  serve group_repo_commit = serve_group_repo_commit
  serve group_repo_list_files = serve_group_repo_list_files
  serve group_repo_grant = serve_group_repo_grant
  serve group_repo_revoke = serve_group_repo_revoke
  serve ls_groups = serve_ls_groups
  serve list_transactions = serve_list_transactions
