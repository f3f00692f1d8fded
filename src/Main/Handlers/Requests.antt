-- ===== src/Main/Handlers/Requests.antt =====
-- Requests to the server of main/main.go, one after the other.
use ipfs_share.Prelude.{◌≡◌, refl, ap, ◌∙◌, List, [], ◌∷◌, Bytes, Option, none, some}
use ipfs_share.Collections.Map.{v_iterator}
use ipfs_share.Fs.Disk.{Disk}
use ipfs_share.UserContext.{SignedIn, UserWorld, UserContext, sign_out_of, stop_all}
use ipfs_share.UserContext as Users
use ipfs_share.Main.{
  Endpoint, sign_up, sign_out, create_group, join_group, invite, leave, group_list_members,
  group_repo_commit, group_repo_list_files, group_repo_grant, group_repo_revoke, ls_groups,
  list_transactions,
}
use ipfs_share.Main.Handlers.{Site, Reply, done, refuses, drops, Refusal, signed_out, serve}

-- A request that has been routed, with what its handler finds.
pub record Arrival : Type 0 where
  pub site : Site
  pub endpoint : Endpoint
  pub vars : List Bytes
  pub body : Bytes

-- The answers, and the global client and the disk behind them.
abbrev pub Answers : Type 0
Answers = List Reply × Option UserContext × Disk

abbrev pub answer_first : Reply → Answers → Answers
answer_first r (rs, client, d) = (r ∷ rs, client, d)

-- What a server without a client answers: `signUp` uses it all the same.
abbrev pub unserved : Endpoint → Reply
unserved sign_up = drops
unserved sign_out = refuses Refusal.no_client
unserved create_group = refuses Refusal.no_client
unserved join_group = refuses Refusal.no_client
unserved invite = refuses Refusal.no_client
unserved leave = refuses Refusal.no_client
unserved group_list_members = refuses Refusal.no_client
unserved group_repo_commit = refuses Refusal.no_client
unserved group_repo_list_files = refuses Refusal.no_client
unserved group_repo_grant = refuses Refusal.no_client
unserved group_repo_revoke = refuses Refusal.no_client
unserved ls_groups = refuses Refusal.no_client
unserved list_transactions = refuses Refusal.no_client

abbrev pub all_unserved : List Arrival → List Reply
all_unserved [] = []
all_unserved (a ∷ more) = unserved a.endpoint ∷ all_unserved more

module _ (w : UserWorld) where
  -- The requests in the order in which their handlers run, on the global client.
  unfoldable pub serve_all : List Arrival → Option UserContext → Disk → Answers
  serve_all [] client d = ([], client, d)
  serve_all (a ∷ more) client d =
      let (r, client', d') = serve w a.site a.endpoint a.vars a.body client d in
      answer_first r (serve_all more client' d')

  no_client :
      (site : Site) (endpoint : Endpoint) (vars : List Bytes) (body : Bytes) (d : Disk)
      → serve w site endpoint vars body none d ≡ (unserved endpoint, none, d)
  unfolding serve
  no_client site sign_up vars body d = refl
  no_client site sign_out vars body d = refl
  no_client site create_group vars body d = refl
  no_client site join_group vars body d = refl
  no_client site invite vars body d = refl
  no_client site leave vars body d = refl
  no_client site group_list_members vars body d = refl
  no_client site group_repo_commit vars body d = refl
  no_client site group_repo_list_files vars body d = refl
  no_client site group_repo_grant vars body d = refl
  no_client site group_repo_revoke vars body d = refl
  no_client site ls_groups vars body d = refl
  no_client site list_transactions vars body d = refl

  all_without_client :
      (more : List Arrival) (d : Disk) → serve_all more none d ≡ (all_unserved more, none, d)
  unfolding serve_all
  all_without_client [] d = refl
  all_without_client (a ∷ more) d =
      ap (λ (s : Reply × Option UserContext × Disk). answer_first s.0 (serve_all more s.1 s.2))
        (no_client a.site a.endpoint a.vars a.body d)
      ∙ ap (answer_first (unserved a.endpoint)) (all_without_client more d)

  -- When a user who is signed in and has no group signs out, the answer is done, and whatever
  -- requests follow, a sign-up among them is a panic, every other is refused for want of a client,
  -- there is no client any more, and the disk stays as it is.
  pub serve_all-sign_out :
      (site : Site) (vars : List Bytes) (body : Bytes) (more : List Arrival) (u : UserContext)
      (si : SignedIn) (d : Disk)
      → u.signed_in ≡ some si
      → v_iterator u.groups ≡ []
      → let request : Arrival = record {
        site = site;
        endpoint = sign_out;
        vars = vars;
        body = body;
      } in
        serve_all (request ∷ more) (some u) d ≡ (done ∷ all_unserved more, none, d)
  unfolding serve_all serve Users.sign_out stop_all
  serve_all-sign_out site vars body more u si d signed alone =
      ap
        (λ r. let (q, client', d') = signed_out u d r in answer_first q (serve_all more client' d'))
        (ap (sign_out_of u) signed ∙ ap stop_all alone)
      ∙ ap (answer_first done) (all_without_client more d)
