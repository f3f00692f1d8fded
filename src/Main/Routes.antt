-- ===== src/Main/Routes.antt =====
-- The routes of `startDaemon` in main/main.go. gorilla/mux is a parameter: `IsRouter` says how it
-- picks a route for a path of ordinary segments.
pub mod Reaching
use ipfs_share.Prelude.{
  ℕ, ◌≡◌, List, [], ◌∷◌, ◌++◌, Bytes, bytes_equal, codes, Bool, true, false, ◌&&◌, ◌||◌, Option,
  none, some, ◌==◌, leb, if◌then◌else◌, All,
}
use ipfs_share.Main.{
  Method, get, post, Endpoint, sign_up, sign_out, create_group, join_group, invite, leave,
  group_list_members, group_repo_commit, group_repo_list_files, group_repo_grant, group_repo_revoke,
  ls_groups, list_transactions,
}

-- A part of a template: itself, or a variable in braces.
pub data Segment : Type 0 where
  lit : Bytes → Segment
  var : Segment

pub record Route : Type 0 where
  pub template : List Segment
  pub endpoint : Endpoint
  pub method : Method

abbrev to : List Segment → Endpoint → Method → Route
to template endpoint method = record { template = template; endpoint = endpoint; method = method }

-- The calls of `router.HandleFunc`.
abbrev pub routes : List Route
routes =
    to (lit (codes "signup") ∷ var ∷ []) sign_up post
    ∷ to (lit (codes "signout") ∷ []) sign_out get
    ∷ to (lit (codes "group") ∷ lit (codes "create") ∷ []) create_group post
    ∷ to (lit (codes "group") ∷ lit (codes "join") ∷ []) join_group post
    ∷ to (lit (codes "group") ∷ lit (codes "invite") ∷ var ∷ []) invite post
    ∷ to (lit (codes "group") ∷ lit (codes "leave") ∷ var ∷ []) leave post
    ∷ to (lit (codes "group") ∷ lit (codes "ls") ∷ var ∷ []) group_list_members get
    ∷ to (lit (codes "group") ∷ lit (codes "repo") ∷ lit (codes "commit") ∷ var ∷ [])
        group_repo_commit post
    ∷ to (lit (codes "group") ∷ lit (codes "repo") ∷ lit (codes "ls") ∷ var ∷ [])
        group_repo_list_files get
    ∷ to (lit (codes "group") ∷ lit (codes "repo") ∷ lit (codes "grant") ∷ var ∷ var ∷ var ∷ [])
        group_repo_grant post
    ∷ to (lit (codes "group") ∷ lit (codes "repo") ∷ lit (codes "revoke") ∷ var ∷ var ∷ var ∷ [])
        group_repo_revoke post
    ∷ to (lit (codes "ls") ∷ lit (codes "groups") ∷ []) ls_groups get
    ∷ to (lit (codes "ls") ∷ lit (codes "tx") ∷ []) list_transactions get
    ∷ []

abbrev with_var : Bytes → Option (List Bytes) → Option (List Bytes)
with_var s none = none
with_var s (some vars) = some (s ∷ vars)

-- The values of a template's variables in a path.
unfoldable pub fits : List Segment → List Bytes → Option (List Bytes)
fits [] [] = some []
fits [] (s ∷ ss) = none
fits (t ∷ ts) [] = none
fits (lit l ∷ ts) (s ∷ ss) = let rest = fits ts ss in if bytes_equal l s then rest else none
fits (var ∷ ts) (s ∷ ss) = with_var s (fits ts ss)

abbrev same_method : Method → Method → Bool
same_method get get = true
same_method get post = false
same_method post get = false
same_method post post = true

abbrev Found : Type 0
Found = Option (Endpoint × List Bytes)

abbrev found : Endpoint → Option (List Bytes) → Found → Found
found endpoint none rest = rest
found endpoint (some vars) rest = some (endpoint, vars)

-- The first route that fits.
unfoldable pub first_match : List Route → Method → List Bytes → Option (Endpoint × List Bytes)
unfolding fits
first_match [] method ss = none
first_match (r ∷ rs) method ss =
    let rest = first_match rs method ss in
    if same_method r.method method then found r.endpoint (fits r.template ss) rest else rest

abbrev pub path_of : List Bytes → Bytes
path_of [] = []
path_of (s ∷ ss) = b'/' ∷ (s ++ path_of ss)

-- A byte that stands for itself in a path: a letter, a digit, a dash, an underscore or a dot.
abbrev pub is_plain : ℕ → Bool
is_plain c =
    (leb b'a' c && leb c b'z')
    || (leb b'A' c && leb c b'Z')
    || (leb b'0' c && leb c b'9')
    || c == b'-'
    || c == b'_'
    || c == b'.'

abbrev pub all_plain : Bytes → Bool
all_plain [] = true
all_plain (c ∷ cs) = is_plain c && all_plain cs

-- A segment that is neither empty nor "." or "..": it begins with another byte than a dot.
abbrev pub IsPlain : Bytes → Type 0
IsPlain [] = ⊥
IsPlain (c ∷ cs) = (c == b'.' ≡ false) × (all_plain (c ∷ cs) ≡ true)

-- `mux.Router`, by the handler that it calls and the variables that it gives.
abbrev pub Router : Type 0
Router = List Route → Method → Bytes → Option (Endpoint × List Bytes)

-- Routes are tried in order, and a variable stands for one segment.
pub record IsRouter (router : Router) : Type 0 where
  pub picks :
      (rs : List Route) (method : Method) (ss : List Bytes)
      → All IsPlain ss
      → router rs method (path_of ss) ≡ first_match rs method ss
