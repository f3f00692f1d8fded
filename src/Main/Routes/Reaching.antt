-- ===== src/Main/Routes/Reaching.antt =====
-- From the command line to the handlers: which request a command sends, and where it arrives.
use mathlib.Core.List.{append-nil, append_assoc}
use ipfs_share.Prelude.{
  ◌≡◌, refl, sym, ◌∙◌, List, [], ◌∷◌, ◌++◌, Bytes, bytes_equal, codes, Bool, true, false, none,
  some, All, if◌then◌else◌,
}
use ipfs_share.Main.{
  Method, get, post, Endpoint, sign_up, create_group, invite, leave, group_list_members,
  group_repo_commit, group_repo_list_files, group_repo_grant, group_repo_revoke, ls_groups,
  list_transactions,
}
use ipfs_share.Main.Cli.{Request, Run, sends, panics, quoted, part, main}
use ipfs_share.Main.Routes.{Router, IsRouter, IsPlain, routes, first_match, path_of}

-- The commands that the usage text lists, but for the daemon and the pending invitations.
pub data Command : Type 0 where
  signs_up : (username : Bytes) → Command
  lists_groups lists_transactions : Command
  creates : (name : Bytes) → Command
  invites : (group member : Bytes) → Command
  leaves lists_members lists_files commits : (group : Bytes) → Command
  grants revokes : (group file member : Bytes) → Command

-- What is typed.
abbrev pub args_of : Command → List Bytes
args_of (signs_up username) = codes "signup" ∷ username ∷ []
args_of lists_groups = codes "ls" ∷ codes "-g" ∷ []
args_of lists_transactions = codes "ls" ∷ codes "-tx" ∷ []
args_of (creates name) = codes "group" ∷ codes "create" ∷ name ∷ []
args_of (invites group member) = codes "group" ∷ codes "invite" ∷ group ∷ member ∷ []
args_of (leaves group) = codes "group" ∷ codes "leave" ∷ group ∷ []
args_of (lists_members group) = codes "group" ∷ codes "ls" ∷ group ∷ []
args_of (lists_files group) = codes "group" ∷ codes "repo" ∷ codes "ls" ∷ group ∷ []
args_of (commits group) = codes "group" ∷ codes "repo" ∷ codes "commit" ∷ group ∷ []
args_of (grants group file member) =
    codes "group" ∷ codes "repo" ∷ codes "grant" ∷ group ∷ file ∷ member ∷ []
args_of (revokes group file member) =
    codes "group" ∷ codes "repo" ∷ codes "revoke" ∷ group ∷ file ∷ member ∷ []

-- What a handler is to be given: the variables of its route, and the body of the request.
pub record Call : Type 0 where
  pub endpoint : Endpoint
  pub vars : List Bytes
  pub body : Bytes

abbrev call : Endpoint → List Bytes → Bytes → Call
call endpoint vars body = record { endpoint = endpoint; vars = vars; body = body }

-- What each command is to do.
abbrev pub call_of : Command → Call
call_of (signs_up username) = call sign_up (username ∷ []) []
call_of lists_groups = call ls_groups [] []
call_of lists_transactions = call list_transactions [] []
call_of (creates name) = call create_group [] (quoted name)
call_of (invites group member) = call invite (group ∷ []) (quoted member)
call_of (leaves group) = call leave (group ∷ []) []
call_of (lists_members group) = call group_list_members (group ∷ []) []
call_of (lists_files group) = call group_repo_list_files (group ∷ []) []
call_of (commits group) = call group_repo_commit (group ∷ []) []
call_of (grants group file member) = call group_repo_grant (group ∷ file ∷ member ∷ []) []
call_of (revokes group file member) = call group_repo_revoke (group ∷ file ∷ member ∷ []) []

-- A request that arrives at a call of a handler.
pub record Reaches (router : Router) (url : Bytes) (run : Run) (c : Call) : Type 0 where
  pub request : Request
  pub path : Bytes
  pub sent : run ≡ sends request
  pub at : request.url ≡ url ++ path
  pub routed : router routes request.method path ≡ some (c.endpoint, c.vars)
  pub with_body : request.body ≡ c.body

-- The parts of a path, one behind the other.
abbrev pub parts : Bytes → List Bytes → Bytes
parts url [] = url
parts url (s ∷ ss) = parts (part url s) ss

parts-path_of : (url : Bytes) (ss : List Bytes) → parts url ss ≡ url ++ path_of ss
parts-path_of url [] = sym (append-nil url)
parts-path_of url (s ∷ ss) =
    parts-path_of (part url s) ss ∙ append_assoc url (b'/' ∷ s) (path_of ss)

module _ (takes : Method → Bytes → Bool)
    (takes_all : (m : Method) (url : Bytes) → takes m url ≡ true) (router : Router)
    (laws : IsRouter router) where
  -- A request for a path of ordinary segments.
  reaches :
      (url : Bytes) (run : Run) (ss : List Bytes) (method : Method) (json : Bool) (c : Call)
      → All IsPlain ss
      → first_match routes method ss ≡ some (c.endpoint, c.vars)
      → run ≡ (
          if takes method (parts url ss)
          then sends (record { method = method; url = parts url ss; body = c.body; json = json })
          else panics)
      → Reaches router url run c
  reaches url run ss method json c h fits_first e = record {
    request = record { method = method; url = parts url ss; body = c.body; json = json };
    path = path_of ss;
    sent = e ∙ rw (takes_all method (parts url ss)) refl;
    at = parts-path_of url ss;
    routed = laws.picks routes method ss h ∙ fits_first;
    with_body = refl;
  }

  -- Where requests can be made and the router follows its routes, for arguments that are plain
  -- path segments: each command of the usage text, but for the daemon and ls -i, sends one request
  -- whose path is routed to the handler that is meant, with the arguments as the variables of the
  -- route or in the body.
  pub main-Reaches :
      (url : Bytes) (c : Command)
      → All IsPlain (call_of c).vars
      → Reaches router url (main takes url (args_of c)) (call_of c)
  unfolding main first_match bytes_equal
  main-Reaches url (signs_up username) (h, _) =
      reaches url _ (codes "signup" ∷ username ∷ []) post false (call_of (signs_up username))
        ((refl, refl), (h, tt)) refl refl
  main-Reaches url lists_groups h =
      reaches url _ (codes "ls" ∷ codes "groups" ∷ []) get false (call_of lists_groups)
        ((refl, refl), ((refl, refl), tt)) refl refl
  main-Reaches url lists_transactions h =
      reaches url _ (codes "ls" ∷ codes "tx" ∷ []) get false (call_of lists_transactions)
        ((refl, refl), ((refl, refl), tt)) refl refl
  main-Reaches url (creates name) h =
      reaches url _ (codes "group" ∷ codes "create" ∷ []) post true (call_of (creates name))
        ((refl, refl), ((refl, refl), tt)) refl refl
  main-Reaches url (invites group member) (h, _) =
      reaches url _ (codes "group" ∷ codes "invite" ∷ group ∷ []) post true
        (call_of (invites group member)) ((refl, refl), ((refl, refl), (h, tt))) refl refl
  main-Reaches url (leaves group) (h, _) =
      reaches url _ (codes "group" ∷ codes "leave" ∷ group ∷ []) post true (call_of (leaves group))
        ((refl, refl), ((refl, refl), (h, tt))) refl refl
  main-Reaches url (lists_members group) (h, _) =
      reaches url _ (codes "group" ∷ codes "ls" ∷ group ∷ []) get false
        (call_of (lists_members group)) ((refl, refl), ((refl, refl), (h, tt))) refl refl
  main-Reaches url (lists_files group) (h, _) =
      reaches url _ (codes "group" ∷ codes "repo" ∷ codes "ls" ∷ group ∷ []) get true
        (call_of (lists_files group)) ((refl, refl), ((refl, refl), ((refl, refl), (h, tt)))) refl
        refl
  main-Reaches url (commits group) (h, _) =
      reaches url _ (codes "group" ∷ codes "repo" ∷ codes "commit" ∷ group ∷ []) post true
        (call_of (commits group)) ((refl, refl), ((refl, refl), ((refl, refl), (h, tt)))) refl refl
  main-Reaches url (grants group file member) h =
      reaches url _ (codes "group" ∷ codes "repo" ∷ codes "grant" ∷ group ∷ file ∷ member ∷ []) post
        true (call_of (grants group file member)) ((refl, refl), ((refl, refl), ((refl, refl), h)))
        refl refl
  main-Reaches url (revokes group file member) h =
      reaches url _ (codes "group" ∷ codes "repo" ∷ codes "revoke" ∷ group ∷ file ∷ member ∷ [])
        post true (call_of (revokes group file member))
        ((refl, refl), ((refl, refl), ((refl, refl), h))) refl refl

  -- Where requests can be made and the router follows its routes, ls -i sends a request that no
  -- route takes, whatever its method.
  pub ls_invitations_lem :
      (url : Bytes)
      → (request : Request) × (main takes url (codes "ls" ∷ codes "-i" ∷ []) ≡ sends request)
        × (path : Bytes) × (request.url ≡ url ++ path)
        × ((method : Method) → router routes method path ≡ none)
  unfolding main first_match bytes_equal
  ls_invitations_lem url =
      let ss = codes "ls" ∷ codes "invs" ∷ [] in
      (
        record { method = get; url = parts url ss; body = []; json = false },
        rw (takes_all get (parts url ss)) refl,
        path_of ss,
        parts-path_of url ss,
        λ method. laws.picks routes method ss ((refl, refl), ((refl, refl), tt)) ∙ unrouted method,
      )
    where
      unrouted :
          (method : Method) → first_match routes method (codes "ls" ∷ codes "invs" ∷ []) ≡ none
      unrouted get = refl
      unrouted post = refl
