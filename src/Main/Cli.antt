-- ===== src/Main/Cli.antt =====
-- The command line of main/main.go: what `main` does about the arguments that `flag` leaves.
use ipfs_share.Prelude.{
  List, [], ◌∷◌, ◌++◌, Bytes, bytes_equal, codes, Bool, true, false, ◌||◌, if◌then◌else◌,
}
use ipfs_share.Main.{Method, get, post}

-- `json` says whether the header for JSON is set.
pub record Request : Type 0 where
  pub method : Method
  pub url : Bytes
  pub body : Bytes
  pub json : Bool

-- How `main` ends: with a message and exit code 1, as the daemon, by sending a request and printing
-- the answer, or in a panic.
pub data Run : Type 0 where
  helps : Bytes → Run
  starts_daemon : Run
  sends : Request → Run
  panics : Run

abbrev pub quoted : Bytes → Bytes
quoted s = b'"' ∷ (s ++ b'"' ∷ [])

-- A further part of the path.
abbrev pub part : Bytes → Bytes → Bytes
part url s = url ++ b'/' ∷ s

-- `takes` says whether `http.NewRequest` takes a method and a URL.
module _ (takes : Method → Bytes → Bool) where
  abbrev new_request : Method → Bytes → Bytes → Bool → Run
  new_request method url body json =
      if takes method url
      then sends (record { method = method; url = url; body = body; json = json })
      else panics

  abbrev run_sign_up : Bytes → List Bytes → Run
  run_sign_up url [] = helps (codes "No username found")
  run_sign_up url (username ∷ args) =
      new_request post (part (part url (codes "signup")) username) [] false

  abbrev run_ls : Bytes → List Bytes → Run
  run_ls url [] = helps (
      codes
        "You must specify what to list {-g|-i|-tx} (groups, pending invitations, pending transactions)")
  run_ls url (arg ∷ args) =
      if bytes_equal arg (codes "-g")
      then new_request get (part (part url (codes "ls")) (codes "groups")) [] false
      else if bytes_equal arg (codes "-i")
      then new_request get (part (part url (codes "ls")) (codes "invs")) [] false
      else if bytes_equal arg (codes "-tx")
      then new_request get (part (part url (codes "ls")) (codes "tx")) [] false
      else helps (codes "Argument must be one of {-g|-i|-tx}")

  abbrev run_create : Bytes → List Bytes → Run
  run_create url [] = helps (codes "No group name found")
  run_create url (name ∷ args) = new_request post (part url (codes "create")) (quoted name) true

  abbrev run_invite : Bytes → List Bytes → Run
  run_invite url [] = helps (codes "Not enough arguments")
  run_invite url (group ∷ []) = helps (codes "Not enough arguments")
  run_invite url (group ∷ (member ∷ args)) =
      new_request post (part (part url (codes "invite")) group) (quoted member) true

  abbrev run_leave : Bytes → List Bytes → Run
  run_leave url [] = helps (codes "No group argument found")
  run_leave url (group ∷ args) = new_request post (part (part url (codes "leave")) group) [] true

  abbrev run_group_ls : Bytes → List Bytes → Run
  run_group_ls url [] = helps (codes "No group argument found")
  run_group_ls url (group ∷ args) = new_request get (part (part url (codes "ls")) group) [] false

  -- `grant` and `revoke`, behind the group.
  abbrev run_access : Bytes → Bytes → List Bytes → Run
  run_access url group [] = helps (codes "Not enough arguments")
  run_access url group (file ∷ []) = helps (codes "Not enough arguments")
  run_access url group (file ∷ (member ∷ args)) =
      new_request post (part (part (part url group) file) member) [] true

  -- A request that no case makes is nil, and `client.Do` panics on it.
  abbrev run_repo : Bytes → List Bytes → Run
  run_repo url [] = helps (codes "Not enough arguments")
  run_repo url (command ∷ []) = helps (codes "Not enough arguments")
  run_repo url (command ∷ (group ∷ args)) =
      let url' = part (part url (codes "repo")) command in
      if bytes_equal command (codes "ls")
      then new_request get (part url' group) [] true
      else if bytes_equal command (codes "commit")
      then new_request post (part url' group) [] true
      else if bytes_equal command (codes "grant") || bytes_equal command (codes "revoke")
      then run_access url' group args
      else panics

  abbrev run_group : Bytes → List Bytes → Run
  run_group url [] = helps (codes "No group sub-command found")
  run_group url (command ∷ args) =
      let url' = part url (codes "group") in
      if bytes_equal command (codes "create")
      then run_create url' args
      else if bytes_equal command (codes "invite")
      then run_invite url' args
      else if bytes_equal command (codes "leave")
      then run_leave url' args
      else if bytes_equal command (codes "ls")
      then run_group_ls url' args
      else if bytes_equal command (codes "repo")
      then run_repo url' args
      else panics

  -- `main`, for the URL of the `-a` flag and the other arguments.
  unfoldable pub main : Bytes → List Bytes → Run
  main url [] = helps (codes "No command found")
  main url (command ∷ args) =
      if bytes_equal command (codes "signup")
      then run_sign_up url args
      else if bytes_equal command (codes "ls")
      then run_ls url args
      else if bytes_equal command (codes "daemon")
      then starts_daemon
      else if bytes_equal command (codes "group")
      then run_group url args
      else helps (codes "Unknown command")
