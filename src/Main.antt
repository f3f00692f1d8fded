-- ===== src/Main.antt =====
-- main/main.go: the command line, the table of routes, and the handlers of the HTTP server.
pub mod Cli
pub mod Routes
pub mod Handlers
use ipfs_share.Prelude.{Bytes}

pub data Method : Type 0 where
  get post : Method

-- The handlers.
pub data Endpoint : Type 0 where
  sign_up sign_out create_group join_group invite leave group_list_members : Endpoint
  group_repo_commit group_repo_list_files group_repo_grant group_repo_revoke : Endpoint
  ls_groups list_transactions : Endpoint
