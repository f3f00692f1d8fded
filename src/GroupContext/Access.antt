-- ===== src/GroupContext/Access.antt =====
-- `GrantWriteAccess`, `RevokeWriteAccess`, `ListFiles` and `ListMembers` of client/groupcontext.go.
use ipfs_share.Prelude.{
  List, [], ◌∷◌, Bytes, bytes_eq, not, Option, none, some, if◌then◌else◌, Result, ok, err, panic,
}
use ipfs_share.Group.{is_member}
use ipfs_share.Fs.Disk.{Disk, FsError}
use ipfs_share.Fs.Meta.{Address, elements}
use ipfs_share.Fs.External.{External, File}
use ipfs_share.Fs.Storage.{Storage}
use ipfs_share.Fs.Storage.UserFiles.{base}
use ipfs_share.Fs.File.{Outcome3, new_group_file, grant_write_access, revoke_write_access}
use ipfs_share.Fs.Repo.{GroupRepo, get_file}
use ipfs_share.Fs.Repo as Repos
use ipfs_share.Fs.Repo.Opening.{files}
use ipfs_share.Communication.Message.{Contact}
use ipfs_share.GroupContext.{ContextError, not_a_member, access_error, GroupContext, Handled}

pub record MemberView : Type 0 where
  pub name : Bytes
  pub address : Bytes

pub record FileView : Type 0 where
  pub name : Bytes
  pub write_access : List MemberView

module _ (x : External) (s : Storage) where
  -- The change of the access list of a file: a method of `File`.
  abbrev pub FileChange : Type 0
  FileChange = File → Address → Address → Disk → Outcome3 (Unit {0})

  abbrev pub access_result : Result FsError (Unit {0}) → Result ContextError (Unit {0})
  access_result (ok _) = ok tt
  access_result (err e) = err (access_error e)
  access_result panic = panic

  -- The map of the repository holds a pointer to the file, so a change of the file is stored there.
  abbrev pub changed_known : GroupContext → Outcome3 (Unit {0}) → Handled
  changed_known ctx (r, f, d) = (access_result r, record ctx { repo = Repos.store f ctx.repo }, d)

  -- A new file stays outside the repository.
  abbrev pub changed_new : GroupContext → Outcome3 (Unit {0}) → Handled
  changed_new ctx (r, f, d) = (access_result r, ctx, d)

  abbrev pub with_new : FileChange → Address → GroupContext → Result FsError File × Disk → Handled
  with_new change user ctx (ok f, d) = changed_new ctx (change f ctx.account user d)
  with_new change user ctx (err e, d) = (err (access_error e), ctx, d)
  with_new change user ctx (panic, d) = (panic, ctx, d)

  abbrev pub on_file :
      FileChange → Bytes → Address → Option Bytes → GroupContext → Disk → Option File → Handled
  on_file change file_path user key ctx d (some f) = changed_known ctx (change f ctx.account user d)
  on_file change file_path user key ctx d none = with_new change user ctx (
      new_group_file x file_path (base file_path) (some (ctx.account ∷ [])) ctx.group.address key s
        d)

  -- What the two methods share: the test of the membership, and the finding of the file.
  unfoldable pub change_access :
      FileChange → Bytes → Address → Option Bytes → GroupContext → Disk → Handled
  change_access change file_path user key ctx d =
      if not (is_member user ctx.group)
      then (err not_a_member, ctx, d)
      else on_file change file_path user key ctx d (get_file (base file_path) ctx.repo)

  -- `GrantWriteAccess`, with what `rand.Read` gives as the key of a new file.
  unfoldable pub grant : Bytes → Address → Option Bytes → GroupContext → Disk → Handled
  grant = change_access (grant_write_access x)

  -- `RevokeWriteAccess`.
  unfoldable pub revoke : Bytes → Address → Option Bytes → GroupContext → Disk → Handled
  revoke = change_access (revoke_write_access x)

  -- "<error>".
  abbrev error_name : Bytes
  error_name = b'<' ∷ b'e' ∷ b'r' ∷ b'r' ∷ b'o' ∷ b'r' ∷ b'>' ∷ []

  abbrev contact_name : Option Contact → Bytes
  contact_name none = error_name
  contact_name (some c) = c.name

  module _ (book : Address → Option Contact) where
    abbrev pub member_view : Address → MemberView
    member_view a = record { name = contact_name (book a); address = x.address_string a }

    pub member_views : List Address → List MemberView
    member_views [] = []
    member_views (a ∷ as') = member_view a ∷ member_views as'

    file_views : List File → List FileView
    file_views [] = []
    file_views (f ∷ fs) =
        record {
          name = f.meta.file_name;
          write_access = member_views (elements f.meta.write_access_list);
        }
        ∷ file_views fs

    -- `ListFiles` and `ListMembers`.
    unfoldable pub list_files : GroupContext → List FileView
    unfolding file_views
    list_files ctx = file_views (files ctx.repo)

    unfoldable pub list_members : GroupContext → List MemberView
    list_members ctx = member_views ctx.group.members
