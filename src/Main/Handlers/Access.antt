-- ===== src/Main/Handlers/Access.antt =====
-- The handlers of main/main.go for the commands that grant and revoke write access.
use ipfs_share.Prelude.{
  ◌≡◌, refl, ap, ◌∙◌, List, [], ◌∷◌, ◌++◌, Bytes, bytes_eq, bytes_equal_refl, Bool, true, not,
  Option, some, if◌then◌else◌, contains, nat_eq, ==_refl, Bool-cases, inl, inr, remove_first, err,
}
use ipfs_share.Collections.Map.{get}
use ipfs_share.Collections.Map.Laws.{get-put}
use ipfs_share.Group.{is_member}
use ipfs_share.Fs.Disk.{Disk}
use ipfs_share.Fs.Meta.{Address, FileMeta, elements}
use ipfs_share.Fs.External.{External, File}
use ipfs_share.Fs.Storage.UserFiles.{base}
use ipfs_share.Fs.File.{Outcome3, grant_write_access, revoke_write_access}
use ipfs_share.Fs.File.Access.{
  members_of, pending_members, grant_write_access_lem, revoke_write_access_lem,
}
use ipfs_share.Fs.Repo.{get_file}
use ipfs_share.GroupContext.{GroupContext, not_a_member}
use ipfs_share.GroupContext.Access.{
  FileChange, change_access, on_file, changed_known, grant, revoke,
}
use ipfs_share.UserContext.{SignedIn, UserWorld, UserContext, enter, leave_with, on_group}
use ipfs_share.Main.Routes.Reaching.{call_of, grants, revokes}
use ipfs_share.Main.Handlers.{Site, Served, served, serve}
use ipfs_share.Main.Handlers.Sending.{on_group_lem}

-- The pending access list after a member's grant to `target`, and after its revocation.
abbrev pub granted_list : (user target : Address) → List Address → List Address
granted_list user target ws =
    if contains target ws then ws else if contains user ws then ws ++ target ∷ [] else ws

abbrev pub revoked_list : (user target : Address) → List Address → List Address
revoked_list user target ws =
    if contains user ws then (if contains target ws then remove_first target ws else ws) else ws

-- The client goes on with its transactions as they were, and with `members` as the pending access
-- list of the file `name` in the group's repository.
pub record Lists (u : UserContext) (group : Address) (name : Bytes) (members : List Address)
    (s : Served) : Type 0 where
  pub after : UserContext
  pub context : GroupContext
  pub file : File
  pub client : s.1 ≡ some after
  pub has_context : get group after.groups ≡ some context
  pub has_file : get_file name context.repo ≡ some file
  pub has_members : pending_members file ≡ members
  pub transactions : after.transactions ≡ u.transactions

module _ (x : External) (f : File) (p : FileMeta) (user target : Address) (d : Disk)
    (pending : f.pending_changes ≡ some p) where
  -- A file that keeps its metadata and has the pending access list `ws`.
  abbrev Leaves : List Address → Outcome3 (Unit {0}) → Type 0
  Leaves ws (r, g, _) = (g.meta ≡ f.meta) × (pending_members g ≡ ws)

  old_members : pending_members f ≡ elements p.write_access_list
  old_members = ap (λ (o : Option FileMeta). members_of o) pending

  grant-Leaves :
      Leaves
        (granted_list user target (elements p.write_access_list))
        (grant_write_access x f user target d)
  grant-Leaves =
      let ws = elements p.write_access_list in
      rw (grant_write_access_lem x f p user target d pending)
        (elim (Bool-cases (contains target ws)) [
          | inl t ↦ rw t (refl, old_members)
          | inr t ↦ rw t (elim (Bool-cases (contains user ws)) [
            | inl v ↦ rw v (refl, refl)
            | inr v ↦ rw v (refl, old_members)
          ])
        ])

  revoke-Leaves :
      Leaves
        (revoked_list user target (elements p.write_access_list))
        (revoke_write_access x f user target d)
  revoke-Leaves =
      let ws = elements p.write_access_list in
      rw (revoke_write_access_lem x f p user target d pending)
        (elim (Bool-cases (contains user ws)) [
          | inl v ↦ rw v (elim (Bool-cases (contains target ws)) [
            | inl t ↦ rw t (refl, refl)
            | inr t ↦ rw t (refl, old_members)
          ])
          | inr v ↦ rw v (refl, old_members)
        ])

module _ (w : UserWorld) (site : Site) (u : UserContext) (si : SignedIn) (d : Disk)
    (signed : u.signed_in ≡ some si) (group file member : Bytes) (ctx : GroupContext) (f : File)
    (p : FileMeta) (found : get (site.hex_to_address group) u.groups ≡ some ctx)
    (is_in : is_member (site.hex_to_address member) ctx.group ≡ true)
    (has : get_file (base file) ctx.repo ≡ some f) (named : f.meta.file_name ≡ base file)
    (pending : f.pending_changes ≡ some p) where
  changed-Lists :
      (change : FileChange w.fs u.storage) (ws : List Address)
      → Leaves w.fs f p ctx.account
          (site.hex_to_address member)
          d
          pending
          ws
          (change f ctx.account (site.hex_to_address member) d)
      → Lists u (site.hex_to_address group) (base file) ws (
          served (
            on_group
              (site.hex_to_address group)
              (change_access w.fs u.storage change file (site.hex_to_address member) site.key)
              u
              d))
  unfolding change_access get_file
  changed-Lists change ws (kept, is) =
      let g = site.hex_to_address group in
      let t = site.hex_to_address member in
      let r = change f ctx.account t d in
      let h = changed_known w.fs u.storage (enter u si ctx) r in
      record {
        after = (leave_with g u si h).1;
        context = h.1;
        file = r.1;
        client =
            ap (λ (q : Served). q.1)
              (ap served
                (on_group_lem g _ u d si ctx signed found ∙ ap (leave_with g u si) at_file));
        has_context = get-put g g (some h.1) u.groups ∙ rw (==_refl g) refl;
        has_file =
            get-put (base file) r.1.meta.file_name (some r.1) ctx.repo.files
            ∙ rw (ap (λ (m : FileMeta). m.file_name) kept ∙ named, bytes_equal_refl (base file))
                refl;
        has_members = is;
        transactions = refl;
      }
    where
      at_file :
          change_access w.fs u.storage change file
            (site.hex_to_address member)
            site.key
            (enter u si ctx)
            d
          ≡ changed_known w.fs u.storage
              (enter u si ctx)
              (change f ctx.account (site.hex_to_address member) d)
      at_file =
          ap
            (λ (b : Bool).
              if not b
              then (err not_a_member, enter u si ctx, d)
              else on_file w.fs u.storage change file (site.hex_to_address member) site.key
                  (enter u si ctx) d (get_file (base file) ctx.repo))
            is_in
          ∙ ap
              (on_file w.fs u.storage change file (site.hex_to_address member) site.key
                (enter u si ctx) d)
              has

  -- For a signed-in user with a context of the group named, a member of it as the target, and a
  -- file of that group's repository under the base name of the path typed, with pending changes:
  -- the call that the command grant is to reach leaves the target behind the file's pending access
  -- list, if it is not in there and the user is; the call of revoke takes its first occurrence
  -- out, if both are in there; else the list stays, and neither sends a transaction.
  pub serve-Lists :
      let ws = elements p.write_access_list in
      let g = site.hex_to_address group in
      let t = site.hex_to_address member in
      let grant_call = call_of (grants group file member) in
      let revoke_call = call_of (revokes group file member) in
      Lists u g
        (base file)
        (granted_list ctx.account t ws)
        (serve w site grant_call.endpoint grant_call.vars grant_call.body (some u) d)
      × Lists u g
          (base file)
          (revoked_list ctx.account t ws)
          (serve w site revoke_call.endpoint revoke_call.vars revoke_call.body (some u) d)
  unfolding serve grant revoke
  serve-Lists =
      let t = site.hex_to_address member in
      (
        changed-Lists (grant_write_access w.fs) _ (grant-Leaves w.fs f p ctx.account t d pending),
        changed-Lists (revoke_write_access w.fs) _ (revoke-Leaves w.fs f p ctx.account t d pending),
      )
