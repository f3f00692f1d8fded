-- ===== src/GroupContext/Frame/Key.antt =====
-- `Update` of a group's context keeps the group's key and address.
use ipfs_share.Prelude.{◌≡◌, refl, ap, ◌∙◌, List, Bytes, Result, ok, err, panic}
use ipfs_share.Group.{Group, GroupError}
use ipfs_share.Group as Groups
use ipfs_share.Group.Frame.{update_keeps}
use ipfs_share.Fs.Disk.{Disk, FsError}
use ipfs_share.Fs.Meta.{Address, GroupMeta}
use ipfs_share.Fs.External.{External, Codec}
use ipfs_share.Fs.Storage.{Storage}
use ipfs_share.Fs.Repo as Repos
use ipfs_share.GroupContext.{
  Eth, ContextError, GroupContext, repo_updated, saved, group_updated, fetched, contract_state,
  update, save_group,
}

module _ (x : External) (s : Storage) (eth : Eth) where
  repo_updated-group :
      (ctx : GroupContext) (r : Repos.RunResult) → (repo_updated x s eth ctx r).1.group ≡ ctx.group
  repo_updated-group ctx (ok _, run, d) = refl
  repo_updated-group ctx (err e, run, d) = refl
  repo_updated-group ctx (panic, run, d) = refl

  saved-group :
      (ctx : GroupContext) (r : Result FsError (Unit {0}) × Disk)
      → (saved x s eth ctx r).1.group ≡ ctx.group
  saved-group ctx (ok _, d) =
      repo_updated-group ctx (Repos.update x s ctx.group ctx.repo ctx.group.ipfs_hash d)
  saved-group ctx (err e, d) = refl
  saved-group ctx (panic, d) = refl

  group_updated-group :
      (c : Codec GroupMeta) (ctx : GroupContext) (r : Result GroupError (Unit {0}) × Group)
      (d : Disk)
      → (group_updated x s eth c ctx r d).1.group ≡ r.1
  group_updated-group c ctx (ok _, g) d =
      saved-group (record ctx { group = g }) (save_group x s eth c g d)
  group_updated-group c ctx (err _, g) d = refl
  group_updated-group c ctx (panic, g) d = refl

  fetched-boxer :
      (c : Codec GroupMeta) (ctx : GroupContext)
      (r : Result ContextError (Bytes × List Address × Bytes)) (d : Disk)
      → (fetched x s eth c ctx r d).1.group.boxer ≡ ctx.group.boxer
  fetched-boxer c ctx (ok (name, members, hash)) d =
      ap (λ (g : Group). g.boxer)
        (group_updated-group c ctx (Groups.update x.box name members hash ctx.group) d)
      ∙ (update_keeps x.box name members hash ctx.group).1
  fetched-boxer c ctx (err e) d = refl
  fetched-boxer c ctx panic d = refl

  pub update-boxer :
      (c : Codec GroupMeta) (ctx : GroupContext) (d : Disk)
      → (update x s eth c ctx d).1.group.boxer ≡ ctx.group.boxer
  unfolding update
  update-boxer c ctx d = fetched-boxer c ctx (contract_state x s eth) d
