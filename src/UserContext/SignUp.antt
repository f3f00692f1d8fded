-- ===== src/UserContext/SignUp.antt =====
-- `SignUp` of client/usercontext.go.
use ipfs_share.Prelude.{Bytes, Option, none, some, Result, ok, err, panic, nat_eq}
use ipfs_share.Account.{Account, new_account, save}
use ipfs_share.Fs.Disk.{Disk, FsError}
use ipfs_share.Fs.Storage.{Storage}
use ipfs_share.Fs.Storage as Storages
use ipfs_share.GroupContext.{creates_account}
use ipfs_share.UserContext.{
  Blockchain, UserWorld, UserContext, UserHandled, no_ipfs_id, no_account, fs_failed, sent,
}

module _ (w : UserWorld) (chain : Blockchain) where
  abbrev pub registering : Account → UserContext → Disk → Option Bytes → UserHandled
  registering acc u d none = (err no_ipfs_id, u, d)
  registering acc u d (some id) =
      let name = acc.account_data.name in
      let key = acc.account_data.boxer.public_key in
      let (r, u') = sent (chain.takes_account name id key) (creates_account name id key) u in
      (r, u', d)

  abbrev pub registered : Account → UserContext → Result FsError (Unit {0}) × Disk → UserHandled
  registered acc u (ok _, d) = registering acc u d w.ipfs_id
  registered acc u (err e, d) = (err (fs_failed e), u, d)
  registered acc u (panic, d) = (panic, u, d)

  abbrev pub sign_up_with : Option Account → Bytes → UserContext → Disk → UserHandled
  sign_up_with none username u d = (err no_account, u, d)
  sign_up_with (some acc) username u d =
      let u' = record u { storage = Storages.init username u.storage } in
      registered acc u' (save w.accounts acc u'.storage d)

  -- `SignUp`, with the secret key that `rand.Read` gives.
  unfoldable pub sign_up : Bytes → Option Bytes → UserContext → Disk → UserHandled
  sign_up username secret u d = sign_up_with (new_account w.accounts username secret) username u d
