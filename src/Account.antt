-- ===== src/Account.antt =====
-- client/account.go: an account, its key pair and its contract.
pub mod Saved
use ipfs_share.Prelude.{
  ◌≡◌, List, [], ◌∷◌, Bytes, Bool, true, false, not, Option, none, some, Result, ok, err,
  if◌then◌else◌,
}
use ipfs_share.Crypto.AnonymBoxer.{AnonymBoxer}
use ipfs_share.Fs.Disk.{
  Disk, Action, not_encoded, not_decoded, random_failed, no_account_contract, ◌>>=◌, ◌>>◌, pure,
  require, check,
}
use ipfs_share.Fs.Meta.{Address}
use ipfs_share.Fs.External.{Codec}
use ipfs_share.Fs.Storage.{Storage}
use ipfs_share.Fs.Storage.UserFiles.{save_account_data, load_account_data}

pub record AccountData : Type 0 where
  pub name : Bytes
  pub contract_address : Address
  pub boxer : AnonymBoxer

-- `contract` is the address that the contract object was bound to, `none` for nil. The storage is an
-- argument of the methods.
pub record Account : Type 0 where
  pub account_data : AccountData
  pub contract : Option Address

-- What the account calls and the source does not implement: curve25519, encoding/json, and whether
-- `ethacc.NewAccount` gives a contract object for an address.
pub record AccountWorld : Type 0 where
  pub scalar_base_mult : Bytes → Bytes
  pub account_codec : Codec AccountData
  pub new_contract : Address → Bool

module _ (w : AccountWorld) where
  -- `SetContract`.
  unfoldable pub set_contract : Address → Account → Option Account
  set_contract address acc =
      if w.new_contract address
      then some (record {
        account_data = record (acc.account_data) { contract_address = address };
        contract = some address;
      })
      else none

  -- `Save`.
  pub save : Account → Storage → Action (Unit {0})
  save acc s = do
    encoded ← require (w.account_codec.marshal acc.account_data) not_encoded
    save_account_data encoded s

  -- `NewAccountFromStorage`.
  pub new_account_from_storage : Storage → Action Account
  new_account_from_storage s = do
    encoded ← load_account_data s
    acc_data ← require (w.account_codec.unmarshal encoded) not_decoded
    check (w.new_contract acc_data.contract_address) no_account_contract
    pure (record { account_data = acc_data; contract = some acc_data.contract_address })

  -- `NewAccount`, with the secret key that `rand.Read` gives, or `none` where that fails. The address
  -- is zero until the contract is set.
  unfoldable pub new_account : Bytes → Option Bytes → Option Account
  new_account username none = none
  new_account username (some secret) = some (record {
    account_data = record {
      name = username;
      contract_address = 0;
      boxer = record { public_key = w.scalar_base_mult secret; private_key = secret };
    };
    contract = none;
  })
