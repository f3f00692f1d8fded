-- ===== src/Account/Saved.antt =====
-- An account that was saved is loaded as it was.
use ipfs_share.Prelude.{◌≡◌, refl, ap, ◌∙◌, Bytes, bytes_equal_refl, true, false, some, ok}
use ipfs_share.Fs.Disk.{
  Disk, Action, not_encoded, not_decoded, no_account_contract, ◌>>=◌, ◌>>◌, pure, require, check,
  lookup,
}
use ipfs_share.Fs.Disk.Laws.{bind_ok, create_and_write_file_lem, read_file_lem, written}
use ipfs_share.Fs.External.{IsCodec}
use ipfs_share.Fs.Storage.{Storage}
use ipfs_share.Fs.Storage.Downloads.{Usable}
use ipfs_share.Fs.Storage.UserFiles.{account_path, save_account_data, load_account_data}
use ipfs_share.Account.{AccountData, Account, AccountWorld, save, new_account_from_storage}

module _ (w : AccountWorld) (laws : IsCodec w.account_codec) where
  -- The disk has the account's data.
  pub record HasAccount (s : Storage) (d : Disk) (a : AccountData) : Type 0 where
    pub encoded : Bytes
    pub found : lookup (account_path s) d.files ≡ some encoded
    pub decodes : w.account_codec.unmarshal encoded ≡ some a
    pub readable : d.denied (account_path s) ≡ false

  pub save_lem :
      (acc : Account) (s : Storage) (d : Disk)
      → Usable (account_path s) d
      → (bs : Bytes) × (save w acc s d ≡ (ok tt, written (account_path s) bs d))
        × HasAccount s (written (account_path s) bs d) acc.account_data
  unfolding save save_account_data
  save_lem acc s d u =
      let (bs, marshals, unmarshals) = laws.round_trip acc.account_data in
      (
        bs,
        ap (λ o. (require o not_encoded >>= λ e. save_account_data e s) d) marshals
            ∙ create_and_write_file_lem (account_path s) bs d u.creatable u.writable,
        record {
          encoded = bs;
          found = rw (bytes_equal_refl (account_path s)) refl;
          decodes = unmarshals;
          readable = u.creatable;
        },
      )

  pub new_account_from_storage_lem :
      (a : AccountData) (s : Storage) (d : Disk)
      → HasAccount s d a
      → w.new_contract a.contract_address ≡ true
      → new_account_from_storage w s d
        ≡ (ok (record { account_data = a; contract = some a.contract_address }), d)
  unfolding new_account_from_storage load_account_data
  new_account_from_storage_lem a s d h bound =
      bind_ok (load_account_data s)
        (λ e. require (w.account_codec.unmarshal e) not_decoded >>= bind) d
        (read_file_lem (account_path s) h.encoded d h.readable h.found)
      ∙ ap (λ o. (require o not_decoded >>= bind) d) h.decodes
      ∙ ap (λ b. (check b no_account_contract >> pure (loaded a)) d) bound
    where
      loaded : AccountData → Account
      loaded b = record { account_data = b; contract = some b.contract_address }

      bind : AccountData → Action Account
      bind b = check (w.new_contract b.contract_address) no_account_contract >> pure (loaded b)

  -- An account that was saved is loaded with its data, bound to its address.
  pub new_account_from_storage-save :
      (acc : Account) (s : Storage) (d : Disk)
      → Usable (account_path s) d
      → w.new_contract acc.account_data.contract_address ≡ true
      → let (r, d') = save w acc s d in
        (r ≡ ok tt)
        × (new_account_from_storage w s d'
            ≡ (ok (record acc { contract = some acc.account_data.contract_address }), d'))
  new_account_from_storage-save acc s d u bound =
      let (bs, saves, has) = save_lem acc s d u in
      rw saves (
        refl,
        new_account_from_storage_lem acc.account_data s (written (account_path s) bs d) has bound,
      )
