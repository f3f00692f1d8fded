-- ===== src/UserContext/Registration.antt =====
-- From `SignUp` through the `AccountCreated` event to a restart: the account stays the same.
use ipfs_share.Prelude.{
  ◌≡◌, ap, ◌∙◌, [], ◌∷◌, ◌++◌, Bytes, Bool, true, false, none, some, ◌==◌, ==_refl, if◌then◌else◌,
  ok, err, nat_eq,
}
use ipfs_share.Crypto.AnonymBoxer.{AnonymBoxer}
use ipfs_share.Collections.Map.{new_concurrent_map}
use ipfs_share.Account.{AccountData, Account, new_account, set_contract}
use ipfs_share.Account.Saved.{HasAccount, save_lem, new_account_from_storage_lem}
use ipfs_share.Fs.Disk.{Disk}
use ipfs_share.Fs.Disk.Laws.{written}
use ipfs_share.Fs.Meta.{Address}
use ipfs_share.Fs.External.{IsCodec}
use ipfs_share.Fs.Storage.{Storage, new_storage}
use ipfs_share.Fs.Storage as Storages
use ipfs_share.Fs.Storage.Downloads.{Usable}
use ipfs_share.Fs.Storage.UserFiles.{account_path}
use ipfs_share.GroupContext.{creates_account}
use ipfs_share.UserContext.{Blockchain, UserWorld, UserContext, sent, no_account}
use ipfs_share.UserContext.SignUp.{registering, registered, sign_up}
use ipfs_share.UserContext.Startup.{init, saved, rebound, loaded, named, found, new_user_context}
use ipfs_share.UserContext.Events.{account_loaded, on_account_created}

module _ (w : UserWorld) (laws : IsCodec w.accounts.account_codec) (chain : Blockchain) where
  -- The key pair that belongs to a secret key.
  abbrev pub pair_of : Bytes → AnonymBoxer
  pair_of secret = record { public_key = w.accounts.scalar_base_mult secret; private_key = secret }

  abbrev pub data_of : Bytes → Bytes → Address → AccountData
  data_of name secret address = record {
    name = name;
    contract_address = address;
    boxer = pair_of secret;
  }

  abbrev pub account_of : AccountData → Account
  account_of a = record { account_data = a; contract = some a.contract_address }

  abbrev pub after_sign_up : Bytes → Bytes → Bytes → UserContext → UserContext
  after_sign_up name secret id u = record u {
    storage = Storages.init name u.storage;
    transactions =
        u.transactions ++ creates_account name id (w.accounts.scalar_base_mult secret) ∷ [];
  }

  pub sign_up_lem :
      (name secret id : Bytes) (u : UserContext) (d : Disk)
      → w.ipfs_id ≡ some id
      → chain.takes_account name id (w.accounts.scalar_base_mult secret) ≡ true
      → Usable (account_path (Storages.init name u.storage)) d
      → (d' : Disk) × (sign_up w chain name (some secret) u d
          ≡ (ok tt, after_sign_up name secret id u, d'))
        × HasAccount w.accounts laws (Storages.init name u.storage) d' (data_of name secret 0)
        × Usable (account_path (Storages.init name u.storage)) d'
  unfolding sign_up new_account
  sign_up_lem name secret id u d has_id takes usable =
      let u' : UserContext = record u { storage = Storages.init name u.storage } in
      let acc : Account = record { account_data = data_of name secret 0; contract = none } in
      let (bs, saves, has) = save_lem w.accounts laws acc u'.storage d usable in
      (
        written (account_path u'.storage) bs d,
        ap (registered w chain acc u') saves
            ∙ ap (registering w chain acc u' (written (account_path u'.storage) bs d)) has_id
            ∙ ap
                (λ b.
                  let (r, v) =
                    sent b (creates_account name id (w.accounts.scalar_base_mult secret)) u' in
                  (r, v, written (account_path u'.storage) bs d))
                takes,
        has,
        record { creatable = usable.creatable; writable = usable.writable },
      )

  module _ (nonce : Address → Bytes) where
    pub on_account_created_lem :
        (name secret : Bytes) (address account : Address) (u : UserContext) (d : Disk)
        → HasAccount w.accounts laws u.storage d (data_of name secret address)
        → w.accounts.new_contract address ≡ true
        → w.accounts.new_contract account ≡ true
        → Usable (account_path u.storage) d
        → let acc = account_of (data_of name secret account) in
          (d' : Disk) × (on_account_created w chain nonce u.owner account u d
            ≡ init w chain nonce acc u d')
          × HasAccount w.accounts laws u.storage d' (data_of name secret account)
    unfolding on_account_created set_contract
    on_account_created_lem name secret address account u d has old new usable =
        let acc = account_of (data_of name secret account) in
        let (bs, saves, has') = save_lem w.accounts laws acc u.storage d usable in
        (
          _,
          rw (==_refl u.owner) (
              ap (account_loaded w chain nonce account u) (
                new_account_from_storage_lem w.accounts laws (data_of name secret address) u.storage
                  d has old)
              ∙ ap (λ (b : Bool). rebound w chain nonce u (if b then some acc else none) d) new
              ∙ ap (saved w chain nonce acc u) saves),
          has',
        )

    abbrev pub fresh_context : Address → Bytes → Bytes → UserContext
    fresh_context owner home name = record {
      owner = owner;
      signed_in = none;
      groups = new_concurrent_map;
      transactions = [];
      invitations = [];
      storage = Storages.init name (new_storage home);
    }

    pub new_user_context_lem :
        (owner account : Address) (home name secret : Bytes) (d : Disk)
        → HasAccount w.accounts laws
            (Storages.init name (new_storage home))
            d
            (data_of name secret account)
        → chain.get_account owner ≡ some account
        → (account == 0) ≡ false
        → w.accounts.new_contract account ≡ true
        → chain.account_name account ≡ some name
        → new_user_context w chain nonce owner home d
          ≡ init w chain nonce
              (account_of (data_of name secret account))
              (fresh_context owner home name)
              d
    unfolding new_user_context
    new_user_context_lem owner account home name secret d has registered nonzero bound is_named =
        let base = record (fresh_context owner home name) { storage = new_storage home } in
        let u = fresh_context owner home name in
        let acc = account_of (data_of name secret account) in
        ap (found w chain nonce base d) registered
        ∙ ap
            (λ (b : Bool).
              if b
              then (ok tt, base, d)
              else if w.accounts.new_contract account
              then named w chain nonce account base d (chain.account_name account)
              else (err no_account, base, d))
            nonzero
        ∙ ap
            (λ (b : Bool).
              if b
              then named w chain nonce account base d (chain.account_name account)
              else (err no_account, base, d))
            bound
        ∙ ap (named w chain nonce account base d) is_named
        ∙ ap (loaded w chain nonce account u) (
            new_account_from_storage_lem w.accounts laws (data_of name secret account) u.storage d
              has bound)
        ∙ ap
            (λ (b : Bool).
              if b
              then init w chain nonce acc u d
              else rebound w chain nonce u (set_contract w.accounts account acc) d)
            (==_refl account)

  -- Under the law of the codec, where every path can be written, IPFS gives an id, contract
  -- objects can be made and the transaction is taken: SignUp succeeds with one transaction for the
  -- drawn key pair; the AccountCreated event for the owner then initializes the user with the
  -- account of that name, key pair and contract; and a new start, with the same account on the
  -- blockchain and its name, initializes the user with the same account.
  pub sign_up-registers :
      (nonce nonce' : Address → Bytes) (home name secret id : Bytes) (owner account : Address)
      (d : Disk)
      → w.ipfs_id ≡ some id
      → chain.takes_account name id (w.accounts.scalar_base_mult secret) ≡ true
      → ((a : Address) → w.accounts.new_contract a ≡ true)
      → ((p : Bytes) → Usable p d)
      → chain.get_account owner ≡ some account
      → (account == 0) ≡ false
      → chain.account_name account ≡ some name
      → let u = record (fresh_context nonce owner home name) { storage = new_storage home } in
        let u' = after_sign_up name secret id u in
        let acc = account_of (data_of name secret account) in
        (d1 : Disk) × (d2 : Disk) × (sign_up w chain name (some secret) u d ≡ (ok tt, u', d1))
        × (on_account_created w chain nonce owner account u' d1 ≡ init w chain nonce acc u' d2)
        × (new_user_context w chain nonce' owner home d2
            ≡ init w chain nonce' acc (fresh_context nonce owner home name) d2)
  sign_up-registers nonce nonce' home name secret id owner account d has_id takes bound usable
        registered nonzero is_named =
      let u = record (fresh_context nonce owner home name) { storage = new_storage home } in
      let u' = after_sign_up name secret id u in
      let (d1, signs_up, has, usable') =
        sign_up_lem name secret id u d has_id takes (usable (account_path u'.storage)) in
      let (d2, created, has') =
        on_account_created_lem nonce name secret 0 account u' d1 has (bound 0) (bound account)
          usable' in
      (
        d1,
        d2,
        signs_up,
        created,
        new_user_context_lem nonce' owner account home name secret d2 has' registered nonzero
            (bound account) is_named,
      )
