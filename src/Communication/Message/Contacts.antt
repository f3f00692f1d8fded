-- ===== src/Communication/Message/Contacts.antt =====
-- `getContactFromEth` of client/communication/common/addressbook.go: the contact that the contract of
-- an account describes. The sessions take it as their address book.
use ipfs_share.Prelude.{
  ◌≡◌, refl, sym, ap, subst, ◌∙◌, ==_iff, if◌then◌else◌, Bytes, Bool, true, false, nat_eq, Option,
  none, some, Result, ok, err, or_fail, ◌>>=◌,
}
use ipfs_share.Fs.Meta.{Address}
use ipfs_share.Communication.Message.{
  Contact, Message, Network, comes_from, verify_signature, verify, digest, book_get, read_message,
  from_book, from_contact,
}

-- What the generated bindings of an account's contract return.
pub record AccountContract : Type 0 where
  pub name : Option Bytes
  pub ipfs_id : Option Bytes
  pub owner : Option Address

pub data ContactError : Type 0 where
  no_instance no_name no_ipfs_id no_owner : ContactError

-- `NewContact`, without the IPFS client and the key, which nothing reads.
abbrev pub new_contact : Address → Address → Bytes → Bytes → Contact
new_contact address acc_addr name ipfs_peer_id = record {
  account_address = acc_addr;
  eth_account_address = address;
  name = name;
  ipfs_peer_id = ipfs_peer_id;
}

unfoldable pub get_contact_from_eth :
    (Address → Option AccountContract) → Address → Result ContactError Contact
get_contact_from_eth new_account acc_addr = do
  acc ← or_fail (new_account acc_addr) no_instance
  name ← or_fail acc.name no_name
  ipfs_id ← or_fail acc.ipfs_id no_ipfs_id
  owner ← or_fail acc.owner no_owner
  ok (new_contact owner acc_addr name ipfs_id)

abbrev contact_of : Result ContactError Contact → Option Contact
contact_of (ok c) = some c
contact_of (err e) = none
contact_of Result.panic = none

-- The address book that the contracts make.
abbrev pub contract_book : (Address → Option AccountContract) → Address → Option Contact
contract_book new_account a = contact_of (get_contact_from_eth new_account a)

-- A contact of this book stands for its own account, and for the owner that the contract names.
pub contract_book_lem :
    (new_account : Address → Option AccountContract) (a : Address) (c : Contact)
    → contract_book new_account a ≡ some c
    → (c.account_address ≡ a)
      × (acc : AccountContract) × (new_account a ≡ some acc)
      × (acc.owner ≡ some c.eth_account_address)
unfolding get_contact_from_eth
contract_book_lem new_account a c e = by_contract (new_account a) refl e
  where
    by_contract :
        (o : Option AccountContract)
        → new_account a ≡ o
        → contact_of (
            or_fail o no_instance >>= λ acc. or_fail acc.name no_name >>= λ name.
            or_fail acc.ipfs_id no_ipfs_id >>= λ ipfs_id.
            or_fail acc.owner no_owner >>= λ owner. ok (new_contact owner a name ipfs_id))
          ≡ some c
        → (c.account_address ≡ a)
          × (acc : AccountContract) × (new_account a ≡ some acc)
          × (acc.owner ≡ some c.eth_account_address)
    by_contract none q h = cc
    by_contract (some acc) q h = by_fields acc.name acc.ipfs_id acc.owner refl h
      where
        by_fields :
            (n i : Option Bytes) (o : Option Address)
            → acc.owner ≡ o
            → contact_of (
                or_fail n no_name >>= λ name. or_fail i no_ipfs_id >>= λ ipfs_id.
                or_fail o no_owner >>= λ owner. ok (new_contact owner a name ipfs_id))
              ≡ some c
            → (c.account_address ≡ a)
              × (acc' : AccountContract) × (new_account a ≡ some acc')
              × (acc'.owner ≡ some c.eth_account_address)
        by_fields none i o p k = cc
        by_fields (some n) none o p k = cc
        by_fields (some n) (some i) none p k = cc
        by_fields (some n) (some i) (some o) p k =
            let same : new_contact o a n i ≡ c = cc in
            (
              ap (λ (t : Contact). t.account_address) (sym same),
              acc,
              q,
              p ∙ ap (λ (t : Contact). some t.eth_account_address) same,
            )

some_inj : {A : Type 0} {a b : A} → some a ≡ some b → a ≡ b
some_inj e = cc

module _ (n : Network) where
  verify_signature_inv :
      (c : Contact) (d sig : Bytes)
      → verify_signature n c d sig ≡ true
      → n.recover d sig ≡ some c.eth_account_address
  unfolding verify_signature
  verify_signature_inv c d sig h = by_address (n.recover d sig) h
    where
      by_address : (o : Option Address) → comes_from c o ≡ true → o ≡ some c.eth_account_address
      by_address none q = cc
      by_address (some a) q = ap (λ b. some b) (sym ((==_iff c.eth_account_address a).0 q))

  -- A message whose signature comes from the owner of the account that it names.
  pub record Authentic (new_account : Address → Option AccountContract) (m : Message) : Type 0 where
    pub acc : AccountContract
    pub owner : Address
    pub exists : new_account m.from ≡ some acc
    pub owned : acc.owner ≡ some owner
    pub signed_by : n.recover (digest n m) m.sig ≡ some owner

  -- With the contracts of the accounts as the address book, a message that is read has the
  -- signature of the owner that the contract of the account it names gives, on the digest of the
  -- message.
  pub read_message-Authentic :
      (new_account : Address → Option AccountContract) (bytes : Bytes) (m : Message)
      → read_message n (contract_book new_account) bytes ≡ some m
      → Authentic new_account m
  unfolding read_message verify book_get
  read_message-Authentic new_account bytes m h = by_message (n.message_codec.unmarshal bytes) h
    where
      by_test :
          (m' : Message) (c : Contact) (b : Bool)
          → verify n m' c ≡ b
          → contract_book new_account m'.from ≡ some c
          → (if b then some m' else none) ≡ some m
          → Authentic new_account m
      by_test m' c true v known q =
          let (_, acc, exists, owned) = contract_book_lem new_account m'.from c known in
          subst (Authentic new_account) (some_inj q) (record {
            acc = acc;
            owner = c.eth_account_address;
            exists = exists;
            owned = owned;
            signed_by = verify_signature_inv c (digest n m') m'.sig v;
          })
      by_test m' c false v known q = cc

      by_contact :
          (m' : Message) (o : Option Contact)
          → contract_book new_account m'.from ≡ o
          → from_contact n m' o ≡ some m
          → Authentic new_account m
      by_contact m' none known q = cc
      by_contact m' (some c) known q = by_test m' c (verify n m' c) refl known q

      by_message :
          (o : Option Message)
          → from_book n (contract_book new_account) o ≡ some m
          → Authentic new_account m
      by_message none q = cc
      by_message (some m') q = by_contact m' (contract_book new_account m'.from) refl q
