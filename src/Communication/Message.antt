-- ===== src/Communication/Message.antt =====
-- client/communication/common/message.go, contact.go and addressbook.go: signed messages, whom they
-- go to, and how a received one is checked.
pub mod Contacts
pub mod Sending
use ipfs_share.Prelude.{
  ℕ, ◌+◌, ◌*◌, ◌/◌, ◌%◌, ◌^◌, ◌≡◌, [], ◌∷◌, ◌++◌, Bytes, Bool, true, false, Option, none, some,
  ◌==◌, if◌then◌else◌, Result, ok, err, or_fail, ◌>>=◌,
}
use ipfs_share.Crypto.SymmetricKey.{SymmetricKey}
use ipfs_share.Fs.Meta.{Address}
use ipfs_share.Fs.External.{Codec, IsCodec}

-- `Message`; the type and the session id are a byte and a 32-bit integer.
pub record Message : Type 0 where
  pub from : Address
  pub type : ℕ
  pub session_id : ℕ
  pub payload : Bytes
  pub sig : Bytes

-- The message type `GetGroupData`.
abbrev pub get_group_data : ℕ
get_group_data = 0

-- The values of a `GroupData` byte, those without a name included.
pub data GroupData : Type 0 where
  get_group_key get_proposed_group_key : GroupData
  unknown_data : ℕ → GroupData

pub record GroupDataMessage : Type 0 where
  pub group : Address
  pub requested : GroupData
  pub payload : Bytes

-- `Contact`, without its connection, which `Network` stands for.
pub record Contact : Type 0 where
  pub account_address : Address
  pub eth_account_address : Address
  pub name : Bytes
  pub ipfs_peer_id : Bytes

-- What the sessions call and the source does not implement: go-ethereum's Keccak-256, addresses and
-- recovery of the address that a signature comes from, encoding/json, and the connection to a peer,
-- by whether dialling it and writing some bytes to it succeed.
pub record Network : Type 0 where
  pub keccak256 : Bytes → Bytes
  pub address_bytes : Address → Bytes
  pub bytes_to_address : Bytes → Address
  pub recover : Bytes → Bytes → Option Address
  pub message_codec : Codec Message
  pub request_codec : Codec GroupDataMessage
  pub key_codec : Codec SymmetricKey
  pub delivers : Contact → Bytes → Bool

pub record IsNetwork (n : Network) : Type 0 where
  pub message_laws : IsCodec n.message_codec
  pub request_laws : IsCodec n.request_codec
  pub key_laws : IsCodec n.key_codec
  pub addresses : (a : Address) → n.bytes_to_address (n.address_bytes a) ≡ a

-- A `Signer`; `none` where it returns an error.
abbrev pub Signer : Type 0
Signer = Bytes → Option Bytes

-- `binary.LittleEndian.PutUint32`.
abbrev le32 : ℕ → Bytes
le32 n = n % 256 ∷ n / 256 % 256 ∷ n / 65536 % 256 ∷ n / 16777216 % 256 ∷ []

pub data SessionError : Type 0 where
  not_member not_created not_encoded not_sent : SessionError
  invalid_signature no_boxer no_proposed_boxer not_signed not_decoded : SessionError

-- Whether an address that was recovered is the contact's.
abbrev pub comes_from : Contact → Option Address → Bool
comes_from c none = false
comes_from c (some a) = c.eth_account_address == a

module _ (n : Network) where
  -- `Digest`.
  pub digest : Message → Bytes
  digest m =
      n.keccak256 (n.address_bytes m.from ++ (m.type % 256 ∷ (le32 m.session_id ++ m.payload)))

  signed : Message → Option Bytes → Option Message
  signed m none = none
  signed m (some sig) = some (record m { sig = sig })

  -- `NewMessage`.
  pub new_message : Address → ℕ → ℕ → Bytes → Signer → Option Message
  new_message from type session_id payload signer =
      let m : Message = record {
        from = from;
        type = type;
        session_id = session_id;
        payload = payload;
        sig = [];
      } in
      signed m (signer (digest m))

  -- `Contact.VerifySignature`.
  pub verify_signature : Contact → Bytes → Bytes → Bool
  verify_signature c digest signature = comes_from c (n.recover digest signature)

  -- `Message.Verify`.
  pub verify : Message → Contact → Bool
  verify m c = verify_signature c (digest m) m.sig

  -- `AddressBook.Get`. The map behind it is never written to, so every call asks the blockchain.
  unfoldable pub book_get : (Address → Option Contact) → Address → Option Contact
  book_get get_contact_from_eth a = get_contact_from_eth a

  abbrev from_contact : Message → Option Contact → Option Message
  from_contact m none = none
  from_contact m (some c) = if verify m c then some m else none

  abbrev from_book : (Address → Option Contact) → Option Message → Option Message
  from_book get_contact_from_eth none = none
  from_book get_contact_from_eth (some m) = from_contact m (book_get get_contact_from_eth m.from)

  -- `P2PConn.ReadMessage`, on the bytes that it has read.
  pub read_message : (Address → Option Contact) → Bytes → Option Message
  read_message get_contact_from_eth bytes =
      from_book get_contact_from_eth (n.message_codec.unmarshal bytes)

  -- A message that was sent.
  pub record Packet : Type 0 where
    pub to : Contact
    pub contents : Bytes

  delivered : Contact → Bytes → Result SessionError Packet
  delivered c enc_msg =
      if n.delivers c enc_msg then ok (record { to = c; contents = enc_msg }) else err not_sent

  -- The steps that the sessions share: a message is made, encoded and sent.
  pub send_message : Address → ℕ → Bytes → Signer → Contact → Result SessionError Packet
  send_message from session_id payload signer c = do
    msg ← or_fail (new_message from get_group_data session_id payload signer) not_created
    enc_msg ← or_fail (n.message_codec.marshal msg) not_encoded
    delivered c enc_msg
