-- ===== src/Tests/Peers.antt =====
-- Two contacts and a network that satisfies what the sessions ask of it.
use ipfs_share.Prelude.{
  ℕ, zero, suc, ◌≡◌, refl, [], ◌∷◌, Bytes, true, Option, none, some, nat_eq, if◌then◌else◌, ◌==◌,
}
use ipfs_share.Crypto.SymmetricKey.{SymmetricKey}
use ipfs_share.Fs.Meta.{Address}
use ipfs_share.Communication.Message.{
  Message, GroupData, get_group_key, get_proposed_group_key, unknown_data, GroupDataMessage,
  Contact, Network, IsNetwork, Signer,
}
use ipfs_share.Communication.Message.Sending.{Signs}
use ipfs_share.Tests.Wire.{Wire, nat, bytes, via, pair, codec, codec-IsCodec}

abbrev pub code : GroupData → ℕ × ℕ
code get_group_key = (0, 0)
code get_proposed_group_key = (1, 0)
code (unknown_data k) = (2, k)

abbrev pub from_code : ℕ × ℕ → GroupData
from_code (zero, k) = get_group_key
from_code (suc zero, k) = get_proposed_group_key
from_code (suc (suc _), k) = unknown_data k

pub from_code-code : (d : GroupData) → from_code (code d) ≡ d
from_code-code get_group_key = refl
from_code-code get_proposed_group_key = refl
from_code-code (unknown_data k) = refl

abbrev pub data_wire : Wire GroupData
data_wire = via code from_code from_code-code (pair nat nat)

abbrev pub message_wire : Wire Message
message_wire =
    via (λ m. (m.from, (m.type, (m.session_id, (m.payload, m.sig)))))
      (λ (f, (t, (i, (p, s)))). record { from = f; type = t; session_id = i; payload = p; sig = s })
      (λ m. refl) (pair nat (pair nat (pair nat (pair bytes bytes))))

abbrev pub request_wire : Wire GroupDataMessage
request_wire =
    via (λ m. (m.group, (m.requested, m.payload)))
      (λ (g, (r, p)). record { group = g; requested = r; payload = p }) (λ m. refl)
      (pair nat (pair data_wire bytes))

abbrev pub key_wire : Wire SymmetricKey
key_wire = via (λ k. k.key) (λ b. record { key = b }) (λ k. refl) bytes

abbrev pub to_address : Bytes → Address
to_address [] = 0
to_address (a ∷ _) = a

-- A signature is what it signs, behind its owner's address.
abbrev pub recovered : Bytes → Option Address
recovered [] = none
recovered (a ∷ _) = some a

abbrev pub network : Network
network = record {
  keccak256 = λ b. b;
  address_bytes = λ a. a ∷ [];
  bytes_to_address = to_address;
  recover = λ d sig. recovered sig;
  message_codec = codec message_wire;
  request_codec = codec request_wire;
  key_codec = codec key_wire;
  delivers = λ c bs. true;
}

pub network-IsNetwork : IsNetwork network
network-IsNetwork = record {
  message_laws = codec-IsCodec message_wire;
  request_laws = codec-IsCodec request_wire;
  key_laws = codec-IsCodec key_wire;
  addresses = λ a. refl;
}

abbrev pub alice : Contact
alice = record {
  account_address = 11;
  eth_account_address = 21;
  name = b'a' ∷ [];
  ipfs_peer_id = [];
}

abbrev pub bob : Contact
bob = record { account_address = 12; eth_account_address = 22; name = b'b' ∷ []; ipfs_peer_id = [] }

abbrev pub book : Address → Option Contact
book a = if a == 11 then some alice else if a == 12 then some bob else none

abbrev pub signer_of : Address → Signer
signer_of a d = some (a ∷ d)

abbrev pub signs : (a : Address) → Signs network (signer_of a) a
signs a = record { signature = λ d. a ∷ d; signs = λ d. refl; recovers = λ d. refl }
