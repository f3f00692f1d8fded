-- ===== src/Tests/CommunicationTests.antt =====
-- The theorems on client/communication at concrete inputs.
use ipfs_share.Prelude.{
  ◌≤◌, ◌≡◌, refl, List, [], ◌∷◌, false, Option, none, some, length, All, nat_eq, if◌then◌else◌,
  ◌==◌, ==_iff, ap, ok,
}
use ipfs_share.Crypto.SymmetricKey.{SymmetricKey}
use ipfs_share.Fs.Meta.{Address}
use ipfs_share.Collections.Map.{get, new_concurrent_map}
use ipfs_share.Communication.Message.{
  Message, get_group_key, get_proposed_group_key, GroupDataMessage, verify_signature, read_message,
  Packet, send_message, book_get,
}
use ipfs_share.Communication.Message.Contacts.{
  AccountContract, contract_book, get_contact_from_eth, Authentic, read_message-Authentic,
}
use ipfs_share.Communication.Message.Sending.{sent_message, send_message_lem}
use ipfs_share.Communication.Server.{CtxCallback, Server, next_state, sent_over, Input, new_server}
use ipfs_share.Communication.Server.Safety.{Guarded, next_state-Guarded}
use ipfs_share.Communication.Server.Trace.{sent_over_lem}
use ipfs_share.Communication.Exchange.{FourMessages, exchange_group_key, exchange_proposed_key}
use ipfs_share.Communication.Manager.{
  Session, server_session, client_session, P2PManager, new_p2p_manager, handle_connection, Reach,
  fresh, goes_on, receives, runs, object, set_object, sent_by, Sent,
}
use ipfs_share.Communication.Manager as Managing
use ipfs_share.Communication.Manager.Dispatch.{handle_connection_new_id}
use ipfs_share.Communication.Manager.Interleaving.{Permitted, reach-Permitted}
use ipfs_share.Communication.Manager.Planting.{key_planted}
use ipfs_share.Communication.Message.{Contact}
use ipfs_share.Communication.Server.{end_of_session}
use ipfs_share.Communication.Client.{Client, new_client, success}
use ipfs_share.Communication.Client as Clients
use ipfs_share.Prelude.{Bytes}
use ipfs_share.Tests.Peers.{
  request_wire, network, network-IsNetwork, alice, bob, book, signer_of, signs,
}

abbrev group_key : SymmetricKey
group_key = record { key = 5 ∷ 5 ∷ [] }

abbrev callback : CtxCallback
callback = record {
  is_member = λ g a. a == 11;
  get_boxer_of_group = λ g. some group_key;
  get_proposed_boxer_of_group = λ g p. some group_key;
}

exchange_group_key_example :
    FourMessages network network-IsNetwork alice bob
      (signs 21)
      (signs 22)
      book
      refl
      refl
      (λ c bs. refl)
      callback
      100
      77
      (1 ∷ 2 ∷ [])
      get_group_key
      []
      100
      group_key
exchange_group_key_example =
    exchange_group_key network network-IsNetwork alice bob (signs 21) (signs 22) book refl refl
      (λ c bs. refl) callback 100 77 (1 ∷ 2 ∷ []) group_key refl refl

exchange_proposed_key_example :
    FourMessages network network-IsNetwork alice bob
      (signs 21)
      (signs 22)
      book
      refl
      refl
      (λ c bs. refl)
      callback
      100
      77
      (1 ∷ 2 ∷ [])
      get_proposed_group_key
      (13 ∷ [])
      13
      group_key
exchange_proposed_key_example =
    exchange_proposed_key network network-IsNetwork alice bob (signs 21) (signs 22) book refl refl
      (λ c bs. refl) callback 100 77 (1 ∷ 2 ∷ []) 13 group_key refl refl

abbrev request1 : GroupDataMessage
request1 = record { group = 100; requested = get_group_key; payload = [] }

abbrev pub server1 : Server
server1 = record {
  session_id = 77;
  state = 0;
  contact = alice;
  sender = 12;
  group_data_msg = request1;
  challenge = 1 ∷ 2 ∷ [];
  error = none;
}

next_state-Guarded_example :
    let (s', sent) = next_state network callback (signer_of 22) [] server1 in
    Guarded network callback [] server1 s' sent
next_state-Guarded_example = next_state-Guarded network callback (signer_of 22) [] server1

abbrev inputs : List (Input network)
inputs = (callback, []) ∷ (callback, 21 ∷ 1 ∷ 2 ∷ []) ∷ (callback, []) ∷ []

sent_over_lem_example :
    (length (sent_over network (signer_of 22) inputs server1) ≤ 2)
    × (All (λ (i : Input network). verify_signature network alice (1 ∷ 2 ∷ []) i.1 ≡ false) inputs
        → length (sent_over network (signer_of 22) inputs server1) ≤ 1)
    × (All (λ (i : Input network). i.0.is_member 100 11 ≡ false) inputs
        → length (sent_over network (signer_of 22) inputs server1) ≡ 0)
sent_over_lem_example =
    sent_over_lem network alice request1 (1 ∷ 2 ∷ []) (signer_of 22) inputs server1 refl refl refl
      refl

-- The request of Alice on its way to Bob.
asked :
    (p : Packet network) × (send_message network 11 77
        (request_wire.write request1 [])
        (signer_of 21)
        bob
      ≡ ok p)
    × (p.to ≡ bob)
    × (read_message network book p.contents
        ≡ some (sent_message network (signs 21) 11 77 (request_wire.write request1 [])))
asked =
    send_message_lem network network-IsNetwork alice (signs 21) book 77
      (request_wire.write request1 []) bob (λ bs. refl) refl

abbrev msg1 : Message
msg1 = sent_message network (signs 21) 11 77 (request_wire.write request1 [])

abbrev manager1 : P2PManager
manager1 = handle_connection network book asked.0.contents (some (1 ∷ 2 ∷ [])) (new_p2p_manager 12)

-- Alice's request arrives, and Bob's session runs.
abbrev manager2 : P2PManager
manager2 = record manager1 {
  objects =
      set_object manager1.objects 0
        (Managing.next_state network callback (signer_of 22) [] (server_session server1)).0;
  pending = [];
}

abbrev log2 : List (Sent network)
log2 =
    sent_by network (server_session server1)
      (Managing.next_state network callback (signer_of 22) [] (server_session server1)).1

abbrev WasMember : Address → Address → Type 0
WasMember g a = a ≡ 11

accepts_new_id :
    (manager1.objects ≡ server_session server1 ∷ [])
    × (manager1.pending ≡ (0, []) ∷ [])
    × (get 77 manager1.sessions ≡ some 0)
unfolding new_server new_p2p_manager book_get get new_concurrent_map
accepts_new_id =
    handle_connection_new_id network book asked.0.contents (1 ∷ 2 ∷ []) (new_p2p_manager 12) msg1
      alice server1 asked.3 refl refl refl

run : Reach network (signer_of 22) WasMember manager2 log2
run =
    goes_on
      (goes_on (fresh 12) (receives book asked.0.contents (some (1 ∷ 2 ∷ [])) (new_p2p_manager 12)))
      (runs callback [] [] 0 [] (server_session server1) manager1 (λ g a h. (==_iff a 11).0 h)
        accepts_new_id.1 (ap (λ (o : List Session). object o 0) accepts_new_id.0))

reach-Permitted_example : All (Permitted network (signer_of 22) WasMember) log2
reach-Permitted_example = reach-Permitted network (signer_of 22) WasMember manager2 log2 run

-- The contracts behind the two contacts.
abbrev contracts : Address → Option AccountContract
contracts a =
    if a == 11
    then some (record { name = some (b'a' ∷ []); ipfs_id = some []; owner = some 21 })
    else if a == 12
    then some (record { name = some (b'b' ∷ []); ipfs_id = some []; owner = some 22 })
    else none

alice_named : contract_book contracts 11 ≡ some alice
unfolding get_contact_from_eth
alice_named = refl

greeting :
    (p : Packet network) × (send_message network 11 77 (1 ∷ []) (signer_of 21) bob ≡ ok p)
    × (p.to ≡ bob)
    × (read_message network (contract_book contracts) p.contents
        ≡ some (sent_message network (signs 21) 11 77 (1 ∷ [])))
greeting =
    send_message_lem network network-IsNetwork alice (signs 21) (contract_book contracts) 77
      (1 ∷ []) bob (λ bs. refl) alice_named

read_message-Authentic_example :
    Authentic network contracts (sent_message network (signs 21) 11 77 (1 ∷ []))
read_message-Authentic_example =
    read_message-Authentic network contracts greeting.0.contents
      (sent_message network (signs 21) 11 77 (1 ∷ [])) greeting.3

-- A session of Bob's with Alice has sent its answer; a third account has its id.
abbrev waiting : Client
waiting = record (new_client get_group_key 100 [] alice 12 77) { state = 2 }

abbrev manager3 : P2PManager
manager3 = record {
  account = 12;
  objects = client_session waiting ∷ [];
  sessions = record { entries = (77, some 0) ∷ [] };
  pending = [];
}

abbrev mallory : Contact
mallory = record {
  account_address = 13;
  eth_account_address = 23;
  name = b'm' ∷ [];
  ipfs_peer_id = [];
}

abbrev book3 : Address → Option Contact
book3 a = if a == 13 then some mallory else book a

has_session : get 77 manager3.sessions ≡ some 0
unfolding get
has_session = refl

key_planted_example :
    (bs : Bytes) × (p : Packet network) × (send_message network 13 77 bs (signer_of 23) bob ≡ ok p)
    × (handle_connection network book3 p.contents none manager3
        ≡ record manager3 { pending = (0, bs) ∷ [] })
    × (object (handle_connection network book3 p.contents none manager3).objects 0
        ≡ some (client_session waiting))
    × (Clients.next_state network (signer_of 22) bs waiting
        ≡ (record waiting { state = end_of_session }, none, some (100, group_key)))
unfolding success new_client
key_planted_example =
    key_planted network network-IsNetwork mallory bob (signs 23) (signs 22) book3 refl refl
      (λ bs. refl) manager3 waiting 0 group_key none refl has_session refl
