-- ===== src/Communication/Manager.antt =====
-- client/communication/p2pmanager.go: the sessions of a user, found by their ids. A call that the
-- source starts with `go` is put into `pending` and runs in a later step, so the steps of all
-- goroutines interleave. A goroutine holds a pointer to its session, here an index into `objects`.
pub mod Dispatch
pub mod Interleaving
pub mod Planting
use ipfs_share.Prelude.{
  ℕ, zero, suc, ◌≡◌, true, List, [], ◌∷◌, ◌++◌, Bytes, Bool, Option, none, some, length, nat_eq,
}
use ipfs_share.Collections.Map.{Map, get, put, new_concurrent_map}
use ipfs_share.Fs.Meta.{Address}
use ipfs_share.Communication.Message.{
  Message, GroupData, get_group_key, get_proposed_group_key, Contact, Network, Signer, Packet,
  read_message, book_get,
}
use ipfs_share.Communication.Server.{CtxCallback, Server, new_server}
use ipfs_share.Communication.Server as ServerSide
use ipfs_share.Communication.Client.{Client, new_client}
use ipfs_share.Communication.Client as ClientSide

-- `ISession`, by the types that implement it.
pub data Session : Type 0 where
  server_session : Server → Session
  client_session : Client → Session

abbrev pub id : Session → ℕ
id (server_session s) = s.session_id
id (client_session c) = c.session_id

pub record P2PManager : Type 0 where
  pub account : Address
  pub objects : List Session
  pub sessions : Map ℕ ℕ
  pub pending : List (ℕ × Bytes)

unfoldable pub new_p2p_manager : Address → P2PManager
new_p2p_manager account = record {
  account = account;
  objects = [];
  sessions = new_concurrent_map;
  pending = [];
}

abbrev pub object : List Session → ℕ → Option Session
object [] i = none
object (s ∷ ss) zero = some s
object (s ∷ ss) (suc i) = object ss i

abbrev pub set_object : List Session → ℕ → Session → List Session
set_object [] i s' = []
set_object (s ∷ ss) zero s' = s' ∷ ss
set_object (s ∷ ss) (suc i) s' = s ∷ set_object ss i s'

abbrev pub start_call : ℕ → Bytes → P2PManager → P2PManager
start_call i payload m = record m { pending = m.pending ++ (i, payload) ∷ [] }

-- A new session is stored under its id, and its `Run`, which is `NextState(nil, nil)`, is started.
unfoldable pub add_and_run : Session → P2PManager → P2PManager
add_and_run s m = start_call (length m.objects) [] (record m {
  objects = m.objects ++ s ∷ [];
  sessions = put (id s) (some (length m.objects)) m.sessions;
})

-- `StartGetGroupKeySession` and `StartGetProposedGroupKeySession`.
unfoldable pub start_get_group_key_session :
    Address → Contact → Address → ℕ → P2PManager → P2PManager
start_get_group_key_session group receiver sender session_id m =
    add_and_run (client_session (new_client get_group_key group [] receiver sender session_id)) m

module _ (n : Network) where
  unfoldable pub start_get_proposed_group_key_session :
      Address → Address → Contact → Address → ℕ → P2PManager → P2PManager
  start_get_proposed_group_key_session group proposer receiver sender session_id m =
      add_and_run
        (client_session (
          new_client get_proposed_group_key group (n.address_bytes proposer) receiver sender
            session_id))
        m

  abbrev accepted : Option Server → P2PManager → P2PManager
  accepted none m = m
  accepted (some s) m = add_and_run (server_session s) m

  -- `none` for the challenge where `rand.Read` fails.
  abbrev accept : Message → Contact → Option Bytes → P2PManager → P2PManager
  accept msg contact none m = m
  accept msg contact (some challenge) m = accepted (new_server n msg contact m.account challenge) m

  abbrev dispatch : Message → Contact → Option Bytes → P2PManager → Option ℕ → P2PManager
  dispatch msg contact challenge m none = accept msg contact challenge m
  dispatch msg contact challenge m (some i) = start_call i msg.payload m

  abbrev from_sender : Message → Option Bytes → P2PManager → Option Contact → P2PManager
  from_sender msg challenge m none = m
  from_sender msg challenge m (some contact) =
      dispatch msg contact challenge m (get msg.session_id m.sessions)

  abbrev received :
      (Address → Option Contact) → Option Bytes → P2PManager → Option Message → P2PManager
  received book challenge m none = m
  received book challenge m (some msg) = from_sender msg challenge m (book_get n book msg.from)

  -- One round of `handleConnection`, on the bytes that it reads.
  pub handle_connection :
      (Address → Option Contact) → Bytes → Option Bytes → P2PManager → P2PManager
  handle_connection book bytes challenge m = received book challenge m (read_message n book bytes)

  -- `NextState` of a session, and what it sends.
  pub next_state : CtxCallback → Signer → Bytes → Session → Session × Option (Packet n)
  next_state callback signer payload (server_session s) =
      let (s', sent) = ServerSide.next_state n callback signer payload s in
      (server_session s', sent)
  next_state callback signer payload (client_session c) =
      let (c', sent, _) = ClientSide.next_state n signer payload c in (client_session c', sent)

  -- A packet, with the session as it was when it sent it.
  abbrev pub Sent : Type 0
  Sent = Session × Packet n

  abbrev pub sent_by : Session → Option (Packet n) → List Sent
  sent_by s none = []
  sent_by s (some p) = (s, p) ∷ []

  -- How the manager and its goroutines go on: a message is read, a session is started, or one of
  -- the calls that were started runs, in whatever order. A step is labelled with what it sends.
  -- `Member` holds of the groups and accounts that the callbacks take for members at some time.
  pub data Step (signer : Signer) (Member : Address → Address → Type 0)
      : P2PManager → List Sent → P2PManager → Type 0 where
    receives :
        (book : Address → Option Contact) (bytes : Bytes) (challenge : Option Bytes)
        (m : P2PManager)
        → Step signer Member m [] (handle_connection book bytes challenge m)
    starts :
        (c : Client) (m : P2PManager) → Step signer Member m [] (add_and_run (client_session c) m)
    runs :
        (callback : CtxCallback) (before after : List (ℕ × Bytes)) (i : ℕ) (payload : Bytes)
        (s : Session) (m : P2PManager)
        → ((g a : Address) → callback.is_member g a ≡ true → Member g a)
        → m.pending ≡ before ++ (i, payload) ∷ after
        → object m.objects i ≡ some s
        → Step signer Member m (sent_by s (next_state callback signer payload s).1) (record m {
          objects = set_object m.objects i (next_state callback signer payload s).0;
          pending = before ++ after;
        })

  -- The managers that a new one can become, with all that has been sent on the way.
  pub data Reach (signer : Signer) (Member : Address → Address → Type 0)
      : P2PManager → List Sent → Type 0 where
    fresh : (account : Address) → Reach signer Member (new_p2p_manager account) []
    goes_on :
        {m m' : P2PManager} {log label : List Sent}
        → Reach signer Member m log
        → Step signer Member m label m'
        → Reach signer Member m' (log ++ label)
