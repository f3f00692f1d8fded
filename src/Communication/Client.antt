-- ===== src/Communication/Client.antt =====
-- client/communication/sessions/clients/getgroupkey_client_session.go.
pub mod Steps
pub mod Flaws
use ipfs_share.Prelude.{
  ℕ, zero, suc, [], Bytes, Bool, true, false, not, Option, none, some, ◌==◌, if◌then◌else◌, Result,
  ok, err, panic, or_fail, ◌>>=◌,
}
use ipfs_share.Crypto.SymmetricKey.{SymmetricKey}
use ipfs_share.Fs.Meta.{Address}
use ipfs_share.Communication.Message.{
  GroupData, get_group_key, get_proposed_group_key, unknown_data, GroupDataMessage, Contact,
  Network, Signer, SessionError, not_encoded, not_signed, not_decoded, Packet, send_message,
}
use ipfs_share.Communication.Server.{end_of_session}

pub record Client : Type 0 where
  pub session_id : ℕ
  pub state : ℕ
  pub receiver : Contact
  pub group_data_msg : GroupDataMessage
  pub sender : Address
  pub error : Option SessionError

-- `NewGetGroupDataSessionClient`, with the session id that `rand.Uint32` gave.
unfoldable pub new_client : GroupData → Address → Bytes → Contact → Address → ℕ → Client
new_client requested group payload receiver sender session_id = record {
  session_id = session_id;
  state = 0;
  receiver = receiver;
  group_data_msg = record { group = group; requested = requested; payload = payload };
  sender = sender;
  error = none;
}

-- `IsAlive`, as it stands.
pub is_alive : Client → Bool
is_alive c = c.state == end_of_session

pub abort : Client → Client
unfolding is_alive
abort c = if not (is_alive c) then c else record c { state = end_of_session }

abbrev pub failed_with : SessionError → Client → Client
failed_with e c = record c { state = end_of_session; error = some e }

-- What a step does: the session, what it has sent, and what it gave to `onSuccessCallback`.
abbrev pub Step : Network → Type 0
Step n = Client × Option (Packet n) × Option (Address × SymmetricKey)

module _ (n : Network) where
  abbrev after_send : ℕ → Client → Result SessionError (Packet n) → Step n
  after_send next c (ok p) = (record c { state = next }, some p, none)
  after_send next c (err e) = (failed_with e c, none, none)
  after_send next c panic = (c, none, none)

  -- State 0.
  request : Signer → Client → Step n
  request signer c = after_send 1 c (
      or_fail (n.request_codec.marshal c.group_data_msg) not_encoded >>= λ payload.
      send_message n c.sender c.session_id payload signer c.receiver)

  -- State 1. After a signing error, the session is closed and goes on all the same, with no
  -- signature.
  answer : Signer → Client → Option Bytes → Step n
  answer signer c (some sig) =
      after_send 2 c (send_message n c.sender c.session_id sig signer c.receiver)
  answer signer c none =
      after_send 2 (failed_with not_signed c)
        (send_message n c.sender c.session_id [] signer c.receiver)

  -- What `onSuccessCallback` is called with.
  unfoldable pub success :
      Address → Bytes → SymmetricKey → GroupData → Option (Address × SymmetricKey)
  success group payload key get_group_key = some (group, key)
  success group payload key get_proposed_group_key = some (n.bytes_to_address payload, key)
  success group payload key (unknown_data _) = none

  -- State 2.
  take_key : Client → Option SymmetricKey → Step n
  take_key c none = (failed_with not_decoded c, none, none)
  take_key c (some key) =
      let m = c.group_data_msg in
      (record c { state = end_of_session }, none, success m.group m.payload key m.requested)

  abbrev step : Signer → Bytes → Client → ℕ → Step n
  step signer payload c zero = request signer c
  step signer payload c (suc zero) = answer signer c (signer payload)
  step signer payload c (suc (suc zero)) = take_key c (n.key_codec.unmarshal payload)
  step signer payload c (suc (suc (suc _))) = (c, none, none)

  -- `NextState`; the contact that it is given plays no part.
  pub next_state : Signer → Bytes → Client → Step n
  next_state signer payload c = step signer payload c c.state
