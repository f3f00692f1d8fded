-- ===== src/Communication/Server.antt =====
-- client/communication/sessions/servers/getgroupkey_server_session.go. `NextState` holds the lock
-- throughout, so it is one step; it returns the session and what it has sent.
pub mod Safety
pub mod Trace
pub mod Steps
use ipfs_share.Prelude.{
  ℕ, zero, suc, ◌==◌, List, [], ◌∷◌, Bytes, Bool, true, false, not, Option, none, some,
  if◌then◌else◌, Result, ok, err, panic, or_fail, ◌>>=◌,
}
use ipfs_share.Crypto.SymmetricKey.{SymmetricKey}
use ipfs_share.Fs.Meta.{Address}
use ipfs_share.Communication.Message.{
  Message, GroupData, get_group_key, get_proposed_group_key, unknown_data, GroupDataMessage,
  Contact, Network, Signer, SessionError, not_member, not_encoded, invalid_signature, no_boxer,
  no_proposed_boxer, Packet, send_message, verify_signature,
}

-- `EndOfSession`.
abbrev pub end_of_session : ℕ
end_of_session = 255

-- `CtxCallback`: whether an account is a member, and the keys of a group.
pub record CtxCallback : Type 0 where
  pub is_member : Address → Address → Bool
  pub get_boxer_of_group : Address → Option SymmetricKey
  pub get_proposed_boxer_of_group : Address → Address → Option SymmetricKey

pub record Server : Type 0 where
  pub session_id : ℕ
  pub state : ℕ
  pub contact : Contact
  pub sender : Address
  pub group_data_msg : GroupDataMessage
  pub challenge : Bytes
  pub error : Option SessionError

-- `session.error = …; session.close()`.
abbrev pub failed_with : SessionError → Server → Server
failed_with e s = record s { state = end_of_session; error = some e }

pub is_alive : Server → Bool
is_alive s = not (s.state == end_of_session)

pub abort : Server → Server
unfolding is_alive
abort s = if not (is_alive s) then s else record s { state = end_of_session }

module _ (n : Network) where
  abbrev pub from_request :
      Message → Contact → Address → Bytes → Option GroupDataMessage → Option Server
  from_request msg contact sender challenge none = none
  from_request msg contact sender challenge (some request) = some (record {
    session_id = msg.session_id;
    state = 0;
    contact = contact;
    sender = sender;
    group_data_msg = request;
    challenge = challenge;
    error = none;
  })

  -- `NewGetGroupDataSessionServer`, with the challenge that `rand.Read` gave.
  unfoldable pub new_server : Message → Contact → Address → Bytes → Option Server
  new_server msg contact sender challenge =
      from_request msg contact sender challenge (n.request_codec.unmarshal msg.payload)

  -- A boxer as it is sent, or the error.
  abbrev pub encoded_boxer : SessionError → Option SymmetricKey → Result SessionError Bytes
  encoded_boxer e boxer = or_fail boxer e >>= λ b. or_fail (n.key_codec.marshal b) not_encoded

  -- A value of `GroupData` without a name leaves the key nil.
  unfoldable pub requested_key :
      CtxCallback → Address → Bytes → GroupData → Result SessionError Bytes
  requested_key callback group payload get_group_key =
      encoded_boxer no_boxer (callback.get_boxer_of_group group)
  requested_key callback group payload get_proposed_group_key =
      encoded_boxer no_proposed_boxer
        (callback.get_proposed_boxer_of_group group (n.bytes_to_address payload))
  requested_key callback group payload (unknown_data _) = ok []

  abbrev pub key_for : CtxCallback → GroupDataMessage → Result SessionError Bytes
  key_for callback request = requested_key callback request.group request.payload request.requested

  -- What becomes of a session whose last step was to send something.
  abbrev pub after_send : ℕ → Server → Result SessionError (Packet n) → Server × Option (Packet n)
  after_send next s (ok p) = (record s { state = next }, some p)
  after_send next s (err e) = (failed_with e s, none)
  after_send next s panic = (s, none)

  -- State 0.
  unfoldable pub send_challenge : CtxCallback → Signer → Server → Server × Option (Packet n)
  send_challenge callback signer s =
      if not (callback.is_member s.group_data_msg.group s.contact.account_address)
      then (failed_with not_member s, none)
      else after_send 1 s (send_message n s.sender s.session_id s.challenge signer s.contact)

  -- State 1.
  unfoldable pub send_key : CtxCallback → Signer → Bytes → Server → Server × Option (Packet n)
  send_key callback signer sig s =
      if not (verify_signature n s.contact s.challenge sig)
      then (failed_with invalid_signature s, none)
      else after_send end_of_session s (
          key_for callback s.group_data_msg >>= λ key.
          send_message n s.sender s.session_id key signer s.contact)

  abbrev pub step : CtxCallback → Signer → Bytes → Server → ℕ → Server × Option (Packet n)
  step callback signer payload s zero = send_challenge callback signer s
  step callback signer payload s (suc zero) = send_key callback signer payload s
  step callback signer payload s (suc (suc _)) = (s, none)

  -- `NextState`; the contact that it is given plays no part.
  unfoldable pub next_state : CtxCallback → Signer → Bytes → Server → Server × Option (Packet n)
  next_state callback signer payload s = step callback signer payload s s.state

  -- What a session is given in a call: the state of the groups at the time, and a payload.
  abbrev pub Input : Type 0
  Input = CtxCallback × Bytes

  abbrev opt_cons : Option (Packet n) → List (Packet n) → List (Packet n)
  opt_cons none ps = ps
  opt_cons (some p) ps = p ∷ ps

  -- All that a session sends over a sequence of calls of `NextState`.
  pub sent_over : Signer → List Input → Server → List (Packet n)
  sent_over signer [] s = []
  sent_over signer ((callback, payload) ∷ is) s =
      let (s', sent) = next_state callback signer payload s in
      opt_cons sent (sent_over signer is s')
