-- ===== src/Communication/Server/Safety.antt =====
-- To whom a server session sends, and when.
use ipfs_share.Prelude.{
  ℕ, zero, suc, ◌≡◌, refl, sym, ◌∙◌, ap, ◌⊎◌, inl, inr, Bytes, Bool, true, false, not, Option, none,
  some, if◌then◌else◌, Result, ok, err, panic, ◌>>=◌,
}
use ipfs_share.Communication.Message.{
  Network, Signer, SessionError, Packet, send_message, verify_signature, not_member,
  invalid_signature,
}
use ipfs_share.Communication.Message.Sending.{send_message-to}
use ipfs_share.Communication.Server.{
  CtxCallback, Server, end_of_session, failed_with, after_send, send_challenge, send_key, key_for,
  next_state, step,
}

module _ (n : Network) where
  -- When a session may send: the challenge in state 0, the answer in state 1.
  abbrev pub MaySend : CtxCallback → Bytes → Server → Server → Type 0
  MaySend callback payload s s' =
      ((s.state ≡ 0)
        × (s'.state ≡ 1)
        × (callback.is_member s.group_data_msg.group s.contact.account_address ≡ true))
      ⊎ ((s.state ≡ 1)
          × (s'.state ≡ end_of_session)
          × (verify_signature n s.contact s.challenge payload ≡ true))

  -- What a step of a session may do: change its state and its error, end it or move it on, and send
  -- one thing to its contact, under its guard.
  pub record Guarded (callback : CtxCallback) (payload : Bytes) (s s' : Server)
      (sent : Option (Packet n)) : Type 0 where
    pub same_contact : s'.contact ≡ s.contact
    pub same_request : s'.group_data_msg ≡ s.group_data_msg
    pub same_challenge : s'.challenge ≡ s.challenge
    pub quiet : sent ≡ none → (s'.state ≡ s.state) ⊎ (s'.state ≡ end_of_session)
    pub may_send :
        (p : Packet n) → sent ≡ some p → (p.to ≡ s.contact) × MaySend callback payload s s'

  -- A step that sends nothing.
  ended :
      (callback : CtxCallback) (payload : Bytes) (s : Server) (e : SessionError)
      → Guarded callback payload s (failed_with e s) none
  ended callback payload s e = record {
    same_contact = refl;
    same_request = refl;
    same_challenge = refl;
    quiet = λ _. inr refl;
    may_send = λ p q. cc;
  }

  unchanged :
      (callback : CtxCallback) (payload : Bytes) (s : Server) → Guarded callback payload s s none
  unchanged callback payload s = record {
    same_contact = refl;
    same_request = refl;
    same_challenge = refl;
    quiet = λ _. inl refl;
    may_send = λ p q. cc;
  }

  -- A step that sends what `r` is, once its guard holds.
  after_send-Guarded :
      (callback : CtxCallback) (payload : Bytes) (s : Server) (next : ℕ)
      (r : Result SessionError (Packet n))
      → ((p : Packet n) → r ≡ ok p → p.to ≡ s.contact)
      → ((p : Packet n) → MaySend callback payload s (record s { state = next }))
      → let (s', sent) = after_send n next s r in Guarded callback payload s s' sent
  after_send-Guarded callback payload s next (ok p) to guard = record {
    same_contact = refl;
    same_request = refl;
    same_challenge = refl;
    quiet = λ e. cc;
    may_send = λ q e. (ap (λ (t : Packet n). t.to) (sym (some_inj e)) ∙ to p refl, guard q);
  }
    where
      some_inj : {q : Packet n} → some p ≡ some q → p ≡ q
      some_inj e = cc
  after_send-Guarded callback payload s next (err e) to guard = ended callback payload s e
  after_send-Guarded callback payload s next panic to guard = unchanged callback payload s

  send_challenge-Guarded :
      (callback : CtxCallback) (signer : Signer) (payload : Bytes) (s : Server)
      → s.state ≡ 0
      → let (s', sent) = send_challenge n callback signer s in Guarded callback payload s s' sent
  unfolding send_challenge
  send_challenge-Guarded callback signer payload s at_0 =
      branch (callback.is_member s.group_data_msg.group s.contact.account_address) refl
    where
      sending : Result SessionError (Packet n)
      sending = send_message n s.sender s.session_id s.challenge signer s.contact

      branch :
          (b : Bool)
          → callback.is_member s.group_data_msg.group s.contact.account_address ≡ b
          → let (s', sent) =
              if not b then (failed_with not_member s, none) else after_send n 1 s sending in
            Guarded callback payload s s' sent
      branch false e = ended callback payload s not_member
      branch true e =
          after_send-Guarded callback payload s 1 sending
            (send_message-to n s.sender s.session_id s.challenge signer s.contact)
            (λ _. inl (at_0, refl, e))

  send_key-Guarded :
      (callback : CtxCallback) (signer : Signer) (payload : Bytes) (s : Server)
      → s.state ≡ 1
      → let (s', sent) = send_key n callback signer payload s in Guarded callback payload s s' sent
  unfolding send_key
  send_key-Guarded callback signer payload s at_1 =
      branch (verify_signature n s.contact s.challenge payload) refl
    where
      sending : Result SessionError (Packet n)
      sending = key_for n callback s.group_data_msg >>= λ key.
          send_message n s.sender s.session_id key signer s.contact

      sending-to :
          (r : Result SessionError Bytes) (p : Packet n)
          → (r >>= λ key. send_message n s.sender s.session_id key signer s.contact) ≡ ok p
          → p.to ≡ s.contact
      sending-to (ok key) p e = send_message-to n s.sender s.session_id key signer s.contact p e
      sending-to (err _) p e = cc
      sending-to panic p e = cc

      branch :
          (b : Bool)
          → verify_signature n s.contact s.challenge payload ≡ b
          → let (s', sent) =
              if not b
              then (failed_with invalid_signature s, none)
              else after_send n end_of_session s sending in
            Guarded callback payload s s' sent
      branch false e = ended callback payload s invalid_signature
      branch true e =
          after_send-Guarded callback payload s end_of_session sending
            (sending-to (key_for n callback s.group_data_msg)) (λ _. inr (at_1, refl, e))

  -- A step of a server session keeps its contact, request and challenge, and sends, if anything,
  -- one packet to its contact: from state 0 to a member, or from state 1, on the contact's
  -- signature of the challenge, after which the session has ended; a step that sends nothing keeps
  -- the state or ends the session.
  pub next_state-Guarded :
      (callback : CtxCallback) (signer : Signer) (payload : Bytes) (s : Server)
      → let (s', sent) = next_state n callback signer payload s in
        Guarded callback payload s s' sent
  unfolding next_state
  next_state-Guarded callback signer payload s = at s.state refl
    where
      at :
          (k : ℕ)
          → s.state ≡ k
          → let (s', sent) = step n callback signer payload s k in
            Guarded callback payload s s' sent
      at zero e = send_challenge-Guarded callback signer payload s e
      at (suc zero) e = send_key-Guarded callback signer payload s e
      at (suc (suc _)) e = unchanged callback payload s
