-- ===== src/Communication/Manager/Interleaving.antt =====
-- What the sessions of a manager send, in every interleaving of its goroutines.
use ipfs_share.Prelude.{
  ℕ, zero, suc, ◌≡◌, refl, sym, ◌∙◌, ◌⊎◌, inl, inr, List, [], ◌∷◌, ◌++◌, Bytes, true, Option, none,
  some, All, arith, subst, nat_eq,
}
use ipfs_share.Collections.Map.{get}
use ipfs_share.Fs.Meta.{Address}
use ipfs_share.Communication.Message.{
  Message, Contact, GroupDataMessage, Network, Signer, Packet, verify_signature, read_message,
  book_get,
}
use ipfs_share.Communication.Server.{CtxCallback, Server, new_server, from_request, end_of_session}
use ipfs_share.Communication.Server as ServerSide
use ipfs_share.Communication.Server.Safety.{Guarded, MaySend, next_state-Guarded}
use ipfs_share.Communication.Client.{Client}
use ipfs_share.Communication.Client as ClientSide
use ipfs_share.Communication.Manager.{
  Session, server_session, client_session, P2PManager, new_p2p_manager, object, set_object,
  add_and_run, handle_connection, accepted, dispatch, from_sender, received, next_state, sent_by,
  Sent, Step, receives, starts, runs, Reach, fresh, goes_on,
}

All-append : {A : Type 0} (P : A → Type 0) (xs ys : List A) → All P xs → All P ys → All P (xs ++ ys)
All-append P [] ys p q = q
All-append P (x ∷ xs) ys (h, hs) q = (h, All-append P xs ys hs q)

All-object :
    (P : Session → Type 0) (ss : List Session) (i : ℕ) (s : Session)
    → object ss i ≡ some s
    → All P ss
    → P s
All-object P [] i s e p = cc
All-object P (t ∷ ss) zero s e (h, _) = subst P (some_inj e) h
  where
    some_inj : some t ≡ some s → t ≡ s
    some_inj q = cc
All-object P (t ∷ ss) (suc i) s e (_, hs) = All-object P ss i s e hs

All-set_object :
    (P : Session → Type 0) (ss : List Session) (i : ℕ) (s : Session)
    → P s
    → All P ss
    → All P (set_object ss i s)
All-set_object P [] i s p h = tt
All-set_object P (t ∷ ss) zero s p (_, hs) = (p, hs)
All-set_object P (t ∷ ss) (suc i) s p (h, hs) = (h, All-set_object P ss i s p hs)

module _ (n : Network) (signer : Signer) (Member : Address → Address → Type 0) where
  -- The contact of a server session that has sent its challenge has been a member of the group.
  abbrev pub Sound : Session → Type 0
  Sound (server_session s) = s.state ≡ 1 → Member s.group_data_msg.group s.contact.account_address
  Sound (client_session c) = Unit

  -- What may be sent: by a server session only to its contact, who has been a member, and past the
  -- challenge only after a signature of the challenge by the contact.
  abbrev pub Permitted : Sent n → Type 0
  Permitted (server_session s, p) =
      (p.to ≡ s.contact)
      × Member s.group_data_msg.group s.contact.account_address
      × ((s.state ≡ 0) ⊎ ((sig : Bytes) × (verify_signature n s.contact s.challenge sig ≡ true)))
  Permitted (client_session c, p) = Unit

  server_step :
      (callback : CtxCallback) (payload : Bytes) (s s' : Server) (sent : Option (Packet n))
      → ((g a : Address) → callback.is_member g a ≡ true → Member g a)
      → Guarded n callback payload s s' sent
      → Sound (server_session s)
      → Sound (server_session s') × All Permitted (sent_by n (server_session s) sent)
  server_step callback payload s s' none knows g sound = (after_quiet (g.quiet refl), tt)
    where
      after_quiet : (s'.state ≡ s.state) ⊎ (s'.state ≡ end_of_session) → Sound (server_session s')
      after_quiet (inl same) at_1 = rw (g.same_contact, g.same_request) (sound (sym same ∙ at_1))
      after_quiet (inr over) at_1 = absurd (omega (arith, over, at_1))
  server_step callback payload s s' (some p) knows g sound =
      let (to, may) = g.may_send p refl in
      let (sound', member, why) = after_send may in (sound', ((to, member, why), tt))
    where
      after_send :
          MaySend n callback payload s s'
          → Sound (server_session s')
            × Member s.group_data_msg.group s.contact.account_address
            × ((s.state ≡ 0)
                ⊎ ((sig : Bytes) × (verify_signature n s.contact s.challenge sig ≡ true)))
      after_send (inl (at_0, _, member)) =
          let m = knows s.group_data_msg.group s.contact.account_address member in
          ((λ _. rw (g.same_contact, g.same_request) m), m, inl at_0)
      after_send (inr (at_1, over, verified)) =
          ((λ now. absurd (omega (arith, over, now))), sound at_1, inr (payload, verified))

  session_step :
      (callback : CtxCallback) (payload : Bytes) (s : Session)
      → ((g a : Address) → callback.is_member g a ≡ true → Member g a)
      → Sound s
      → let (s', sent) = next_state n callback signer payload s in
        Sound s' × All Permitted (sent_by n s sent)
  unfolding next_state
  session_step callback payload (server_session s) knows sound =
      let (s', sent) = ServerSide.next_state n callback signer payload s in
      server_step callback payload s s' sent knows (next_state-Guarded n callback signer payload s)
        sound
  session_step callback payload (client_session c) knows sound =
      (tt, anything (ClientSide.next_state n signer payload c).1)
    where
      anything : (sent : Option (Packet n)) → All Permitted (sent_by n (client_session c) sent)
      anything none = tt
      anything (some p) = (tt, tt)

  add_and_run-Sound :
      (s : Session) (m : P2PManager)
      → Sound s
      → All Sound m.objects
      → All Sound (add_and_run s m).objects
  unfolding add_and_run
  add_and_run-Sound s m h hs = All-append Sound m.objects (s ∷ []) hs (h, tt)

  accepted-Sound :
      (msg : Message) (contact : Contact) (challenge : Bytes) (m : P2PManager)
      (request : Option GroupDataMessage)
      → All Sound m.objects
      → All Sound (accepted n (from_request n msg contact m.account challenge request) m).objects
  accepted-Sound msg contact challenge m none h = h
  accepted-Sound msg contact challenge m (some request) h =
      add_and_run-Sound
        (server_session (record {
          session_id = msg.session_id;
          state = 0;
          contact = contact;
          sender = m.account;
          group_data_msg = request;
          challenge = challenge;
          error = none;
        }))
        m (λ e. absurd (omega (arith, e))) h

  dispatch-Sound :
      (msg : Message) (contact : Contact) (challenge : Option Bytes) (m : P2PManager)
      (found : Option ℕ)
      → All Sound m.objects
      → All Sound (dispatch n msg contact challenge m found).objects
  unfolding new_server
  dispatch-Sound msg contact challenge m (some i) h = h
  dispatch-Sound msg contact none m none h = h
  dispatch-Sound msg contact (some challenge) m none h =
      accepted-Sound msg contact challenge m (n.request_codec.unmarshal msg.payload) h

  received-Sound :
      (book : Address → Option Contact) (challenge : Option Bytes) (m : P2PManager)
      (msg : Option Message)
      → All Sound m.objects
      → All Sound (received n book challenge m msg).objects
  received-Sound book challenge m none h = h
  received-Sound book challenge m (some msg) h = from_contact (book_get n book msg.from)
    where
      from_contact : (c : Option Contact) → All Sound (from_sender n msg challenge m c).objects
      from_contact none = h
      from_contact (some c) = dispatch-Sound msg c challenge m (get msg.session_id m.sessions) h

  step-Sound :
      (m m' : P2PManager) (label : List (Sent n))
      → Step n signer Member m label m'
      → All Sound m.objects
      → All Sound m'.objects × All Permitted label
  unfolding handle_connection
  step-Sound m m' label (receives book bytes challenge _) h =
      (received-Sound book challenge m (read_message n book bytes) h, tt)
  step-Sound m m' label (starts c _) h = (add_and_run-Sound (client_session c) m tt h, tt)
  step-Sound m m' label (runs callback before after i payload s _ knows _ found) h =
      let (sound, permitted) =
        session_step callback payload s knows (All-object Sound m.objects i s found h) in
      (
        All-set_object Sound m.objects i (next_state n callback signer payload s).0 sound h,
        permitted,
      )

  reach-Sound :
      (m : P2PManager) (log : List (Sent n))
      → Reach n signer Member m log
      → All Sound m.objects × All Permitted log
  unfolding new_p2p_manager
  reach-Sound m log (fresh account) = (tt, tt)
  reach-Sound m log (goes_on {log = earlier} {label = label} r step) =
      let (sound, permitted) = reach-Sound _ earlier r in
      let (sound', permitted') = step-Sound _ m label step sound in
      (sound', All-append Permitted earlier label permitted permitted')

  -- Whatever arrives and however the goroutines interleave, what the server sessions of a manager
  -- have sent went to the session's contact, who was a member of the group by a callback, and what
  -- was not sent in state 0 was sent on a signature of the session's challenge that verifies for
  -- the contact.
  pub reach-Permitted :
      (m : P2PManager) (log : List (Sent n)) → Reach n signer Member m log → All Permitted log
  reach-Permitted m log r = (reach-Sound m log r).1
