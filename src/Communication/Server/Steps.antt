-- ===== src/Communication/Server/Steps.antt =====
-- The steps of a server session where the network and the signer work.
use ipfs_share.Prelude.{◌≡◌, ◌∙◌, ap, Bytes, true, Option, some, ok, ◌>>=◌}
use ipfs_share.Fs.Meta.{Address}
use ipfs_share.Communication.Message.{
  Message, Contact, Network, IsNetwork, Signer, Packet, send_message, read_message,
  verify_signature,
}
use ipfs_share.Communication.Message.Sending.{Signs, sent_message, send_message_lem}
use ipfs_share.Communication.Server.{
  CtxCallback, Server, end_of_session, next_state, send_challenge, send_key, key_for, after_send,
  step,
}

module _ (n : Network) (laws : IsNetwork n) {signer : Signer} (me : Contact)
    (sg : Signs n signer me.eth_account_address) (book : Address → Option Contact)
    (known : book me.account_address ≡ some me) (callback : CtxCallback) where
  pub record Sends (s s' : Server) (payload : Bytes) (m : Message) : Type 0 where
    pub packet : Packet n
    pub stepped : next_state n callback signer payload s ≡ (s', some packet)
    pub to : packet.to ≡ s.contact
    pub reads : read_message n book packet.contents ≡ some m

  pub challenge-Sends :
      (s : Server) (payload : Bytes)
      → s.state ≡ 0
      → s.sender ≡ me.account_address
      → ((bs : Bytes) → n.delivers s.contact bs ≡ true)
      → callback.is_member s.group_data_msg.group s.contact.account_address ≡ true
      → Sends s
          (record s { state = 1 })
          payload
          (sent_message n sg me.account_address s.session_id s.challenge)
  unfolding next_state send_challenge
  challenge-Sends s payload at_0 mine delivers member =
      let (p, sent, to, reads) =
        send_message_lem n laws me sg book s.session_id s.challenge s.contact delivers known in
      record {
        packet = p;
        stepped =
            ap (step n callback signer payload s) at_0
            ∙ rw member (
                ap
                  (λ a.
                    after_send n 1 s (send_message n a s.session_id s.challenge signer s.contact))
                  mine
                ∙ ap (after_send n 1 s) sent);
        to = to;
        reads = reads;
      }

  pub key-Sends :
      (s : Server) (payload key : Bytes)
      → s.state ≡ 1
      → s.sender ≡ me.account_address
      → ((bs : Bytes) → n.delivers s.contact bs ≡ true)
      → verify_signature n s.contact s.challenge payload ≡ true
      → key_for n callback s.group_data_msg ≡ ok key
      → Sends s
          (record s { state = end_of_session })
          payload
          (sent_message n sg me.account_address s.session_id key)
  unfolding next_state send_key
  key-Sends s payload key at_1 mine delivers verified granted =
      let (p, sent, to, reads) =
        send_message_lem n laws me sg book s.session_id key s.contact delivers known in
      record {
        packet = p;
        stepped =
            ap (step n callback signer payload s) at_1
            ∙ rw verified (
                ap
                  (λ r.
                    after_send n end_of_session s
                      (r >>= λ k. send_message n s.sender s.session_id k signer s.contact))
                  granted
                ∙ ap
                    (λ a.
                      after_send n end_of_session s
                        (send_message n a s.session_id key signer s.contact))
                    mine
                ∙ ap (after_send n end_of_session s) sent);
        to = to;
        reads = reads;
      }
