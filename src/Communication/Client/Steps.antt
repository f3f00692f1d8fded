-- ===== src/Communication/Client/Steps.antt =====
-- The steps of a client session where the network and the signer work.
use ipfs_share.Prelude.{◌≡◌, ◌∙◌, ap, Bytes, true, Option, none, some, or_fail, ◌>>=◌}
use ipfs_share.Crypto.SymmetricKey.{SymmetricKey}
use ipfs_share.Fs.Meta.{Address}
use ipfs_share.Communication.Message.{
  Message, Contact, Network, IsNetwork, Signer, not_encoded, Packet, send_message, read_message,
}
use ipfs_share.Communication.Message.Sending.{Signs, sent_message, send_message_lem}
use ipfs_share.Communication.Server.{end_of_session}
use ipfs_share.Communication.Client.{
  Client, next_state, request, answer, take_key, success, after_send, step,
}

module _ (n : Network) (laws : IsNetwork n) {signer : Signer} (me : Contact)
    (s : Signs n signer me.eth_account_address) (book : Address → Option Contact)
    (known : book me.account_address ≡ some me) where
  -- A step from state to state that sends `m`.
  pub record Sends (c c' : Client) (payload : Bytes) (m : Message) : Type 0 where
    pub packet : Packet n
    pub stepped : next_state n signer payload c ≡ (c', some packet, none)
    pub to : packet.to ≡ c.receiver
    pub reads : read_message n book packet.contents ≡ some m

  pub request-Sends :
      (c : Client) (payload : Bytes)
      → c.state ≡ 0
      → c.sender ≡ me.account_address
      → ((bs : Bytes) → n.delivers c.receiver bs ≡ true)
      → (bs : Bytes) × (n.request_codec.unmarshal bs ≡ some c.group_data_msg)
        × Sends c
            (record c { state = 1 })
            payload
            (sent_message n s me.account_address c.session_id bs)
  unfolding next_state request
  request-Sends c payload at_0 mine delivers =
      let (bs, marshals, unmarshals) = laws.request_laws.round_trip c.group_data_msg in
      let (p, sent, to, reads) =
        send_message_lem n laws me s book c.session_id bs c.receiver delivers known in
      (
        bs,
        unmarshals,
        record {
          packet = p;
          stepped =
              ap (step n signer payload c) at_0
              ∙ ap
                  (λ r. after_send n 1 c (
                    or_fail r not_encoded >>= λ payload'.
                    send_message n c.sender c.session_id payload' signer c.receiver))
                  marshals
              ∙ ap (λ a. after_send n 1 c (send_message n a c.session_id bs signer c.receiver)) mine
              ∙ ap (after_send n 1 c) sent;
          to = to;
          reads = reads;
        },
      )

  pub answer-Sends :
      (c : Client) (payload : Bytes)
      → c.state ≡ 1
      → c.sender ≡ me.account_address
      → ((bs : Bytes) → n.delivers c.receiver bs ≡ true)
      → Sends c
          (record c { state = 2 })
          payload
          (sent_message n s me.account_address c.session_id (s.signature payload))
  unfolding next_state answer
  answer-Sends c payload at_1 mine delivers =
      let (p, sent, to, reads) =
        send_message_lem n laws me s book c.session_id (s.signature payload) c.receiver delivers
          known in
      record {
        packet = p;
        stepped =
            ap (step n signer payload c) at_1
            ∙ ap (answer n signer c) (s.signs payload)
            ∙ ap
                (λ a.
                  after_send n 2 c
                    (send_message n a c.session_id (s.signature payload) signer c.receiver))
                mine
            ∙ ap (after_send n 2 c) sent;
        to = to;
        reads = reads;
      }

  pub take_key_lem :
      (c : Client) (payload : Bytes) (key : SymmetricKey)
      → c.state ≡ 2
      → n.key_codec.unmarshal payload ≡ some key
      → next_state n signer payload c ≡ (
        record c { state = end_of_session },
        none,
        success n c.group_data_msg.group c.group_data_msg.payload key c.group_data_msg.requested,
      )
  unfolding next_state take_key
  take_key_lem c payload key at_2 decodes =
      ap (step n signer payload c) at_2 ∙ ap (take_key n c) decodes
