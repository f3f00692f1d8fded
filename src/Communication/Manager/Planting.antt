-- ===== src/Communication/Manager/Planting.antt =====
-- Whose message a client session of client/communication/p2pmanager.go takes a key from.
use ipfs_share.Prelude.{◌≡◌, ◌∙◌, ap, [], ◌∷◌, ◌++◌, Bytes, true, Option, none, some, ok, ℕ, nat_eq}
use ipfs_share.Crypto.SymmetricKey.{SymmetricKey}
use ipfs_share.Collections.Map.{get}
use ipfs_share.Fs.Meta.{Address}
use ipfs_share.Communication.Message.{
  Message, Contact, Network, IsNetwork, Signer, Packet, send_message, book_get,
}
use ipfs_share.Communication.Message.Sending.{Signs, sent_message, send_message_lem}
use ipfs_share.Communication.Server.{end_of_session}
use ipfs_share.Communication.Client.{Client, next_state, success}
use ipfs_share.Communication.Client.Steps.{take_key_lem}
use ipfs_share.Communication.Manager.{
  P2PManager, client_session, object, handle_connection, dispatch,
}
use ipfs_share.Communication.Manager.Dispatch.{read_known}

module _ (n : Network) (laws : IsNetwork n) {signer mine : Signer} (outsider victim : Contact)
    (s : Signs n signer outsider.eth_account_address) (t : Signs n mine victim.eth_account_address)
    (book : Address → Option Contact)
    (outsider_known : book outsider.account_address ≡ some outsider)
    (victim_known : book victim.account_address ≡ some victim)
    (delivers : (bs : Bytes) → n.delivers victim bs ≡ true) where
  in_book : book_get n book outsider.account_address ≡ some outsider
  unfolding book_get
  in_book = outsider_known

  -- Under the laws of the codecs, where the network delivers and both accounts sign and are known:
  -- whoever the receiver of a client session in state 2 is, and whichever key is given, any other
  -- account that has the id of the session can send a message that the manager of the session
  -- reads, which adds one call of that session and changes nothing else; and that call ends the
  -- session, sends nothing, and hands over the given key as the one that the session asked for.
  pub key_planted :
      (m : P2PManager) (c : Client) (i : ℕ) (key : SymmetricKey) (challenge : Option Bytes)
      → c.state ≡ 2
      → get c.session_id m.sessions ≡ some i
      → object m.objects i ≡ some (client_session c)
      → (bs : Bytes) × (p : Packet n) × (send_message n outsider.account_address c.session_id bs
            signer victim
          ≡ ok p)
        × (handle_connection n book p.contents challenge m
            ≡ record m { pending = m.pending ++ (i, bs) ∷ [] })
        × (object (handle_connection n book p.contents challenge m).objects i
            ≡ some (client_session c))
        × (next_state n mine bs c ≡ (
          record c { state = end_of_session },
          none,
          success n c.group_data_msg.group c.group_data_msg.payload key c.group_data_msg.requested,
        ))
  key_planted m c i key challenge at_2 found there =
      let (bs, _, decodes) = laws.key_laws.round_trip key in
      let (p, sends, _, reads) =
        send_message_lem n laws outsider s book c.session_id bs victim delivers outsider_known in
      let msg : Message = sent_message n s outsider.account_address c.session_id bs in
      let started : handle_connection n book p.contents challenge m
          ≡ record m { pending = m.pending ++ (i, bs) ∷ [] } =
        read_known n book p.contents challenge m msg outsider reads in_book
        ∙ ap (dispatch n msg outsider challenge m) found in
      (
        bs,
        p,
        sends,
        started,
        ap (λ (q : P2PManager). object q.objects i) started ∙ there,
        take_key_lem n laws victim t book victim_known c bs key at_2 decodes,
      )
