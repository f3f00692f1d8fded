-- ===== src/Communication/Exchange.antt =====
-- A whole session: client and server side by side, each given what the other one has sent.
use ipfs_share.Prelude.{ℕ, ◌≡◌, refl, ◌∙◌, ap, [], Bytes, true, Option, none, some, ok, or_fail}
use ipfs_share.Crypto.SymmetricKey.{SymmetricKey}
use ipfs_share.Fs.Meta.{Address}
use ipfs_share.Communication.Message.{
  Message, GroupData, get_group_key, get_proposed_group_key, Contact, Network, IsNetwork, Signer,
  not_encoded, no_boxer, no_proposed_boxer, Packet, read_message,
}
use ipfs_share.Communication.Message.Sending.{Signs, sent_message, verify_signature-Signs}
use ipfs_share.Communication.Client.{Client, new_client, success}
use ipfs_share.Communication.Client as ClientSide
use ipfs_share.Communication.Client.Steps.{request-Sends, answer-Sends, take_key_lem}
use ipfs_share.Communication.Server.{
  CtxCallback, Server, new_server, end_of_session, requested_key, encoded_boxer, from_request,
}
use ipfs_share.Communication.Server as ServerSide
use ipfs_share.Communication.Server.Steps.{challenge-Sends, key-Sends}

-- `alice` asks `bob`, who has drawn `challenge`, for `requested` of the group.
module _ (n : Network) (laws : IsNetwork n) {alice_signs bob_signs : Signer} (alice bob : Contact)
    (a : Signs n alice_signs alice.eth_account_address)
    (b : Signs n bob_signs bob.eth_account_address) (book : Address → Option Contact)
    (alice_known : book alice.account_address ≡ some alice)
    (bob_known : book bob.account_address ≡ some bob)
    (delivers : (c : Contact) (bs : Bytes) → n.delivers c bs ≡ true) (callback : CtxCallback)
    (group : Address) (session_id : ℕ) (challenge : Bytes) where
  -- The four messages, each read from the packet that the step before it has sent, and the states
  -- that both sides go through.
  pub record FourMessages (requested : GroupData) (payload : Bytes) (target : Address)
      (key : SymmetricKey) : Type 0 where
    pub c1 : Client
    pub c2 : Client
    pub c3 : Client
    pub s0 : Server
    pub s1 : Server
    pub s2 : Server
    pub p1 : Packet n
    pub p2 : Packet n
    pub p3 : Packet n
    pub p4 : Packet n
    pub m1 : Message
    pub m2 : Message
    pub m3 : Message
    pub m4 : Message
    pub requests :
        ClientSide.next_state n alice_signs []
          (new_client requested group payload bob alice.account_address session_id)
        ≡ (c1, some p1, none)
    pub read1 : read_message n book p1.contents ≡ some m1
    pub accepts : new_server n m1 alice bob.account_address challenge ≡ some s0
    pub challenges : ServerSide.next_state n callback bob_signs [] s0 ≡ (s1, some p2)
    pub read2 : read_message n book p2.contents ≡ some m2
    pub answers : ClientSide.next_state n alice_signs m2.payload c1 ≡ (c2, some p3, none)
    pub read3 : read_message n book p3.contents ≡ some m3
    pub grants : ServerSide.next_state n callback bob_signs m3.payload s1 ≡ (s2, some p4)
    pub read4 : read_message n book p4.contents ≡ some m4
    pub takes : ClientSide.next_state n alice_signs m4.payload c2 ≡ (c3, none, some (target, key))
    pub ended : (c3.state ≡ end_of_session) × (s2.state ≡ end_of_session)
    pub no_error : (c3.error ≡ none) × (s2.error ≡ none)

  -- An exchange about data that the server has, as `bs`.
  exchange :
      (requested : GroupData) (payload bs : Bytes) (target : Address) (key : SymmetricKey)
      → callback.is_member group alice.account_address ≡ true
      → requested_key n callback group payload requested ≡ ok bs
      → n.key_codec.unmarshal bs ≡ some key
      → success n group payload key requested ≡ some (target, key)
      → FourMessages requested payload target key
  unfolding new_server new_client
  exchange requested payload bs target key member granted decodes for_target =
      let (enc, unmarshals, r) =
        request-Sends n laws alice a book alice_known c0 [] refl refl (delivers bob) in
      let ch =
        challenge-Sends n laws bob b book bob_known callback s0 [] refl refl (delivers alice)
          member in
      let an =
        answer-Sends n laws alice a book alice_known (record c0 { state = 1 }) challenge refl refl
          (delivers bob) in
      let k =
        key-Sends n laws bob b book bob_known callback (record s0 { state = 1 })
          (a.signature challenge) bs refl refl (delivers alice)
          (verify_signature-Signs n alice challenge a) granted in
      record {
        c1 = record c0 { state = 1 };
        c2 = record c0 { state = 2 };
        c3 = record c0 { state = end_of_session };
        s0 = s0;
        s1 = record s0 { state = 1 };
        s2 = record s0 { state = end_of_session };
        p1 = r.packet;
        p2 = ch.packet;
        p3 = an.packet;
        p4 = k.packet;
        m1 = sent_message n a alice.account_address session_id enc;
        m2 = sent_message n b bob.account_address session_id challenge;
        m3 = sent_message n a alice.account_address session_id (a.signature challenge);
        m4 = sent_message n b bob.account_address session_id bs;
        requests = r.stepped;
        read1 = r.reads;
        accepts =
            ap
              (from_request n (sent_message n a alice.account_address session_id enc) alice
                bob.account_address challenge)
              unmarshals;
        challenges = ch.stepped;
        read2 = ch.reads;
        answers = an.stepped;
        read3 = an.reads;
        grants = k.stepped;
        read4 = k.reads;
        takes =
            take_key_lem n laws alice a book alice_known (record c0 { state = 2 }) bs key refl
              decodes
            ∙ ap (λ o. (record c0 { state = end_of_session }, none, o)) for_target;
        ended = (refl, refl);
        no_error = (refl, refl);
      }
    where
      c0 : Client
      c0 = new_client requested group payload bob alice.account_address session_id

      s0 : Server
      s0 = record {
        session_id = session_id;
        state = 0;
        contact = alice;
        sender = bob.account_address;
        group_data_msg = record { group = group; requested = requested; payload = payload };
        challenge = challenge;
        error = none;
      }

  -- Under the laws of the codecs: where the network delivers, both sides sign as the accounts that
  -- their contacts name and are known to the address book, and the server's group has the client
  -- as a member and a key, a session takes four messages, ends on both sides without an error and
  -- gives the client the group's key.
  pub exchange_group_key :
      (key : SymmetricKey)
      → callback.is_member group alice.account_address ≡ true
      → callback.get_boxer_of_group group ≡ some key
      → FourMessages get_group_key [] group key
  unfolding requested_key success
  exchange_group_key key member has =
      let (bs, marshals, unmarshals) = laws.key_laws.round_trip key in
      exchange get_group_key [] bs group key member
        (ap (encoded_boxer n no_boxer) has ∙ ap (λ o. or_fail o not_encoded) marshals) unmarshals
        refl

  -- Under the laws of the codecs: where the network delivers, both sides sign as the accounts that
  -- their contacts name and are known to the address book, and the server's group has the client
  -- as a member and a key that an account has proposed, a session for that key takes four
  -- messages, ends on both sides without an error and gives the client the key under the
  -- proposer's address.
  pub exchange_proposed_key :
      (proposer : Address) (key : SymmetricKey)
      → callback.is_member group alice.account_address ≡ true
      → callback.get_proposed_boxer_of_group group proposer ≡ some key
      → FourMessages get_proposed_group_key (n.address_bytes proposer) proposer key
  unfolding requested_key success
  exchange_proposed_key proposer key member has =
      let (bs, marshals, unmarshals) = laws.key_laws.round_trip key in
      exchange get_proposed_group_key (n.address_bytes proposer) bs proposer key member
        (ap (λ p. encoded_boxer n no_proposed_boxer (callback.get_proposed_boxer_of_group group p))
            (laws.addresses proposer)
          ∙ ap (encoded_boxer n no_proposed_boxer) has
          ∙ ap (λ o. or_fail o not_encoded) marshals)
        unmarshals (ap (λ p. some (p, key)) (laws.addresses proposer))
