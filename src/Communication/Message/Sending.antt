-- ===== src/Communication/Message/Sending.antt =====
-- What `send_message` sends: to its contact, a message that verifies where the signer is the sender.
use ipfs_share.Prelude.{
  ℕ, ◌≡◌, refl, ◌∙◌, ap, Bytes, Bool, true, false, Option, none, some, ==_iff, if◌then◌else◌, ok,
  err, or_fail, ◌>>=◌, [],
}
use ipfs_share.Fs.Meta.{Address}
use ipfs_share.Communication.Message.{
  Message, Contact, Network, IsNetwork, Signer, not_created, not_encoded, not_sent, digest, signed,
  new_message, verify_signature, verify, read_message, from_book, from_contact, book_get, Packet,
  delivered, send_message, get_group_data,
}

module _ (n : Network) where
  delivered-to : (c : Contact) (bs : Bytes) (p : Packet n) → delivered n c bs ≡ ok p → p.to ≡ c
  unfolding delivered
  delivered-to c bs p e = branch (n.delivers c bs) e
    where
      branch :
          (b : Bool)
          → (if b then ok (record { to = c; contents = bs }) else err not_sent) ≡ ok p
          → p.to ≡ c
      branch true q = cc
      branch false q = cc

  -- Whatever is sent goes to the contact.
  pub send_message-to :
      (from : Address) (session_id : ℕ) (payload : Bytes) (signer : Signer) (c : Contact)
      (p : Packet n)
      → send_message n from session_id payload signer c ≡ ok p
      → p.to ≡ c
  unfolding send_message
  send_message-to from session_id payload signer c p e =
      made (new_message n from get_group_data session_id payload signer) e
    where
      encoded : (r : Option Bytes) → (or_fail r not_encoded >>= delivered n c) ≡ ok p → p.to ≡ c
      encoded none q = cc
      encoded (some bs) q = delivered-to c bs p q

      made :
          (r : Option Message)
          → (or_fail r not_created >>= λ msg.
              or_fail (n.message_codec.marshal msg) not_encoded >>= delivered n c)
            ≡ ok p
          → p.to ≡ c
      made none q = cc
      made (some m) q = encoded (n.message_codec.marshal m) q

  -- The signer signs as the owner of `a`: it signs everything, and what it signs is recovered to `a`.
  pub record Signs (signer : Signer) (a : Address) : Type 0 where
    pub signature : Bytes → Bytes
    pub signs : (d : Bytes) → signer d ≡ some (signature d)
    pub recovers : (d : Bytes) → n.recover d (signature d) ≡ some a

  pub verify_signature-Signs :
      {signer : Signer} (c : Contact) (d : Bytes) (s : Signs signer c.eth_account_address)
      → verify_signature n c d (s.signature d) ≡ true
  unfolding verify_signature
  verify_signature-Signs c d s =
      rw (s.recovers d, verify_signature)
        ((==_iff c.eth_account_address c.eth_account_address).1 refl)

  -- The message that is sent.
  abbrev pub sent_message :
      {signer : Signer} {a : Address} → Signs signer a → Address → ℕ → Bytes → Message
  sent_message s from session_id payload =
      let m : Message = record {
        from = from;
        type = get_group_data;
        session_id = session_id;
        payload = payload;
        sig = [];
      } in
      record m { sig = s.signature (digest n m) }

  -- Where the network delivers, sending succeeds, and what arrives is read as the message sent,
  -- with the sender's contact known under its address.
  pub send_message_lem :
      (laws : IsNetwork n) {signer : Signer} (me : Contact)
      (s : Signs signer me.eth_account_address) (book : Address → Option Contact) (session_id : ℕ)
      (payload : Bytes) (c : Contact)
      → ((bs : Bytes) → n.delivers c bs ≡ true)
      → book me.account_address ≡ some me
      → (p : Packet n) × (send_message n me.account_address session_id payload signer c ≡ ok p)
        × (p.to ≡ c)
        × (read_message n book p.contents
            ≡ some (sent_message s me.account_address session_id payload))
  unfolding send_message new_message signed delivered read_message book_get verify digest
  send_message_lem laws {signer} me s book session_id payload c delivers known = (
    record { to = c; contents = bs },
    ap
          (λ r. or_fail (signed n unsigned r) not_created >>= λ msg.
            or_fail (n.message_codec.marshal msg) not_encoded >>= delivered n c)
          (s.signs (digest n unsigned))
        ∙ ap (λ r. or_fail r not_encoded >>= delivered n c) marshals
        ∙ rw (delivers bs) refl,
    refl,
    ap (from_book n book) unmarshals
        ∙ ap (from_contact n m) known
        ∙ rw (verify_signature-Signs me (digest n m) s) refl,
  )
    where
      unsigned : Message
      unsigned = record {
        from = me.account_address;
        type = get_group_data;
        session_id = session_id;
        payload = payload;
        sig = [];
      }

      m : Message
      m = sent_message s me.account_address session_id payload

      encoding :
          (bs : Bytes) × (n.message_codec.marshal m ≡ some bs)
          × (n.message_codec.unmarshal bs ≡ some m)
      encoding = laws.message_laws.round_trip m

      bs : Bytes
      bs = encoding.0

      marshals : n.message_codec.marshal m ≡ some bs
      marshals = encoding.1

      unmarshals : n.message_codec.unmarshal bs ≡ some m
      unmarshals = encoding.2
