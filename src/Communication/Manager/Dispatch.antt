-- ===== src/Communication/Manager/Dispatch.antt =====
-- What one round of `handleConnection` does with what it has read.
use ipfs_share.Prelude.{
  ◌≡◌, refl, ◌∙◌, ap, [], ◌∷◌, ◌++◌, Bytes, Option, none, some, length, nat_eq, ==_iff,
}
use ipfs_share.Collections.Map.{get}
use ipfs_share.Collections.Map.Laws.{get-put}
use ipfs_share.Fs.Meta.{Address}
use ipfs_share.Communication.Message.{Message, Contact, Network, read_message, book_get}
use ipfs_share.Communication.Server.{Server, new_server}
use ipfs_share.Communication.Manager.{
  server_session, P2PManager, add_and_run, handle_connection, accepted, dispatch, from_sender,
  received,
}

module _ (n : Network) where
  -- Bytes that are no message, or none that verifies, are dropped.
  pub handle_connection_unread :
      (book : Address → Option Contact) (bytes : Bytes) (challenge : Option Bytes) (m : P2PManager)
      → read_message n book bytes ≡ none
      → handle_connection n book bytes challenge m ≡ m
  unfolding handle_connection
  handle_connection_unread book bytes challenge m e = ap (received n book challenge m) e

  pub read_known :
      (book : Address → Option Contact) (bytes : Bytes) (challenge : Option Bytes) (m : P2PManager)
      (msg : Message) (c : Contact)
      → read_message n book bytes ≡ some msg
      → book_get n book msg.from ≡ some c
      → handle_connection n book bytes challenge m
        ≡ dispatch n msg c challenge m (get msg.session_id m.sessions)
  unfolding handle_connection
  read_known book bytes challenge m msg c e k =
      ap (received n book challenge m) e ∙ ap (from_sender n msg challenge m) k

  -- A message that is read, from a known sender, with a new session id and a request as its
  -- payload, makes one server session for the sender with the challenge drawn, stores it under the
  -- id and starts its first call.
  pub handle_connection_new_id :
      (book : Address → Option Contact) (bytes challenge : Bytes) (m : P2PManager) (msg : Message)
      (c : Contact) (s : Server)
      → read_message n book bytes ≡ some msg
      → book_get n book msg.from ≡ some c
      → get msg.session_id m.sessions ≡ none
      → new_server n msg c m.account challenge ≡ some s
      → let m' = handle_connection n book bytes (some challenge) m in
        (m'.objects ≡ m.objects ++ server_session s ∷ [])
        × (m'.pending ≡ m.pending ++ (length m.objects, []) ∷ [])
        × (get s.session_id m'.sessions ≡ some (length m.objects))
  unfolding add_and_run
  handle_connection_new_id book bytes challenge m msg c s e k missing made =
      let added =
        read_known book bytes (some challenge) m msg c e k
        ∙ ap (dispatch n msg c (some challenge) m) missing
        ∙ ap (λ o. accepted n o m) made in
      (
        ap (λ (t : P2PManager). t.objects) added ∙ after.0,
        ap (λ (t : P2PManager). t.pending) added ∙ after.1,
        ap (λ (t : P2PManager). get s.session_id t.sessions) added ∙ after.2,
      )
    where
      after :
          let m' = add_and_run (server_session s) m in
          (m'.objects ≡ m.objects ++ server_session s ∷ [])
          × (m'.pending ≡ m.pending ++ (length m.objects, []) ∷ [])
          × (get s.session_id m'.sessions ≡ some (length m.objects))
      after = (
        refl,
        refl,
        get-put s.session_id s.session_id (some (length m.objects)) m.sessions
            ∙ rw ((==_iff s.session_id s.session_id).1 refl) refl,
      )
