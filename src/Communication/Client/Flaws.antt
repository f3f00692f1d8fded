-- ===== src/Communication/Client/Flaws.antt =====
-- Where a client session does not do what its methods' names say.
use ipfs_share.Prelude.{
  ◌≡◌, refl, sym, ◌∙◌, ap, Bytes, none, some, ◌==◌, ==_iff, [], ok, Bool-cases, inl, inr,
}
use ipfs_share.Communication.Message.{Network, Signer, not_signed, Packet, send_message}
use ipfs_share.Communication.Server.{end_of_session}
use ipfs_share.Communication.Client.{
  Client, abort, is_alive, next_state, answer, after_send, failed_with, step,
}

-- Abort changes no client session, alive or not.
pub abort_lem : (c : Client) → abort c ≡ c
unfolding abort is_alive
abort_lem c = elim (Bool-cases (c.state == end_of_session)) [
  | inl e ↦ rw e (ap (λ k. record c { state = k }) (sym ((==_iff c.state end_of_session).0 e)))
  | inr e ↦ rw e refl
]

-- A client that cannot sign the challenge, but can sign and send the message without a signature,
-- goes on to wait for the key, with its error set.
pub next_state_unsigned :
    (n : Network) (signer : Signer) (challenge : Bytes) (c : Client) (p : Packet n)
    → c.state ≡ 1
    → signer challenge ≡ none
    → send_message n c.sender c.session_id [] signer c.receiver ≡ ok p
    → next_state n signer challenge c
      ≡ (record c { state = 2; error = some not_signed }, some p, none)
unfolding next_state answer
next_state_unsigned n signer challenge c p at_1 unsigned sent =
    ap (step n signer challenge c) at_1
    ∙ ap (answer n signer c) unsigned
    ∙ ap (after_send n 2 (failed_with not_signed c)) sent
