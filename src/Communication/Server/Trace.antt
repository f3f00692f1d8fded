-- ===== src/Communication/Server/Trace.antt =====
-- What a server session sends over all its calls.
use ipfs_share.Prelude.{
  ℕ, zero, suc, ◌+◌, ◌≤◌, ◌≡◌, refl, ◌∙◌, ap, inl, inr, List, [], ◌∷◌, Bytes, false, Option, none,
  some, length, All, arith, subst,
}
use ipfs_share.Communication.Message.{
  Contact, GroupDataMessage, Network, Signer, Packet, verify_signature,
}
use ipfs_share.Communication.Server.{
  CtxCallback, Server, end_of_session, next_state, Input, opt_cons, sent_over,
}
use ipfs_share.Communication.Server.Safety.{Guarded, MaySend, next_state-Guarded}

module _ (n : Network) (c : Contact) (request : GroupDataMessage) (challenge : Bytes) where
  -- The session has this contact, request and challenge.
  record Serves (s : Server) : Type 0 where
    contact : s.contact ≡ c
    request_eq : s.group_data_msg ≡ request
    challenge_eq : s.challenge ≡ challenge

  Serves-next :
      (callback : CtxCallback) (payload : Bytes) (s s' : Server) (sent : Option (Packet n))
      → Guarded n callback payload s s' sent
      → Serves s
      → Serves s'
  Serves-next callback payload s s' sent g v = record {
    contact = g.same_contact ∙ v.contact;
    request_eq = g.same_request ∙ v.request_eq;
    challenge_eq = g.same_challenge ∙ v.challenge_eq;
  }

  -- How much a session can still send, from each state, if its inputs are all `Allowed`.
  module _ (budget : ℕ → ℕ) (Allowed : Input n → Type 0) (ended : budget end_of_session ≡ 0)
      (pays : (callback : CtxCallback) (payload : Bytes) (s s' : Server)
        → Serves s
        → Allowed (callback, payload)
        → MaySend n callback payload s s'
        → budget s'.state + 1 ≤ budget s.state) where
    budget_step :
        (callback : CtxCallback) (payload : Bytes) (s s' : Server) (sent : Option (Packet n))
        → Guarded n callback payload s s' sent
        → Serves s
        → Allowed (callback, payload)
        → (ps : List (Packet n)) → length ps ≤ budget s'.state
        → length (opt_cons n sent ps) ≤ budget s.state
    budget_step callback payload s s' none g v a ps h = elim (g.quiet refl) [
      | inl same ↦ subst (λ k. length ps ≤ budget k) same h
      | inr over ↦ omega (arith, h, ap budget over, ended)
    ]
    budget_step callback payload s s' (some p) g v a ps h =
        omega (arith, h, pays callback payload s s' v a (g.may_send p refl).1)

    sent_over_budget :
        (signer : Signer) (is : List (Input n)) (s : Server)
        → Serves s
        → All Allowed is
        → length (sent_over n signer is s) ≤ budget s.state
    unfolding sent_over
    sent_over_budget signer [] s v a = omega arith
    sent_over_budget signer ((callback, payload) ∷ is) s v (a, as') =
        let g = next_state-Guarded n callback signer payload s in
        let (s', sent) = next_state n callback signer payload s in
        budget_step callback payload s s' sent g v a (sent_over n signer is s')
          (sent_over_budget signer is s' (Serves-next callback payload s s' sent g v) as')

  -- The budgets: of any session, of one that is never given the signature, and of one whose contact
  -- is never a member.
  abbrev from_start : ℕ → ℕ
  from_start zero = 2
  from_start (suc zero) = 1
  from_start (suc (suc _)) = 0

  abbrev unproved : ℕ → ℕ
  unproved zero = 1
  unproved (suc _) = 0

  abbrev refused : ℕ → ℕ
  refused zero = 0
  refused (suc zero) = 1
  refused (suc (suc _)) = 0

  abbrev Anything : Input n → Type 0
  Anything i = Unit

  abbrev Unproved : Input n → Type 0
  Unproved i = verify_signature n c challenge i.1 ≡ false

  abbrev Refused : Input n → Type 0
  Refused i = i.0.is_member request.group c.account_address ≡ false

  every : (is : List (Input n)) → All Anything is
  every [] = tt
  every (i ∷ is) = (tt, every is)

  from_start_pays :
      (callback : CtxCallback) (payload : Bytes) (s s' : Server)
      → MaySend n callback payload s s'
      → from_start s'.state + 1 ≤ from_start s.state
  from_start_pays callback payload s s' (inl (a, b, _)) = rw (a, b) (omega arith)
  from_start_pays callback payload s s' (inr (a, b, _)) = rw (a, b) (omega arith)

  unproved_pays :
      (callback : CtxCallback) (payload : Bytes) (s s' : Server)
      → Serves s
      → Unproved (callback, payload)
      → MaySend n callback payload s s'
      → unproved s'.state + 1 ≤ unproved s.state
  unproved_pays callback payload s s' v u (inl (a, b, _)) = rw (a, b) (omega arith)
  unproved_pays callback payload s s' v u (inr (_, _, h)) =
      let a = v.contact in let b = v.challenge_eq in cc

  refused_pays :
      (callback : CtxCallback) (payload : Bytes) (s s' : Server)
      → Serves s
      → Refused (callback, payload)
      → MaySend n callback payload s s'
      → refused s'.state + 1 ≤ refused s.state
  refused_pays callback payload s s' v u (inl (_, _, h)) =
      let a = v.contact in let b = v.request_eq in cc
  refused_pays callback payload s s' v u (inr (a, b, _)) = rw (a, b) (omega arith)

  -- A server session in state 0 sends at most twice over any sequence of calls, at most once if no
  -- call carries its contact's signature of the challenge, and never if its contact is never a
  -- member.
  pub sent_over_lem :
      (signer : Signer) (is : List (Input n)) (s : Server)
      → s.state ≡ 0
      → s.contact ≡ c
      → s.group_data_msg ≡ request
      → s.challenge ≡ challenge
      → (length (sent_over n signer is s) ≤ 2)
        × (All Unproved is → length (sent_over n signer is s) ≤ 1)
        × (All Refused is → length (sent_over n signer is s) ≡ 0)
  sent_over_lem signer is s at_0 ec er eh = (
    omega (
      arith,
      ap from_start at_0,
      sent_over_budget from_start Anything refl (λ cb p t t' _ _. from_start_pays cb p t t') signer
          is s v (every is),
    ),
    (λ u. omega (
      arith,
      ap unproved at_0,
      sent_over_budget unproved Unproved refl unproved_pays signer is s v u,
    )),
    (λ u. omega (
      arith,
      ap refused at_0,
      sent_over_budget refused Refused refl refused_pays signer is s v u,
    )),
  )
    where
      v : Serves s
      v = record { contact = ec; request_eq = er; challenge_eq = eh }
