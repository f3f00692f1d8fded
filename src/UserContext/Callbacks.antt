-- ===== src/UserContext/Callbacks.antt =====
-- What the sessions of a user give away: the user context is their callback.
use ipfs_share.Prelude.{
  ℕ, zero, suc, ◌≡◌, refl, sym, ◌∙◌, ap, ◌⊎◌, inl, inr, Bytes, Bool, true, false, not, Option, none,
  some, Result, ok, err, panic, or_fail, fail_if, ◌>>=◌, contains, Bool-cases, nat_eq,
}
use ipfs_share.Collections.Map.{get}
use ipfs_share.Group as Groups
use ipfs_share.Fs.Meta.{Address}
use ipfs_share.Communication.Message.{
  Network, Signer, SessionError, Packet, get_group_key, send_message, verify_signature, no_boxer,
  not_encoded,
}
use ipfs_share.Communication.Server.{
  Server, next_state, step, send_challenge, send_key, after_send, key_for, requested_key,
  encoded_boxer, end_of_session,
}
use ipfs_share.GroupContext.{GroupContext}
use ipfs_share.UserContext.{
  UserContext, is_member, get_boxer_of_group, callback_of, succeeds, value_of, no_group,
  not_a_member,
}

-- The context of a group whose member the account is.
pub record HasMember (u : UserContext) (group account : Address) : Type 0 where
  pub ctx : GroupContext
  pub found : get group u.groups ≡ some ctx
  pub member : contains account ctx.group.members ≡ true

-- `IsMember` returns no error exactly for the members of the groups that the user has.
is_member-HasMember :
    (u : UserContext) (group account : Address)
    → (callback_of u).is_member group account ≡ true
    → HasMember u group account
unfolding callback_of is_member Groups.is_member
is_member-HasMember u group account h = by_context (get group u.groups) refl h
  where
    by_test :
        (ctx : GroupContext) (b : Bool) → succeeds (fail_if (not b) not_a_member) ≡ true → b ≡ true
    by_test ctx true e = refl
    by_test ctx false e = cc

    by_context :
        (o : Option GroupContext)
        → get group u.groups ≡ o
        → succeeds (
            or_fail o no_group >>= λ ctx.
            fail_if (not (Groups.is_member account ctx.group)) not_a_member)
          ≡ true
        → HasMember u group account
    by_context none e q = cc
    by_context (some ctx) e q = record {
      ctx = ctx;
      found = e;
      member = by_test ctx (Groups.is_member account ctx.group) q;
    }

-- The context whose key the sessions of a group give away.
pub record HasKey (n : Network) (u : UserContext) (group : Address) (key : Bytes) : Type 0 where
  pub ctx : GroupContext
  pub found : get group u.groups ≡ some ctx
  pub encoded : n.key_codec.marshal ctx.group.boxer ≡ some key

requested_key-HasKey :
    (n : Network) (u : UserContext) (group : Address) (payload key : Bytes)
    → requested_key n (callback_of u) group payload get_group_key ≡ ok key
    → HasKey n u group key
unfolding requested_key callback_of get_boxer_of_group
requested_key-HasKey n u group payload key h = by_context (get group u.groups) refl h
  where
    by_code : (o : Option Bytes) → or_fail o not_encoded ≡ ok key → o ≡ some key
    by_code none q = cc
    by_code (some k) q = cc

    by_context :
        (o : Option GroupContext)
        → get group u.groups ≡ o
        → encoded_boxer n no_boxer (value_of (or_fail o no_group >>= λ ctx. ok ctx.group.boxer))
          ≡ ok key
        → HasKey n u group key
    by_context none e q = cc
    by_context (some ctx) e q = record {
      ctx = ctx;
      found = e;
      encoded = by_code (n.key_codec.marshal ctx.group.boxer) q;
    }

module _ (n : Network) (signer : Signer) where
  after_send_inv :
      (next : ℕ) (s s' : Server) (p : Packet n) (r : Result SessionError (Packet n))
      → after_send n next s r ≡ (s', some p)
      → (r ≡ ok p) × (s'.state ≡ next)
  after_send_inv next s s' p (ok q) e =
      (cc, ap (λ (t : Server × Option (Packet n)). t.0.state) (sym e))
  after_send_inv next s s' p (err f) e = cc
  after_send_inv next s s' p panic e = cc

  bind_inv :
      (s : Server) (p : Packet n) (r : Result SessionError Bytes)
      → (r >>= λ key. send_message n s.sender s.session_id key signer s.contact) ≡ ok p
      → (key : Bytes) × (r ≡ ok key)
        × (send_message n s.sender s.session_id key signer s.contact ≡ ok p)
  bind_inv s p (ok key) e = (key, refl, e)
  bind_inv s p (err f) e = cc
  bind_inv s p panic e = cc

  -- What a server session sends for a key of a group, and to whom.
  abbrev pub Serves : UserContext → Bytes → Server → Packet n → Type 0
  Serves u payload s p =
      ((s.state ≡ 0) × HasMember u s.group_data_msg.group s.contact.account_address)
      ⊎ ((s.state ≡ 1)
          × (verify_signature n s.contact s.challenge payload ≡ true)
          × (key : Bytes) × HasKey n u s.group_data_msg.group key
          × (send_message n s.sender s.session_id key signer s.contact ≡ ok p))

  challenge-Serves :
      (u : UserContext) (payload : Bytes) (s s' : Server) (p : Packet n)
      → s.state ≡ 0
      → send_challenge n (callback_of u) signer s ≡ (s', some p)
      → Serves u payload s p
  unfolding send_challenge
  challenge-Serves u payload s s' p at_0 e =
      elim (Bool-cases
        ((callback_of u).is_member s.group_data_msg.group s.contact.account_address)) [
          | inl yes_member ↦ inl (
            at_0,
            is_member-HasMember u s.group_data_msg.group s.contact.account_address yes_member,
          )
          | inr no_member ↦ let q = rw no_member at e in cc
        ]

  key-Serves :
      (u : UserContext) (payload : Bytes) (s s' : Server) (p : Packet n)
      → s.state ≡ 1
      → s.group_data_msg.requested ≡ get_group_key
      → send_key n (callback_of u) signer payload s ≡ (s', some p)
      → Serves u payload s p
  unfolding send_key
  key-Serves u payload s s' p at_1 asks e =
      elim (Bool-cases (verify_signature n s.contact s.challenge payload)) [
        | inl verified ↦
            let (sends, _) = after_send_inv end_of_session s s' p _ (rw verified at e) in
            let (key, granted, message) =
              bind_inv s p (key_for n (callback_of u) s.group_data_msg) sends in
            inr (
              at_1,
              verified,
              key,
              requested_key-HasKey n u s.group_data_msg.group s.group_data_msg.payload key (
                  ap
                    (requested_key n (callback_of u) s.group_data_msg.group
                      s.group_data_msg.payload)
                    (sym asks)
                  ∙ granted),
              message,
            )
        | inr wrong ↦ let q = rw wrong at e in cc
      ]

  -- What a server session for the key of a group sends, with a user context as its callback, is
  -- sent either in state 0, and then the user has a context of the session's group with the
  -- contact among its members; or in state 1, on a payload that verifies as the contact's
  -- signature of the challenge, and then it is the message of the encoded key of the context that
  -- the user has for that group.
  pub next_state-Serves :
      (u : UserContext) (payload : Bytes) (s s' : Server) (p : Packet n)
      → s.group_data_msg.requested ≡ get_group_key
      → next_state n (callback_of u) signer payload s ≡ (s', some p)
      → Serves u payload s p
  unfolding next_state
  next_state-Serves u payload s s' p asks e = by_state s.state refl e
    where
      by_state :
          (k : ℕ)
          → s.state ≡ k
          → step n (callback_of u) signer payload s k ≡ (s', some p)
          → Serves u payload s p
      by_state zero at_0 q = challenge-Serves u payload s s' p at_0 q
      by_state (suc zero) at_1 q = key-Serves u payload s s' p at_1 asks q
      by_state (suc (suc k)) later q = cc
