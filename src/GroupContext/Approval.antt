-- ===== src/GroupContext/Approval.antt =====
-- When a member approves a proposal.
use ipfs_share.Prelude.{
  ◌≡◌, ◌≢◌, ◌⊎◌, inl, inr, refl, sym, ◌∙◌, ap, [], ◌∷◌, ◌++◌, Bytes, Bool, true, false, Option,
  none, some, Result, ok, err, panic, or_fail, ◌>>=◌, if◌then◌else◌, nat_eq, ==_iff,
}
use ipfs_share.Crypto.SymmetricKey.{SymmetricKey, box_open}
use ipfs_share.Crypto.Signature.{Rsv, sig_to_rsv}
use ipfs_share.Collections.Map.{get, put}
use ipfs_share.Collections.Map.Laws.{get-put}
use ipfs_share.Fs.Disk.{Disk, FsError}
use ipfs_share.Fs.Meta.{Address}
use ipfs_share.Fs.External.{External}
use ipfs_share.Fs.Storage.{Storage}
use ipfs_share.Fs.Repo.{is_valid_change_set}
use ipfs_share.GroupContext.{
  Eth, Approve, approves, ContextError, no_payload, GroupContext, Handled, approve_consensus,
  no_consensus, no_instance, not_decrypted, no_digest, not_signed, not_split, not_sent,
}
use ipfs_share.GroupContext.Events.{
  instance_at, proposal, approved, validated, checked, on_get_proposed_key_success,
}

-- A chain of results that ends in a value went on from one.
result_inv :
    {E A B : Type 0} {b : B} (r : Result E A) (f : A → Result E B)
    → r >>= f ≡ ok b
    → (a : A) × (r ≡ ok a) × (f a ≡ ok b)
result_inv (ok a) f e = (a, refl, e)
result_inv (err _) f e = cc
result_inv panic f e = cc

or_fail_inv : {E A : Type 0} {a : A} (o : Option A) (e : E) → or_fail o e ≡ ok a → o ≡ some a
or_fail_inv none e q = cc
or_fail_inv (some a) e q = cc

ok_inv : {E A : Type 0} {a b : A} → ◌≡◌ {A = Result E A} (ok a) (ok b) → a ≡ b
ok_inv e = cc

module _ (x : External) (s : Storage) (eth : Eth) where
  -- What has been found when an approval is sent.
  pub record Approves (ctx : GroupContext) (proposer : Address) (boxer : SymmetricKey) (d d' : Disk)
      (tx : Approve) : Type 0 where
    pub payload : Bytes
    pub hash : Bytes
    pub digest : Bytes
    pub sig : Bytes
    pub stored : get proposer ctx.proposed_payloads ≡ some payload
    pub opens : box_open x.box boxer payload ≡ some hash
    pub valid : is_valid_change_set x s ctx.repo hash boxer proposer d ≡ (ok tt, d')
    pub current : eth.get_consensus proposer ≡ some tx.consensus
    pub digests : eth.digest tx.consensus ≡ some digest
    pub signs : eth.sign digest ≡ some sig
    pub splits : sig_to_rsv sig ≡ some tx.parts

  instance_inv : (a c : Address) → instance_at eth a ≡ ok c → a ≡ c
  instance_inv a c e = branch (eth.new_consensus a) e
    where
      branch : (b : Bool) → (if b then ok a else err no_instance) ≡ ok c → a ≡ c
      branch true q = cc
      branch false q = cc

  proposal_inv :
      (proposer : Address) (boxer : SymmetricKey) (ctx : GroupContext) (consensus : Address)
      (hash : Bytes)
      → proposal x s eth proposer boxer ctx ≡ ok (consensus, hash)
      → (payload : Bytes) × (get proposer ctx.proposed_payloads ≡ some payload)
        × (eth.get_consensus proposer ≡ some consensus)
        × (box_open x.box boxer payload ≡ some hash)
  unfolding proposal
  proposal_inv proposer boxer ctx consensus hash e =
      let (payload, found, e1) =
        result_inv (or_fail (get proposer ctx.proposed_payloads) no_payload) _ e in
      let (address, has, e2) =
        result_inv (or_fail (eth.get_consensus proposer) no_consensus) _ e1 in
      let (c, at, e3) = result_inv (instance_at eth address) _ e2 in
      let (h, opens, e4) = result_inv (or_fail (box_open x.box boxer payload) not_decrypted) _ e3 in
      let same = instance_inv address c at in
      let has' = or_fail_inv (eth.get_consensus proposer) no_consensus has in
      let opens' = or_fail_inv (box_open x.box boxer payload) not_decrypted opens in
      (
        payload,
        or_fail_inv (get proposer ctx.proposed_payloads) no_payload found,
        has' ∙ ap some (same ∙ (pair_inv c h e4).0),
        opens' ∙ ap some (pair_inv c h e4).1,
      )
    where
      pair_inv :
          (c : Address) (h : Bytes)
          → ◌≡◌ {A = Result ContextError (Address × Bytes)} (ok (c, h)) (ok (consensus, hash))
          → (c ≡ consensus) × (h ≡ hash)
      pair_inv c h q = (cc, cc)

  approve_consensus_inv :
      (consensus : Address) (tx : Approve)
      → approve_consensus eth consensus ≡ ok tx
      → (digest : Bytes) × (sig : Bytes) × (tx.consensus ≡ consensus)
        × (eth.digest consensus ≡ some digest)
        × (eth.sign digest ≡ some sig)
        × (sig_to_rsv sig ≡ some tx.parts)
  unfolding approve_consensus
  approve_consensus_inv consensus tx e =
      let (digest, e1, r1) = result_inv (or_fail (eth.digest consensus) no_digest) _ e in
      let (sig, e2, r2) = result_inv (or_fail (eth.sign digest) not_signed) _ r1 in
      let (parts, e3, r3) = result_inv (or_fail (sig_to_rsv sig) not_split) _ r2 in
      let (a, b) = sending parts (eth.accepts consensus parts) r3 in
      (
        digest,
        sig,
        a,
        or_fail_inv (eth.digest consensus) no_digest e1,
        or_fail_inv (eth.sign digest) not_signed e2,
        or_fail_inv (sig_to_rsv sig) not_split e3 ∙ ap some (sym b),
      )
    where
      sending :
          (parts : Rsv) (accepted : Bool)
          → (if accepted
              then ok (record { consensus = consensus; parts = parts })
              else err not_sent)
            ≡ ok tx
          → (tx.consensus ≡ consensus) × (tx.parts ≡ parts)
      sending parts true q =
          let same = ok_inv q in
          (ap (λ (t : Approve). t.consensus) (sym same), ap (λ (t : Approve). t.parts) (sym same))
      sending parts false q = cc

  -- What a handler may have done to the transactions and to the stored payload of the proposer.
  abbrev pub Outcome : GroupContext → Address → SymmetricKey → Disk → Handled → Type 0
  Outcome ctx proposer boxer d (r, ctx', d') =
      ((r ≡ ok tt)
        × ((tx : Approve) × Approves ctx proposer boxer d d' tx
            × (ctx'.transactions ≡ ctx.transactions ++ approves tx ∷ [])
            × (get proposer ctx'.proposed_payloads ≡ none)))
      ⊎ ((r ≢ ok tt)
          × (ctx'.transactions ≡ ctx.transactions)
          × (ctx'.proposed_payloads ≡ ctx.proposed_payloads))

  module _ (ctx : GroupContext) (proposer : Address) (boxer : SymmetricKey) (d : Disk) where
    given_key : GroupContext
    given_key = record ctx { proposed_keys = put proposer (some boxer) ctx.proposed_keys }

    approved-Outcome :
        (consensus : Address) (hash : Bytes) (d' : Disk) (r : Result ContextError Approve)
        → proposal x s eth proposer boxer given_key ≡ ok (consensus, hash)
        → is_valid_change_set x s ctx.repo hash boxer proposer d ≡ (ok tt, d')
        → approve_consensus eth consensus ≡ r
        → Outcome ctx proposer boxer d (approved x s eth proposer given_key r d')
    unfolding given_key
    approved-Outcome consensus hash d' (ok tx) p v a =
        let (payload, stored, current, opens) =
          proposal_inv proposer boxer given_key consensus hash p in
        let (digest, sig, same, digests, signs, splits) = approve_consensus_inv consensus tx a in
        inl (
          refl,
          (
            tx,
            record {
              payload = payload;
              hash = hash;
              digest = digest;
              sig = sig;
              stored = stored;
              opens = opens;
              valid = v;
              current = current ∙ ap some (sym same);
              digests = ap eth.digest same ∙ digests;
              signs = signs;
              splits = splits;
            },
            refl,
            get-put proposer proposer none ctx.proposed_payloads
                ∙ rw ((==_iff proposer proposer).1 refl) refl,
          ),
        )
    approved-Outcome consensus hash d' (err e) p v a = inr ((λ q. cc), refl, refl)
    approved-Outcome consensus hash d' panic p v a = inr ((λ q. cc), refl, refl)

    validated-Outcome :
        (consensus : Address) (hash : Bytes) (r : Result FsError (Unit {0}) × Disk)
        → proposal x s eth proposer boxer given_key ≡ ok (consensus, hash)
        → is_valid_change_set x s ctx.repo hash boxer proposer d ≡ r
        → Outcome ctx proposer boxer d (validated x s eth proposer consensus given_key r)
    unfolding given_key
    validated-Outcome consensus hash (ok u, d') p v =
        approved-Outcome consensus hash d' (approve_consensus eth consensus) p v refl
    validated-Outcome consensus hash (err e, d') p v = inr ((λ q. cc), refl, refl)
    validated-Outcome consensus hash (panic, d') p v = inr ((λ q. cc), refl, refl)

    checked-Outcome :
        (r : Result ContextError (Address × Bytes))
        → proposal x s eth proposer boxer given_key ≡ r
        → Outcome ctx proposer boxer d (checked x s eth proposer boxer given_key r d)
    unfolding given_key
    checked-Outcome (ok (consensus, hash)) p =
        validated-Outcome consensus hash (is_valid_change_set x s ctx.repo hash boxer proposer d) p
          refl
    checked-Outcome (err e) p = inr ((λ q. cc), refl, refl)
    checked-Outcome panic p = inr ((λ q. cc), refl, refl)

  -- When the key for a proposal arrives, a member either approves, and then only a proposal whose
  -- stored payload opens under the key to a hash that IsValidChangeSet accepts for the proposer,
  -- with its signature of the digest of the consensus that the proposer has at that time, one
  -- approval being added and the payload forgotten; or it adds no transaction and keeps the
  -- payloads.
  pub on_get_proposed_key_success-Outcome :
      (ctx : GroupContext) (proposer : Address) (boxer : SymmetricKey) (d : Disk)
      → Outcome ctx proposer boxer d (on_get_proposed_key_success x s eth proposer boxer ctx d)
  unfolding on_get_proposed_key_success given_key
  on_get_proposed_key_success-Outcome ctx proposer boxer d =
      checked-Outcome ctx proposer boxer d
        (proposal x s eth proposer boxer (given_key ctx proposer boxer d)) refl
