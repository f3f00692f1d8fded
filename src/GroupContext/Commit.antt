-- ===== src/GroupContext/Commit.antt =====
-- `CommitChanges`, `Leave` and `Invite` of client/groupcontext.go: what a member sends to the contract.
use ipfs_share.Prelude.{
  ◌≡◌, refl, sym, ◌∙◌, ap, List, [], ◌∷◌, ◌++◌, Bytes, Bool, true, false, Option, none, some,
  Result, ok, err, panic, length, nat_eq, ==_refl,
}
use ipfs_share.Crypto.SymmetricKey.{SymmetricKey, box_seal, box_open}
use ipfs_share.Crypto.SymmetricKey.RoundTrip.{box_open-box_seal}
use ipfs_share.Collections.Map.{get, put}
use ipfs_share.Collections.Map.Laws.{get-put}
use ipfs_share.Fs.Disk.{Disk}
use ipfs_share.Fs.Meta.{Address, FileMeta}
use ipfs_share.Fs.External.{External, IsExternal}
use ipfs_share.Fs.Storage.{Storage}
use ipfs_share.Fs.Storage.Downloads.{Usable}
use ipfs_share.Fs.Repo.{GroupRepo, get_group_file_metas_from_ipfs}
use ipfs_share.Fs.Repo.Commit.{Draws, PendingResult, entries, get_pending_changes}
use ipfs_share.Fs.Repo.Commit.Committed.{load-commit_changes}
use ipfs_share.Fs.Repo.Commit as Repos
use ipfs_share.GroupContext.{
  Eth, ContextError, no_random, not_sent, not_committed, Transaction, changes_ipfs_hash, leaves,
  invites, GroupContext, Handled,
}

-- Sends a transaction and keeps it, where it can be sent.
abbrev pub send : Bool → Transaction → GroupContext → Result ContextError (Unit {0}) × GroupContext
send true tx ctx = (ok tt, record ctx { transactions = ctx.transactions ++ tx ∷ [] })
send false tx ctx = (err not_sent, ctx)

-- `Leave`.
abbrev pub leave : Eth → GroupContext → Result ContextError (Unit {0}) × GroupContext
leave eth ctx = send eth.takes_leave leaves ctx

-- `Invite`; the source does not use its second argument.
abbrev pub invite :
    Eth → Address → Bool → GroupContext → Result ContextError (Unit {0}) × GroupContext
invite eth new_member has_invite_right ctx =
    send (eth.takes_invite new_member) (invites new_member) ctx

module _ (x : External) (s : Storage) (eth : Eth) where
  abbrev sent : Disk → Result ContextError (Unit {0}) × GroupContext → Handled
  sent d (r, ctx) = (r, ctx, d)

  -- The part of `CommitChanges` after the commit of the repository.
  abbrev pub committed : SymmetricKey → Bytes → GroupContext → PendingResult Bytes → Handled
  committed new_key nonce ctx (ok hash, repo, d) =
      let enc_ipfs_hash = box_seal x.box new_key nonce hash in
      sent d (
        send (eth.takes_hash enc_ipfs_hash) (changes_ipfs_hash enc_ipfs_hash)
          (record ctx { repo = repo }))
  committed new_key nonce ctx (err e, repo, d) =
      (err (not_committed e), record ctx { repo = repo }, d)
  committed new_key nonce ctx (panic, repo, d) = (panic, record ctx { repo = repo }, d)

  -- `CommitChanges`, with the key and the nonces of the two boxes that `rand` gives, and what it gives
  -- for the files in the group's directory.
  unfoldable pub commit_changes :
      Option Bytes → Bytes → Bytes → Draws → GroupContext → Disk → Handled
  commit_changes none nonce nonce' draws ctx d = (err no_random, ctx, d)
  commit_changes (some key) nonce nonce' draws ctx d =
      let new_key : SymmetricKey = record { key = key } in
      committed new_key nonce'
        (record ctx { proposed_keys = put ctx.account (some new_key) ctx.proposed_keys })
        (Repos.commit_changes x s ctx.group new_key nonce draws ctx.repo d)

  -- A proposal that was sent: the contract has the hash sealed under the new key, and a member who has
  -- the key, the storage `theirs` and the disk `d2` loads the changes `ms`.
  pub record Proposes (ctx ctx' : GroupContext) (key : Bytes) (ms : List FileMeta)
      (theirs : Storage) (d2 : Disk) (hash : Bytes) : Type 0 where
    pub enc_ipfs_hash : Bytes
    pub sends : ctx'.transactions ≡ ctx.transactions ++ changes_ipfs_hash enc_ipfs_hash ∷ []
    pub opens : box_open x.box (record { key = key }) enc_ipfs_hash ≡ some hash
    pub d3 : Disk
    pub loads :
        get_group_file_metas_from_ipfs x theirs hash (record { key = key }) d2
        ≡ (ok (entries ms), d3)

  send_inv :
      (b : Bool) (tx : Transaction) (ctx ctx' : GroupContext) (d d' : Disk)
      → sent d (send b tx ctx) ≡ (ok tt, ctx', d')
      → (ctx'.transactions ≡ ctx.transactions ++ tx ∷ [])
        × (ctx'.repo ≡ ctx.repo)
        × (ctx'.proposed_keys ≡ ctx.proposed_keys)
        × (d ≡ d')
  send_inv true tx ctx ctx' d d' e = (
    ap (λ (h : Handled). h.1.transactions) (sym e),
    ap (λ (h : Handled). h.1.repo) (sym e),
    ap (λ (h : Handled). h.1.proposed_keys) (sym e),
    ap (λ (h : Handled). h.2) e,
  )
  send_inv false tx ctx ctx' d d' e = cc

  pub committed_inv :
      (key : SymmetricKey) (nonce : Bytes) (ctx ctx' : GroupContext) (d' : Disk)
      (r : PendingResult Bytes)
      → committed key nonce ctx r ≡ (ok tt, ctx', d')
      → (hash : Bytes) × (r ≡ (ok hash, ctx'.repo, d'))
        × (ctx'.transactions
            ≡ ctx.transactions ++ changes_ipfs_hash (box_seal x.box key nonce hash) ∷ [])
        × (ctx'.proposed_keys ≡ ctx.proposed_keys)
  committed_inv key nonce ctx ctx' d' (ok hash, repo, d) e =
      let enc = box_seal x.box key nonce hash in
      let (txs, same, keys, disk) =
        send_inv (eth.takes_hash enc) (changes_ipfs_hash enc) (record ctx { repo = repo }) ctx' d d'
          e in
      (
        hash,
        ap (λ (q : GroupRepo). (ok hash, q, d)) (sym same) ∙ ap (λ t. (ok hash, ctx'.repo, t)) disk,
        txs,
        keys,
      )
  committed_inv key nonce ctx ctx' d' (err f, repo, d) e = cc
  committed_inv key nonce ctx ctx' d' (panic, repo, d) e = cc

  -- Under the laws of the box, the codecs and IPFS: a successful CommitChanges with two nonces of
  -- 24 bytes keeps the new key under the account's own address and adds one transaction, whose
  -- hash opens under the new key to a hash under which a member with the new key, on a disk where
  -- every path can be written, loads the pending changes of the files in the group's directory, in
  -- order.
  pub commit_changes-Proposes :
      (laws : IsExternal x) (key nonce nonce' : Bytes) (draws : Draws) (ctx ctx' : GroupContext)
      (d d' : Disk) (theirs : Storage) (d2 : Disk)
      → length nonce ≡ 24
      → length nonce' ≡ 24
      → commit_changes (some key) nonce nonce' draws ctx d ≡ (ok tt, ctx', d')
      → ((p : Bytes) → Usable p d2)
      → (hash : Bytes) × (ms : List FileMeta) × (d1 : Disk) × (get_pending_changes x s ctx.group
            draws ctx.repo d
          ≡ (ok ms, ctx'.repo, d1))
        × (get ctx.account ctx'.proposed_keys ≡ some (record { key = key }))
        × Proposes ctx ctx' key ms theirs d2 hash
  unfolding commit_changes
  commit_changes-Proposes laws key nonce nonce' draws ctx ctx' d d' theirs d2 l l' e u =
      let new_key : SymmetricKey = record { key = key } in
      let keys = put ctx.account (some new_key) ctx.proposed_keys in
      let r = Repos.commit_changes x s ctx.group new_key nonce draws ctx.repo d in
      let (hash, commits, txs, same) =
        committed_inv new_key nonce' (record ctx { proposed_keys = keys }) ctx' d' r e in
      let (ms, d1, pending, d3, loads) =
        load-commit_changes x s ctx.group laws new_key nonce hash draws ctx.repo ctx'.repo d d'
          commits l theirs d2 (u (theirs.tmp_path ++ hash)) in
      (
        hash,
        ms,
        d1,
        pending,
        ap (λ m. get ctx.account m) same
            ∙ get-put ctx.account ctx.account (some new_key) ctx.proposed_keys
            ∙ rw (==_refl ctx.account) refl,
        record {
          enc_ipfs_hash = box_seal x.box new_key nonce' hash;
          sends = txs;
          opens = box_open-box_seal x.box laws.box_laws new_key nonce' hash l';
          d3 = d3;
          loads = loads;
        },
      )
