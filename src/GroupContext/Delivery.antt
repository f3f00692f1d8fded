-- ===== src/GroupContext/Delivery.antt =====
-- From `CommitChanges` of one member to `onIpfsHashChanged` of another.
use ipfs_share.Prelude.{
  ℕ, ◌≡◌, sym, subst, ◌∙◌, List, [], ◌∷◌, ◌++◌, Bytes, Option, some, ok, length, nat_eq,
}
use ipfs_share.Crypto.SymmetricKey.{SymmetricKey, box_seal}
use ipfs_share.Collections.Map.{get, put}
use ipfs_share.Group.{Group}
use ipfs_share.Fs.Disk.{Disk}
use ipfs_share.Fs.Disk.Laws.{written}
use ipfs_share.Fs.Meta.{Address, FileMeta, GroupMeta}
use ipfs_share.Fs.External.{External, IsExternal, Codec, IsCodec}
use ipfs_share.Fs.Storage.{Storage}
use ipfs_share.Fs.Storage.Downloads.{Usable, group_meta_path}
use ipfs_share.Fs.Repo.{get_group_file_metas_from_ipfs}
use ipfs_share.Fs.Repo as Updates
use ipfs_share.Fs.Repo.Commit as Repos
use ipfs_share.Fs.Repo.Commit.Committed.{load-commit_changes}
use ipfs_share.Fs.Repo.Commit.{Draws, entries, get_pending_changes}
use ipfs_share.Communication.Message.{Contact, Network}
use ipfs_share.GroupContext.{Eth, GroupContext, changes_ipfs_hash, repo_updated}
use ipfs_share.GroupContext.Commit.{commit_changes, committed_inv}
use ipfs_share.GroupContext.Events.{on_ipfs_hash_changed}
use ipfs_share.GroupContext.HashChange.{Contract, save_group_lem, on_ipfs_hash_changed_lem}

cons_inj : {A : Type 0} {a b : A} {l m : List A} → a ∷ l ≡ b ∷ m → (a ≡ b) × (l ≡ m)
cons_inj e = (cc, cc)

last_inj : {A : Type 0} (l : List A) (a b : A) → l ++ a ∷ [] ≡ l ++ b ∷ [] → a ≡ b
last_inj [] a b e = (cons_inj e).0
last_inj (c ∷ l) a b e = last_inj l a b (cons_inj e).1

same_hash : (a b : Bytes) → changes_ipfs_hash a ≡ changes_ipfs_hash b → a ≡ b
same_hash a b e = cc

module _ (x : External) (laws : IsExternal x) (codec : Codec GroupMeta) (codec_laws : IsCodec codec)
    (n : Network) (book : Address → Option Contact) (session_id : Address → ℕ) where
  -- Under the laws of the box, the codecs and IPFS: where a CommitChanges with two nonces of 24
  -- bytes has succeeded and added one change of the hash to the transactions, the contract has the
  -- hash of that change, a name and members, and another member has the new key for the committing
  -- account and a disk where every path can be written: when the hash changes, that member takes
  -- over the key, the name, the members and the hash, and updates the repository to a hash under
  -- which it loads, with that key, the pending changes of the files in the directory of the
  -- committing member, in order.
  pub commit_changes-on_ipfs_hash_changed :
      (s s2 : Storage) (eth eth2 : Eth) (key nonce nonce' name enc : Bytes) (draws : Draws)
      (members : List Address) (ctx ctx' theirs : GroupContext) (d d' d2 : Disk)
      → length nonce ≡ 24
      → length nonce' ≡ 24
      → commit_changes x s eth (some key) nonce nonce' draws ctx d ≡ (ok tt, ctx', d')
      → ctx'.transactions ≡ ctx.transactions ++ changes_ipfs_hash enc ∷ []
      → get ctx.account theirs.proposed_keys ≡ some (record { key = key })
      → Contract x s2 eth2 codec name members enc
      → ((p : Bytes) → Usable p d2)
      → (hash : Bytes) × (ms : List FileMeta) × (d1 : Disk) × (d3 : Disk) × (d4 : Disk)
        × (get_pending_changes x s ctx.group draws ctx.repo d ≡ (ok ms, ctx'.repo, d1))
        × (let g = record (theirs.group) {
          boxer = record { key = key };
          name = name;
          members = members;
          ipfs_hash = hash;
          encrypted_ipfs_hash = enc;
        } in
            on_ipfs_hash_changed n book session_id x s2 eth2 codec theirs.group.address ctx.account
              theirs d2
            ≡ repo_updated x s2 eth2
                (record theirs { group = g })
                (Updates.update x s2 g theirs.repo hash d3))
        × (get_group_file_metas_from_ipfs x s2 hash (record { key = key }) d3
            ≡ (ok (entries ms), d4))
  unfolding commit_changes
  commit_changes-on_ipfs_hash_changed s s2 eth eth2 key nonce nonce' name enc draws members ctx ctx'
        theirs d d' d2 l l' commits sends has contract usable =
      let boxer : SymmetricKey = record { key = key } in
      let path = group_meta_path x s2 theirs.group.address in
      let asked : GroupContext = record ctx {
        proposed_keys = put ctx.account (some boxer) ctx.proposed_keys;
      } in
      let (hash, committed, txs, _) =
        committed_inv x s eth boxer nonce' asked ctx' d'
          (Repos.commit_changes x s ctx.group boxer nonce draws ctx.repo d) commits in
      let sealed : box_seal x.box boxer nonce' hash ≡ enc =
        same_hash _ _ (last_inj ctx.transactions _ _ (sym txs ∙ sends)) in
      let g : Group = record (theirs.group) {
        boxer = boxer;
        name = name;
        members = members;
        ipfs_hash = hash;
        encrypted_ipfs_hash = box_seal x.box boxer nonce' hash;
      } in
      let (bs, _, saves) = save_group_lem x s2 eth2 codec codec_laws g d2 (usable path) in
      let (ms, d1, pending, d4, loads) =
        load-commit_changes x s ctx.group laws boxer nonce hash draws ctx.repo ctx'.repo d d'
          committed l s2 (written path bs d2) (kept path bs (s2.tmp_path ++ hash)) in
      (
        hash,
        ms,
        d1,
        written path bs d2,
        d4,
        pending,
        subst
            (λ e.
              let h = record (theirs.group) {
                boxer = boxer;
                name = name;
                members = members;
                ipfs_hash = hash;
                encrypted_ipfs_hash = e;
              } in
              on_ipfs_hash_changed n book session_id x s2 eth2 codec theirs.group.address
                ctx.account theirs d2
              ≡ repo_updated x s2 eth2 (record theirs { group = h })
                  (Updates.update x s2 h theirs.repo hash (written path bs d2)))
            sealed
            (on_ipfs_hash_changed_lem x s2 eth2 codec n book session_id laws.box_laws theirs
              ctx.account boxer name nonce' hash members d2 (written path bs d2) has l'
              (subst (Contract x s2 eth2 codec name members) (sym sealed) contract) saves),
        loads,
      )
    where
      kept : (path bs p : Bytes) → Usable p (written path bs d2)
      kept path bs p = record { creatable = (usable p).creatable; writable = (usable p).writable }
