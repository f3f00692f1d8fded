-- ===== src/GroupContext/HashChange.antt =====
-- What a member does when the group's hash has changed.
use ipfs_share.Prelude.{
  ℕ, ◌<◌, ◌≡◌, refl, ◌∙◌, ap, List, Bytes, Option, none, some, ok, err, nat_eq, ==_iff, length,
}
use ipfs_share.Crypto.SecretBox.{IsSecretBox}
use ipfs_share.Crypto.SymmetricKey.{SymmetricKey, box_open, box_seal}
use ipfs_share.Collections.Map.{get}
use ipfs_share.Group.{Group, GroupError, set_boxer, group_meta}
use ipfs_share.Group as Groups
use ipfs_share.Group.Hash.{update_sealed, update_undecryptable}
use ipfs_share.Fs.Disk.{Disk}
use ipfs_share.Fs.Meta.{Address, GroupMeta}
use ipfs_share.Fs.External.{External, Codec, IsCodec}
use ipfs_share.Fs.Storage.{Storage}
use ipfs_share.Fs.Storage.Downloads.{Usable, save_group_meta_lem, group_meta_path}
use ipfs_share.Fs.Disk.Laws.{written}
use ipfs_share.Fs.Repo as Repos
use ipfs_share.Communication.Message.{Contact, Network}
use ipfs_share.GroupContext.{
  Eth, not_updated, GroupContext, save_group, repo_updated, saved, group_updated, fetched,
  contract_state, update,
}
use ipfs_share.GroupContext.Events.{with_key, on_ipfs_hash_changed}

module _ (x : External) (s : Storage) (eth : Eth) (codec : Codec GroupMeta) where
  -- Where the metadata file of the group can be written, saving the group writes them there.
  pub save_group_lem :
      (laws : IsCodec codec) (g : Group) (d : Disk)
      → Usable (group_meta_path x s g.address) d
      → (bs : Bytes) × (codec.unmarshal bs ≡ some (group_meta g))
        × (save_group x s eth codec g d ≡ (ok tt, written (group_meta_path x s g.address) bs d))
  unfolding save_group group_meta
  save_group_lem laws g d u = save_group_meta_lem x laws (group_meta g) s d u

  -- What the contract of the group returns.
  pub record Contract (name : Bytes) (members : List Address) (enc : Bytes) : Type 0 where
    pub has_name : eth.name ≡ some name
    pub has_members : eth.members ≡ some members
    pub has_hash : eth.ipfs_hash ≡ some enc

  contract_state_lem :
      (name : Bytes) (members : List Address) (enc : Bytes)
      → Contract name members enc
      → contract_state x s eth ≡ ok (name, members, enc)
  unfolding contract_state
  contract_state_lem name members enc c = rw (c.has_name, c.has_members, c.has_hash) refl

  update_lem :
      (ctx : GroupContext) (name : Bytes) (members : List Address) (enc : Bytes) (d : Disk)
      → Contract name members enc
      → update x s eth codec ctx d
        ≡ group_updated x s eth codec ctx (Groups.update x.box name members enc ctx.group) d
  unfolding update
  update_lem ctx name members enc d c =
      ap (λ r. fetched x s eth codec ctx r d) (contract_state_lem name members enc c)

  module _ (n : Network) (book : Address → Option Contact) (session_id : Address → ℕ) where
    on_known_key :
        (ctx : GroupContext) (proposer : Address) (key : SymmetricKey) (name : Bytes)
        (members : List Address) (enc : Bytes) (d : Disk)
        → get proposer ctx.proposed_keys ≡ some key
        → Contract name members enc
        → let g = set_boxer key ctx.group in
          on_ipfs_hash_changed n book session_id x s eth codec ctx.group.address proposer ctx d
          ≡ group_updated x s eth codec
              (record ctx { group = g })
              (Groups.update x.box name members enc g)
              d
    unfolding on_ipfs_hash_changed
    on_known_key ctx proposer key name members enc d has c =
        rw ((==_iff ctx.group.address ctx.group.address).1 refl) (
          ap (with_key n book session_id (update x s eth codec) ctx.group.address ctx d) has
          ∙ update_lem (record ctx { group = set_boxer key ctx.group }) name members enc d c)

    -- Under the laws of the box: where a member has the proposer's key, the contract's hash was
    -- sealed under it and a nonce of 24 bytes, and the group can be saved, a change of the hash
    -- gives the group that key, the contract's name and members and the hash, and updates the
    -- repository to that hash with that key.
    pub on_ipfs_hash_changed_lem :
        (laws : IsSecretBox x.box) (ctx : GroupContext) (proposer : Address) (key : SymmetricKey)
        (name nonce hash : Bytes) (members : List Address) (d d' : Disk)
        → get proposer ctx.proposed_keys ≡ some key
        → length nonce ≡ 24
        → let enc = box_seal x.box key nonce hash in
          let g = record (ctx.group) {
            boxer = key;
            name = name;
            members = members;
            ipfs_hash = hash;
            encrypted_ipfs_hash = enc;
          } in
          Contract name members enc
          → save_group x s eth codec g d ≡ (ok tt, d')
          → on_ipfs_hash_changed n book session_id x s eth codec ctx.group.address proposer ctx d
            ≡ repo_updated x s eth (record ctx { group = g }) (Repos.update x s g ctx.repo hash d')
    unfolding set_boxer
    on_ipfs_hash_changed_lem laws ctx proposer key name nonce hash members d d' has l c saves =
        on_known_key ctx proposer key name members (box_seal x.box key nonce hash) d has c
        ∙ ap (λ r. group_updated x s eth codec (record ctx { group = set_boxer key ctx.group }) r d)
            (update_sealed x.box laws name members nonce hash (set_boxer key ctx.group) l).0
        ∙ ap
            (saved x s eth (record ctx {
              group = record (ctx.group) {
                boxer = key;
                name = name;
                members = members;
                ipfs_hash = hash;
                encrypted_ipfs_hash = box_seal x.box key nonce hash;
              };
            }))
            saves

    -- Where the key that a member has for the proposer does not open the contract's hash, which is
    -- not empty, a change of the hash fails, with that key in place of the group's key and nothing
    -- else changed.
    pub on_ipfs_hash_changed_wrong_key :
        (ctx : GroupContext) (proposer : Address) (key : SymmetricKey) (name enc : Bytes)
        (members : List Address) (d : Disk)
        → get proposer ctx.proposed_keys ≡ some key
        → Contract name members enc
        → 0 < length enc
        → box_open x.box key enc ≡ none
        → on_ipfs_hash_changed n book session_id x s eth codec ctx.group.address proposer ctx d
          ≡ (err not_updated, record ctx { group = record (ctx.group) { boxer = key } }, d)
    unfolding set_boxer
    on_ipfs_hash_changed_wrong_key ctx proposer key name enc members d has c l shut =
        on_known_key ctx proposer key name members enc d has c
        ∙ ap (λ r. group_updated x s eth codec (record ctx { group = set_boxer key ctx.group }) r d)
            (update_undecryptable x.box name members enc (set_boxer key ctx.group) l shut)
