-- ===== src/Tests/ContextTests.antt =====
-- The theorems on client/groupcontext.go and client/groupevents.go at concrete inputs.
use ipfs_share.Prelude.{
  bytes_equal, ◌≡◌, refl, ap, [], ◌∷◌, ◌++◌, Bytes, true, none, some, ok, err, List, arith, nat_eq,
}
use ipfs_share.Crypto.SymmetricKey.{SymmetricKey, box_seal, box_open}
use ipfs_share.Collections.Map.{get, put, new_concurrent_map}
use ipfs_share.Fs.Disk.{Disk}
use ipfs_share.Fs.Meta.{GroupMeta, FileMeta}
use ipfs_share.Fs.Repo as Repos
use ipfs_share.Communication.Manager.{new_p2p_manager, client_session}
use ipfs_share.GroupContext.{Eth, GroupContext, changes_ipfs_hash, not_updated, repo_updated}
use ipfs_share.GroupContext.Events.{
  on_new_consensus, on_get_proposed_key_success, on_ipfs_hash_changed,
}
use ipfs_share.GroupContext.Proposals.{on_new_consensus_lem}
use ipfs_share.Communication.Message.{get_proposed_group_key}
use ipfs_share.Communication.Client.{new_client}
use ipfs_share.GroupContext.Approval.{Outcome, on_get_proposed_key_success-Outcome}
use ipfs_share.GroupContext.HashChange.{Contract, on_ipfs_hash_changed_wrong_key}
use ipfs_share.Fs.Repo.Commit.{get_pending_changes, entries}
use ipfs_share.GroupContext.Delivery.{commit_changes-on_ipfs_hash_changed}
use ipfs_share.Fs.Repo.{get_group_file_metas_from_ipfs}
use ipfs_share.GroupContext.Commit as Contexts
use ipfs_share.GroupContext.Commit.{commit_changes, Proposes, commit_changes-Proposes}
use ipfs_share.Tests.Wire.{Wire, nat, bytes, via, pair, codec, codec-IsCodec}
use ipfs_share.Tests.World.{world, world-IsExternal}
use ipfs_share.Tests.CryptoTests.{nonce24, signature}
use ipfs_share.Tests.StateTests.{disk1, group1}
use ipfs_share.Tests.FsTests.{storage1, disk2, usable}
use ipfs_share.Tests.RepoTests.{repo1, hash1, repo2, draws1, round_ab, committed}
use ipfs_share.Tests.Peers.{network, book, bob}

abbrev pub group_wire : Wire GroupMeta
group_wire =
    via (λ m. (m.address, m.boxer.key))
      (λ (a, k). record { address = a; boxer = record { key = k } }) (λ m. refl) (pair nat bytes)

abbrev new_key : SymmetricKey
new_key = record { key = 8 ∷ [] }

abbrev other_key : SymmetricKey
other_key = record { key = 4 ∷ [] }

abbrev new_box : Bytes
new_box = box_seal world.box new_key nonce24 (b'R' ∷ [])

abbrev pub eth : Eth
eth = record {
  new_consensus = λ a. true;
  members_that_approved = λ a. some [];
  proposer = λ a. some 12;
  payload = λ a. some [];
  digest = λ a. some (1 ∷ []);
  get_consensus = λ a. some 300;
  name = some (b'g' ∷ []);
  members = some (11 ∷ 12 ∷ []);
  ipfs_hash = some new_box;
  sign = λ d. some signature;
  accepts = λ a p. true;
  takes_hash = λ h. true;
  takes_leave = true;
  takes_invite = λ a. true;
}

abbrev pub context1 : GroupContext
context1 = record {
  account = 11;
  group = group1;
  p2p = new_p2p_manager 11;
  repo = repo1;
  connection = none;
  transactions = [];
  proposed_keys = record { entries = (12, some new_key) ∷ (13, some other_key) ∷ [] };
  proposed_payloads = record {
    entries = (12, some (box_seal world.box group1.boxer nonce24 hash1)) ∷ [];
  };
}

on_get_proposed_key_success-Outcome_example :
    Outcome world storage1 eth context1 12 group1.boxer disk1
      (on_get_proposed_key_success world storage1 eth 12 group1.boxer context1 disk1)
on_get_proposed_key_success-Outcome_example =
    on_get_proposed_key_success-Outcome world storage1 eth context1 12 group1.boxer disk1

contract : Contract world storage1 eth (codec group_wire) (b'g' ∷ []) (11 ∷ 12 ∷ []) new_box
contract = record { has_name = refl; has_members = refl; has_hash = refl }

-- Account 13's key is not the one of the new hash.
wrong_key : box_open world.box other_key new_box ≡ none
unfolding box_open box_seal bytes_equal
wrong_key = refl

on_ipfs_hash_changed_wrong_key_example :
    on_ipfs_hash_changed network book
      (λ a. a)
      world
      storage1
      eth
      (codec group_wire)
      100
      13
      context1
      disk1
    ≡ (err not_updated, record context1 { group = record group1 { boxer = other_key } }, disk1)
unfolding get box_seal
on_ipfs_hash_changed_wrong_key_example =
    on_ipfs_hash_changed_wrong_key world storage1 eth (codec group_wire) network book (λ a. a)
      context1 13 other_key (b'g' ∷ []) new_box (11 ∷ 12 ∷ []) disk1 refl contract (omega arith)
      wrong_key

on_new_consensus_lem_example :
    let ctx = on_new_consensus network book (λ a. a) eth 300 100 context1 in
    (get 12 ctx.proposed_payloads ≡ some [])
    × (ctx.p2p.objects
        ≡ context1.p2p.objects
          ++ client_session (new_client get_proposed_group_key 100 (12 ∷ []) bob 11 12) ∷ [])
on_new_consensus_lem_example =
    on_new_consensus_lem network book (λ a. a) eth 300 100 12 [] [] context1 refl refl refl refl
      refl

-- Account 11 proposes its change.
abbrev context2 : GroupContext
context2 = record context1 {
  repo = repo2;
  transactions = changes_ipfs_hash (box_seal world.box new_key nonce24 (committed new_key).0) ∷ [];
  proposed_keys = put 11 (some new_key) context1.proposed_keys;
}

proposed :
    commit_changes world storage1 eth (some (8 ∷ [])) nonce24 nonce24 draws1 context1 disk2
    ≡ (ok tt, context2, round_ab.0)
unfolding commit_changes
proposed =
    ap
      (Contexts.committed world storage1 eth new_key nonce24
        (record context1 { proposed_keys = put 11 (some new_key) context1.proposed_keys }))
      (committed new_key).1

commit_changes-Proposes_example :
    (hash : Bytes) × (ms : List FileMeta) × (d1 : Disk) × (get_pending_changes world storage1 group1
        draws1 repo1 disk2
      ≡ (ok ms, repo2, d1))
    × (get 11 context2.proposed_keys ≡ some (record { key = 8 ∷ [] }))
    × Proposes world storage1 eth context1 context2 (8 ∷ []) ms storage1 disk2 hash
commit_changes-Proposes_example =
    commit_changes-Proposes world storage1 eth world-IsExternal (8 ∷ []) nonce24 nonce24 draws1
      context1 context2 disk2 round_ab.0 storage1 disk2 refl refl proposed usable

-- Account 12 has got the key of the proposal.
abbrev context3 : GroupContext
context3 = record context1 {
  account = 12;
  proposed_keys = put 11 (some new_key) new_concurrent_map;
}

abbrev enc3 : Bytes
enc3 = box_seal world.box new_key nonce24 (committed new_key).0

abbrev eth3 : Eth
eth3 = record eth { ipfs_hash = some enc3 }

has_key : get 11 context3.proposed_keys ≡ some new_key
unfolding get put new_concurrent_map
has_key = refl

commit_changes-on_ipfs_hash_changed_example :
    (hash : Bytes) × (ms : List FileMeta) × (d1 : Disk) × (d3 : Disk) × (d4 : Disk)
    × (get_pending_changes world storage1 group1 draws1 repo1 disk2 ≡ (ok ms, repo2, d1))
    × (let g = record group1 {
      boxer = new_key;
      name = b'g' ∷ [];
      members = 11 ∷ 12 ∷ [];
      ipfs_hash = hash;
      encrypted_ipfs_hash = enc3;
    } in
        on_ipfs_hash_changed network book
          (λ a. a)
          world
          storage1
          eth3
          (codec group_wire)
          100
          11
          context3
          disk2
        ≡ repo_updated world storage1 eth3
            (record context3 { group = g })
            (Repos.update world storage1 g repo1 hash d3))
    × (get_group_file_metas_from_ipfs world storage1 hash new_key d3 ≡ (ok (entries ms), d4))
commit_changes-on_ipfs_hash_changed_example =
    commit_changes-on_ipfs_hash_changed world world-IsExternal (codec group_wire)
      (codec-IsCodec group_wire) network book (λ a. a) storage1 storage1 eth eth3 (8 ∷ []) nonce24
      nonce24 (b'g' ∷ []) enc3 draws1 (11 ∷ 12 ∷ []) context1 context2 context3 disk2 round_ab.0
      disk2 refl refl proposed refl has_key
      (record { has_name = refl; has_members = refl; has_hash = refl }) usable
