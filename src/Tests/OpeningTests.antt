-- ===== src/Tests/OpeningTests.antt =====
-- The theorems on how the contexts of groups are opened, at concrete inputs.
use mathlib.Core.List.{Memᴰ}
use ipfs_share.Prelude.{
  true, ◌≡◌, refl, ap, List, [], ◌∷◌, Bytes, bytes_equal, none, some, ok, nat_eq,
}
use ipfs_share.Collections.Map.{get, put, new_concurrent_map}
use ipfs_share.Crypto.SymmetricKey.{SymmetricKey, box_seal}
use ipfs_share.Group as Groups
use ipfs_share.Group.{new_group, new_group_from_meta, group_meta}
use ipfs_share.Fs.Disk.{Disk, create_and_write_file, create, write, read_file}
use ipfs_share.Fs.Disk.Laws.{written}
use ipfs_share.Fs.Meta.{GroupMeta}
use ipfs_share.Fs.Repo as Repos
use ipfs_share.Fs.Repo.{equal_fold}
use ipfs_share.Fs.Disk.Directory.{read_dir}
use ipfs_share.Fs.Repo.Opening.{new_group_repo, opened_with}
use ipfs_share.Fs.Storage.{new_storage, init, save_group_meta, group_file_meta_dir}
use ipfs_share.Fs.Storage.Downloads.{group_meta_path}
use ipfs_share.Fs.Storage.Listing.{get_group_metas, get_group_file_metas}
use ipfs_share.Fs.Storage.Listing.Saved.{IsName, get_group_metas-save_group_meta}
use ipfs_share.Communication.Message.{get_group_key, no_boxer}
use ipfs_share.Communication.Message.Sending.{sent_message, verify_signature-Signs}
use ipfs_share.Communication.Exchange.{FourMessages}
use ipfs_share.Communication.Server.Steps.{Sends, key-Sends}
use ipfs_share.UserContext.Founding.{Founded, with_group, joined, on_group_created-Founded}
use ipfs_share.UserContext.Joining.{callback-get_boxer_of_group, session-on_get_key_success}
use ipfs_share.GroupContext.{Eth, GroupContext, joins, contract_state, save_group}
use ipfs_share.GroupContext as Contexts
use ipfs_share.GroupContext.Opening.{new_group_context}
use ipfs_share.UserContext.{UserContext, callback_of}
use ipfs_share.UserContext.Startup.{build_groups}
use ipfs_share.UserContext.Events.{on_group_created, on_get_key_success}
use ipfs_share.UserContext.Callbacks.{Serves, next_state-Serves}
use ipfs_share.UserContext.Restart.{Origin, build_groups-save_group_meta}
use ipfs_share.Communication.Server.{Server, end_of_session, requested_key, encoded_boxer}
use ipfs_share.Tests.Wire.{codec, codec-IsCodec}
use ipfs_share.Tests.World.{world, world-IsExternal, metas_wire}
use ipfs_share.Tests.CryptoTests.{nonce24}
use ipfs_share.Tests.StateTests.{disk1, group1}
use ipfs_share.Tests.FsTests.{storage1, usable1}
use ipfs_share.Tests.CommunicationTests.{server1}
use ipfs_share.Tests.Peers.{
  network, network-IsNetwork, book, bob, signs, key_wire, alice, signer_of,
}
use ipfs_share.Tests.ContextTests.{group_wire, context1}
use ipfs_share.Tests.UserWorld.{new_eth, user_world, chain, nonces, signed_in1, user1}

is_name : IsName storage1.metas_ga_path (100 ∷ b'.' ∷ b'm' ∷ b'e' ∷ b't' ∷ [])
unfolding init new_storage
is_name = record { not_empty = λ e. cc; no_slash = refl; as_written = refl }

abbrev meta2 : GroupMeta
meta2 = record { address = 100; boxer = record { key = 7 ∷ 7 ∷ [] } }

abbrev meta_path : Bytes
meta_path = group_meta_path world storage1 100

abbrev disk2 : Disk
disk2 = written meta_path (group_wire.write meta2 []) disk1

saves : save_group_meta world (codec group_wire) meta2 storage1 disk1 ≡ (ok tt, disk2)
unfolding save_group_meta create_and_write_file create write
saves = refl

get_group_metas-save_group_meta_example :
    (ms : List GroupMeta) × (get_group_metas (codec group_wire) storage1 disk2 ≡ (ok ms, disk2))
    × Memᴰ meta2 ms
get_group_metas-save_group_meta_example =
    get_group_metas-save_group_meta world (codec group_wire) (codec-IsCodec group_wire) meta2
      storage1 disk1 disk2 is_name refl (usable1 meta_path) saves

-- The context that the restart opens.
abbrev context2 : GroupContext
context2 = record context1 {
  group = record group1 { members = 11 ∷ 12 ∷ [] };
  repo = record {
    files = new_concurrent_map;
    ipfs_hash = 1 ∷ box_seal world.box group1.boxer nonce24 (metas_wire.write none []);
    user = 11;
  };
  proposed_keys = new_concurrent_map;
  proposed_payloads = new_concurrent_map;
}

abbrev user2 : UserContext
user2 = record user1 { groups = new_concurrent_map }

abbrev user3 : UserContext
user3 = record user1 { groups = record { entries = (100, some context2) ∷ [] } }

builds :
    build_groups user_world chain nonces signed_in1 user2 disk2
    ≡ (ok tt, user3, written meta_path (group_wire.write meta2 []) disk2)
unfolding build_groups get_group_metas new_group_context new_group_repo opened_with
    get_group_file_metas Contexts.update contract_state Groups.update save_group save_group_meta
    Repos.update equal_fold group_meta new_group new_group_from_meta new_concurrent_map put
    create_and_write_file create write read_file read_dir group_file_meta_dir init new_storage
    bytes_equal
builds = refl

stands : get 100 user3.groups ≡ some context2
unfolding get
stands = refl

build_groups-save_group_meta_example :
    (ms : List GroupMeta) × (get_group_metas (codec group_wire) storage1 disk2 ≡ (ok ms, disk2))
    × Memᴰ meta2 ms
    × ((c : GroupContext) × (get 100 user3.groups ≡ some c))
    × Origin ms user2 100 context2
build_groups-save_group_meta_example =
    build_groups-save_group_meta user_world (codec-IsCodec group_wire) chain nonces signed_in1 user2
      user3 meta2 100 context2 disk1 disk2 (written meta_path (group_wire.write meta2 []) disk2)
      is_name refl (usable1 meta_path) saves builds stands

-- Account 12 is a member of the group, and its session with account 11 is in state 1.
abbrev user4 : UserContext
user4 = record user1 { owner = 22; groups = record { entries = (100, some context1) ∷ [] } }

abbrev server2 : Server
server2 = record server1 { state = 1 }

has_context : get 100 user4.groups ≡ some context1
unfolding get
has_context = refl

grants :
    Sends network network-IsNetwork bob
      (signs 22)
      book
      refl
      (callback_of user4)
      server2
      (record server2 { state = end_of_session })
      (21 ∷ 1 ∷ 2 ∷ [])
      (sent_message network (signs 22) 12 77 (key_wire.write context1.group.boxer []))
unfolding requested_key
grants =
    key-Sends network network-IsNetwork bob (signs 22) book refl (callback_of user4) server2
      (21 ∷ 1 ∷ 2 ∷ []) (key_wire.write context1.group.boxer []) refl refl (λ bs. refl)
      (verify_signature-Signs network alice (1 ∷ 2 ∷ []) (signs 21))
      (ap (encoded_boxer network no_boxer)
        (callback-get_boxer_of_group user4 100 context1 has_context))

next_state-Serves_example :
    Serves network (signer_of 22) user4 (21 ∷ 1 ∷ 2 ∷ []) server2 grants.packet
next_state-Serves_example =
    next_state-Serves network (signer_of 22) user4 (21 ∷ 1 ∷ 2 ∷ []) server2
      (record server2 { state = end_of_session }) grants.packet refl grants.stepped

not_yet : get 100 user2.groups ≡ none
unfolding get new_concurrent_map
not_yet = refl

delivered :
    on_get_key_success user_world chain 100 context1.group.boxer nonce24 user2 disk1
    ≡ (ok tt, user3, written meta_path (group_wire.write meta2 []) disk2)
unfolding on_get_key_success new_group_context new_group_repo opened_with get_group_file_metas get
    Contexts.update contract_state Groups.update save_group save_group_meta Repos.update equal_fold
    group_meta new_group new_group_from_meta new_concurrent_map put create_and_write_file create
    write read_file read_dir group_file_meta_dir init new_storage bytes_equal
delivered = refl

session-on_get_key_success_example :
    FourMessages network network-IsNetwork alice bob
      (signs 21)
      (signs 22)
      book
      refl
      refl
      (λ c bs. refl)
      (callback_of user4)
      100
      77
      (1 ∷ 2 ∷ [])
      get_group_key
      []
      100
      context1.group.boxer
    × (mine : GroupContext) × (get 100 user3.groups ≡ some mine)
    × (mine.group.address ≡ 100)
    × (mine.group.boxer ≡ context1.group.boxer)
session-on_get_key_success_example =
    session-on_get_key_success user_world chain network network-IsNetwork alice bob (signs 21)
      (signs 22) book refl refl (λ c bs. refl) user4 context1 100 77 (1 ∷ 2 ∷ []) nonce24 user2
      user3 disk1 (written meta_path (group_wire.write meta2 []) disk2) has_context refl not_yet
      delivered

abbrev drawn_key : SymmetricKey
drawn_key = record { key = 5 ∷ [] }

on_group_created-Founded_example :
    (ctx : GroupContext) × (bs : Bytes) × (on_group_created user_world chain 11 102 drawn_key
        (nonce24, nonce24)
        user1
        disk1
      ≡ (ok tt, with_group 102 ctx user1, written (group_meta_path world storage1 102) bs disk1))
    × ((codec group_wire).unmarshal bs ≡ some (record { address = 102; boxer = drawn_key }))
    × Founded user_world 102 (b'g' ∷ []) drawn_key ctx
    × (let theirs = callback_of (joined 12 102 (with_group 102 ctx user1) disk1) in
        (theirs.is_member 102 12 ≡ true) × (theirs.get_boxer_of_group 102 ≡ some drawn_key))
on_group_created-Founded_example =
    on_group_created-Founded user_world world-IsExternal (codec-IsCodec group_wire) chain
      (λ c. (1 ∷ c, refl)) 102 12 drawn_key nonce24 nonce24 (b'g' ∷ []) user1 signed_in1 new_eth
      disk1 disk1 refl refl refl refl (usable1 (group_meta_path world storage1 102))
