-- ===== src/Tests/UserWorld.antt =====
-- A user, a blockchain and what the accounts call, for the tests.
use ipfs_share.Prelude.{refl, [], ◌∷◌, Bytes, true, none, some, nat_eq}
use ipfs_share.Account.{AccountData, Account, AccountWorld}
use ipfs_share.Fs.Meta.{Address}
use ipfs_share.Communication.Manager.{new_p2p_manager}
use ipfs_share.GroupContext.{Eth}
use ipfs_share.UserContext.{Blockchain, UserWorld, SignedIn, UserContext}
use ipfs_share.Tests.Wire.{Wire, nat, bytes, via, pair, codec}
use ipfs_share.Tests.World.{world}
use ipfs_share.Tests.CryptoTests.{nonce24}
use ipfs_share.Tests.FsTests.{storage1}
use ipfs_share.Tests.ContextTests.{group_wire, eth, context1}

abbrev pub account_wire : Wire AccountData
account_wire =
    via (λ a. (a.name, (a.contract_address, (a.boxer.public_key, a.boxer.private_key))))
      (λ (n, (c, (p, s))). record {
        name = n;
        contract_address = c;
        boxer = record { public_key = p; private_key = s };
      })
      (λ a. refl) (pair bytes (pair nat (pair bytes bytes)))

-- The public key of a secret is the secret behind a 1.
abbrev pub accounts : AccountWorld
accounts = record {
  scalar_base_mult = λ s. 1 ∷ s;
  account_codec = codec account_wire;
  new_contract = λ a. true;
}

abbrev pub user_world : UserWorld
user_world = record {
  fs = world;
  accounts = accounts;
  group_codec = codec group_wire;
  ipfs_id = some (b'i' ∷ []);
  listens = true;
}

abbrev pub new_eth : Eth
new_eth = record eth { ipfs_hash = some [] }

abbrev pub chain : Blockchain
chain = record {
  group_at = λ a. some new_eth;
  get_account = λ a. some 11;
  account_name = λ a. some (b'u' ∷ []);
  takes_join = λ a. true;
  takes_group = λ n. true;
  takes_account = λ n i k. true;
}

abbrev pub nonces : Address → Bytes
nonces a = nonce24

abbrev pub account1 : Account
account1 = record {
  account_data = record {
    name = b'u' ∷ [];
    contract_address = 11;
    boxer = record { public_key = 1 ∷ 9 ∷ []; private_key = 9 ∷ [] };
  };
  contract = none;
}

abbrev pub signed_in1 : SignedIn
signed_in1 = record { account = record account1 { contract = some 11 }; p2p = new_p2p_manager 11 }

-- Account 11 has one group, and is invited to another.
abbrev pub user1 : UserContext
user1 = record {
  owner = 21;
  signed_in = some signed_in1;
  groups = record { entries = (100, some context1) ∷ [] };
  transactions = [];
  invitations = 101 ∷ [];
  storage = storage1;
}
