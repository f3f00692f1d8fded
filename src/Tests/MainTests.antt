-- ===== src/Tests/MainTests.antt =====
-- The theorems on main/main.go at concrete inputs.
use ipfs_share.Prelude.{
  sym, ◌≡◌, refl, ap, ◌∙◌, List, [], ◌∷◌, ◌++◌, Bytes, codes, Bool, true, false, ◌&&◌, ◌==◌, none,
  some, All, arith, if◌then◌else◌, nat_eq,
}
use ipfs_share.Fs.Meta.{Address}
use ipfs_share.UserContext.{UserContext}
use ipfs_share.Main.{Method, sign_out, create_group, group_repo_grant, group_repo_revoke}
use ipfs_share.Main.Cli.{Request, sends, main}
use ipfs_share.Main.Routes.{
  Router, IsRouter, IsPlain, is_plain, all_plain, first_match, path_of, routes,
}
use ipfs_share.Main.Routes.Reaching.{
  Reaches, args_of, call_of, grants, main-Reaches, ls_invitations_lem,
}
use ipfs_share.Main.Handlers.{Site, serve, done, drops, refuses, Refusal}
use ipfs_share.Main.Handlers.Sending.{Sends, serve-Sends}
use ipfs_share.Main.Handlers.Access.{Lists, granted_list, revoked_list, serve-Lists}
use ipfs_share.Main.Handlers.Requests.{Arrival, serve_all, serve_all-sign_out}
use ipfs_share.Main.Cli.{quoted}
use ipfs_share.Main.{ls_groups, sign_up}
use ipfs_share.Collections.Map.{new_concurrent_map, v_iterator, get}
use ipfs_share.Group.{is_member}
use ipfs_share.GroupContext.{creates_group}
use ipfs_share.Fs.Repo.{get_file}
use ipfs_share.Fs.Storage.UserFiles.{base}
use ipfs_share.Tests.ContextTests.{context1}
use ipfs_share.Tests.RepoTests.{repo1, file_ab, has_file}
use ipfs_share.Tests.StateTests.{meta1}
use ipfs_share.Tests.UserWorld.{signed_in1}
use ipfs_share.Main.Routes.Reaching as Commands
use ipfs_share.Tests.CryptoTests.{nonce24}
use ipfs_share.Tests.StateTests.{disk1}
use ipfs_share.Tests.Peers.{book, to_address}
use ipfs_share.Tests.UserWorld.{user_world, chain, user1, new_eth}

-- A router that cuts the path at its slashes.
abbrev push : Address → List Bytes → List Bytes
push c [] = (c ∷ []) ∷ []
push c (s ∷ ss) = (c ∷ s) ∷ ss

abbrev cut : Bytes → List Bytes
cut [] = [] ∷ []
cut (c ∷ cs) = let rest = cut cs in if c == b'/' then [] ∷ rest else push c rest

abbrev behind_first : List Bytes → List Bytes
behind_first [] = []
behind_first (s ∷ ss) = ss

abbrev cutting : Router
cutting rs method path = first_match rs method (behind_first (cut path))

plain_no_slash : (c : Address) → is_plain c ≡ true → (c == b'/') ≡ false
plain_no_slash c h = ground arith

cut-path_of : (ss : List Bytes) → cut (path_of ss) ≡ [] ∷ behind_first (cut (path_of ss))
cut-path_of [] = refl
cut-path_of (s ∷ ss) = refl

cut-append :
    (s : Bytes) (ss : List Bytes)
    → all_plain s ≡ true
    → cut (s ++ path_of ss) ≡ s ∷ behind_first (cut (path_of ss))
cut-append [] ss h = cut-path_of ss
cut-append (c ∷ s) ss h =
    rw (plain_no_slash c (first (is_plain c) (all_plain s) h))
      (ap (push c) (cut-append s ss (second (is_plain c) (all_plain s) h)))
  where
    first : (a b : Bool) → a && b ≡ true → a ≡ true
    first a b e = ground arith

    second : (a b : Bool) → a && b ≡ true → b ≡ true
    second a b e = ground arith

behind_first-cut : (ss : List Bytes) → All IsPlain ss → behind_first (cut (path_of ss)) ≡ ss
behind_first-cut [] h = refl
behind_first-cut ([] ∷ ss) (h, hs) = absurd h
behind_first-cut ((c ∷ s) ∷ ss) ((_, h), hs) =
    cut-append (c ∷ s) ss h ∙ ap (λ ts. (c ∷ s) ∷ ts) (behind_first-cut ss hs)

cutting-IsRouter : IsRouter cutting
cutting-IsRouter = record {
  picks = λ rs method ss h. ap (first_match rs method) (behind_first-cut ss h);
}

abbrev url : Bytes
url = codes "http://127.0.0.1:3333"

main-Reaches_example :
    Reaches cutting url
      (main (λ m u. true) url (args_of (grants (codes "0xab") (codes "a.txt") (codes "0xcd"))))
      (call_of (grants (codes "0xab") (codes "a.txt") (codes "0xcd")))
main-Reaches_example =
    main-Reaches (λ m u. true) (λ m u. refl) cutting cutting-IsRouter url
      (grants (codes "0xab") (codes "a.txt") (codes "0xcd"))
      ((refl, refl), ((refl, refl), ((refl, refl), tt)))

ls_invitations_lem_example :
    (request : Request) × (main (λ m u. true) url (codes "ls" ∷ codes "-i" ∷ []) ≡ sends request)
    × (path : Bytes) × (request.url ≡ url ++ path)
    × ((method : Method) → cutting routes method path ≡ none)
ls_invitations_lem_example =
    ls_invitations_lem (λ m u. true) (λ m u. refl) cutting cutting-IsRouter url

-- What stands between the quotes.
abbrev all_but_last : Bytes → Bytes
all_but_last [] = []
all_but_last (c ∷ []) = []
all_but_last (c ∷ (b ∷ bs)) = c ∷ all_but_last (b ∷ bs)

abbrev unquoted : Bytes → Bytes
unquoted [] = []
unquoted (c ∷ cs) = all_but_last cs

abbrev site : Site
site = record {
  decodes = λ b. some (unquoted b);
  hex_to_address = to_address;
  tx_hash = λ t. [];
  chain = chain;
  contract = λ a. new_eth;
  book = book;
  secret = some (9 ∷ []);
  key = some (8 ∷ []);
  nonce = nonce24;
  nonce' = nonce24;
  draws = λ a name. record { file_key = none; new_key = none; nonce = nonce24 };
}

serve-Sends_example :
    Sends user1 disk1
      (creates_group (codes "crew"))
      (serve user_world site create_group [] (quoted (codes "crew")) (some user1) disk1)
serve-Sends_example =
    serve-Sends user_world site user1 signed_in1 disk1 refl (Commands.creates (codes "crew"))
      (creates_group (codes "crew")) refl (refl, refl)

-- "d" is read as the address 100, that of the user's group, and (codes) the byte 12 as a member's.
found1 : get 100 user1.groups ≡ some context1
unfolding get
found1 = refl

is_member1 : is_member 12 context1.group ≡ true
unfolding is_member
is_member1 = refl

base_f : base (codes "f") ≡ codes "f"
unfolding base
base_f = refl

serve-Lists_example :
    Lists user1 100 (base (codes "f")) (granted_list 11 12 (11 ∷ [])) (
      serve user_world site group_repo_grant
        (codes "d" ∷ codes "f" ∷ (12 ∷ []) ∷ [])
        []
        (some user1)
        disk1)
    × Lists user1 100 (base (codes "f")) (revoked_list 11 12 (11 ∷ [])) (
        serve user_world site group_repo_revoke
          (codes "d" ∷ codes "f" ∷ (12 ∷ []) ∷ [])
          []
          (some user1)
          disk1)
serve-Lists_example =
    serve-Lists user_world site user1 signed_in1 disk1 refl (codes "d") (codes "f") (12 ∷ [])
      context1 file_ab meta1 found1 is_member1 (ap (λ n. get_file n repo1) base_f ∙ has_file)
      (sym base_f) refl

abbrev lone_user : UserContext
lone_user = record user1 { groups = new_concurrent_map }

abbrev later : List Arrival
later =
    record { site = site; endpoint = ls_groups; vars = []; body = [] }
    ∷ record { site = site; endpoint = sign_up; vars = codes "bob" ∷ []; body = [] }
    ∷ []

no_groups : v_iterator lone_user.groups ≡ []
unfolding v_iterator new_concurrent_map
no_groups = refl

serve_all-sign_out_example :
    serve_all user_world
      (record { site = site; endpoint = sign_out; vars = []; body = [] } ∷ later)
      (some lone_user)
      disk1
    ≡ (done ∷ refuses Refusal.no_client ∷ drops ∷ [], none, disk1)
serve_all-sign_out_example =
    serve_all-sign_out user_world site [] [] later lone_user signed_in1 disk1 refl no_groups
