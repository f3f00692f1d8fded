-- ===== src/Main/Handlers/Sending.antt =====
-- The handlers of main/main.go whose command is to send a transaction.
use ipfs_share.Prelude.{
  ◌≡◌, refl, ap, ◌∙◌, [], ◌∷◌, ◌++◌, Bytes, true, Option, none, some, ok, nat_eq,
}
use ipfs_share.Collections.Map.{get}
use ipfs_share.Fs.Disk.{Disk}
use ipfs_share.Fs.Meta.{Address}
use ipfs_share.GroupContext.{GroupContext, Handled, Transaction, creates_group}
use ipfs_share.GroupContext.Commit as Contexts
use ipfs_share.GroupContext.Commit.{send}
use ipfs_share.UserContext.{
  SignedIn, UserWorld, UserContext, UserError, enter, leave_with, on_context, on_group,
  with_contract,
}
use ipfs_share.UserContext as Users
use ipfs_share.Main.Cli.{quoted}
use ipfs_share.Main.Routes.Reaching.{
  Command, call_of, signs_up, lists_groups, lists_transactions, creates, lists_members, lists_files,
  commits, grants, revokes,
}
use ipfs_share.Main.Handlers.{Site, done, Served, served, served_at, with_argument, serve}

-- The only transaction that a command sends; a registration and a commit, whose transactions carry
-- more than what was typed, are left out.
abbrev pub transaction_of : Site → Command → Option Transaction
transaction_of site (signs_up username) = none
transaction_of site lists_groups = none
transaction_of site lists_transactions = none
transaction_of site (creates name) = some (creates_group name)
transaction_of site (Command.invites group member) =
    some (Transaction.invites (site.hex_to_address member))
transaction_of site (Command.leaves group) = some Transaction.leaves
transaction_of site (lists_members group) = none
transaction_of site (lists_files group) = none
transaction_of site (commits group) = none
transaction_of site (grants group file member) = none
transaction_of site (revokes group file member) = none

-- The user has a context of the group.
abbrev IsIn : Site → UserContext → Bytes → Type 0
IsIn site u group = (ctx : GroupContext) × (get (site.hex_to_address group) u.groups ≡ some ctx)

-- The body is decoded to what was typed, the user is in the group, and the contract takes the
-- transaction.
abbrev pub CanSend : Site → UserContext → Command → Type 0
CanSend site u (signs_up username) = ⊥
CanSend site u lists_groups = ⊥
CanSend site u lists_transactions = ⊥
CanSend site u (creates name) =
    (site.decodes (quoted name) ≡ some name) × (site.chain.takes_group name ≡ true)
CanSend site u (Command.invites group member) =
    (site.decodes (quoted member) ≡ some member)
    × IsIn site u group
    × ((site.contract (site.hex_to_address group)).takes_invite (site.hex_to_address member) ≡ true)
CanSend site u (Command.leaves group) =
    IsIn site u group × ((site.contract (site.hex_to_address group)).takes_leave ≡ true)
CanSend site u (lists_members group) = ⊥
CanSend site u (lists_files group) = ⊥
CanSend site u (commits group) = ⊥
CanSend site u (grants group file member) = ⊥
CanSend site u (revokes group file member) = ⊥

-- What a request is answered with that has sent `tx` and done no more for the user.
pub record Sends (u : UserContext) (d : Disk) (tx : Transaction) (s : Served) : Type 0 where
  pub after : UserContext
  pub answered : s ≡ (done, some after, d)
  pub sent : after.transactions ≡ u.transactions ++ tx ∷ []
  pub owner : after.owner ≡ u.owner
  pub invitations : after.invitations ≡ u.invitations

-- A method of a context that the user has.
pub on_group_lem :
    (group : Address) (method : GroupContext → Disk → Handled) (u : UserContext) (d : Disk)
    (si : SignedIn) (ctx : GroupContext)
    → u.signed_in ≡ some si
    → get group u.groups ≡ some ctx
    → on_group group method u d ≡ leave_with group u si (method (enter u si ctx) d)
unfolding on_group
on_group_lem group method u d si ctx e found =
    ap (λ o. on_context group method u d o (get group u.groups)) e
    ∙ ap (on_context group method u d (some si)) found

module _ (w : UserWorld) (site : Site) (u : UserContext) (si : SignedIn) (d : Disk)
    (signed : u.signed_in ≡ some si) where
  acted-Sends :
      (group : Address) (method : GroupContext → Disk → Handled) (ctx ctx' : GroupContext)
      (tx : Transaction)
      → get group u.groups ≡ some ctx
      → method (enter u si ctx) d ≡ (ok tt, ctx', d)
      → ctx'.transactions ≡ u.transactions ++ tx ∷ []
      → Sends u d tx (served (on_group group method u d))
  acted-Sends group method ctx ctx' tx found acts grown = record {
    after = (leave_with group u si (ok tt, ctx', d)).1;
    answered =
        ap served
          (on_group_lem group method u d si ctx signed found ∙ ap (leave_with group u si) acts);
    sent = grown;
    owner = refl;
    invitations = refl;
  }

  -- A signed-in user's request for the call that a command is to reach, where the body decodes to
  -- what was typed, the user is in the group named and the contract takes the transaction, is
  -- answered as done, adds to the user's transactions the one of that command (the creation of the
  -- group typed, the invitation of the member typed, or the leaving), and does not change the
  -- disk, the owner or the invitations.
  pub serve-Sends :
      (c : Command) (tx : Transaction)
      → transaction_of site c ≡ some tx
      → CanSend site u c
      → let call = call_of c in
        Sends u d tx (serve w site call.endpoint call.vars call.body (some u) d)
  unfolding serve Users.create_group
  serve-Sends (creates name) tx is (decodes, takes) =
      let same : creates_group name ≡ tx = cc in
      record {
        after = record u { transactions = u.transactions ++ creates_group name ∷ [] };
        answered =
            ap
              (λ o.
                with_argument w site o u d
                  (λ arg. served_at d (Users.create_group site.chain arg u)))
              decodes
            ∙ ap
                (λ o. served_at d (
                  with_contract o (Users.sent (site.chain.takes_group name) (creates_group name) u)
                    u))
                signed
            ∙ ap (λ b. served_at d (Users.sent b (creates_group name) u)) takes;
        sent = ap (λ t. u.transactions ++ t ∷ []) same;
        owner = refl;
        invitations = refl;
      }
  serve-Sends (Command.invites group member) tx is (decodes, (ctx, found), takes) =
      let a = site.hex_to_address member in
      let same : Transaction.invites a ≡ tx = cc in
      let ctx' : GroupContext = record (enter u si ctx) {
        transactions = u.transactions ++ Transaction.invites a ∷ [];
      } in
      let s =
        acted-Sends (site.hex_to_address group) _ ctx ctx' tx found
          (ap (λ b. let (r, c) = send b (Transaction.invites a) (enter u si ctx) in (r, c, d))
            takes)
          (ap (λ t. u.transactions ++ t ∷ []) same) in
      record {
        after = s.after;
        answered =
            ap
              (λ o. with_argument w site o u d (λ arg. served (
                on_group (site.hex_to_address group)
                  (λ c d'.
                    let (r, c') =
                      Contexts.invite (site.contract (site.hex_to_address group))
                        (site.hex_to_address arg) true c in
                    (r, c', d'))
                  u d)))
              decodes
            ∙ s.answered;
        sent = s.sent;
        owner = s.owner;
        invitations = s.invitations;
      }
  serve-Sends (Command.leaves group) tx is ((ctx, found), takes) =
      let same : Transaction.leaves ≡ tx = cc in
      let ctx' : GroupContext = record (enter u si ctx) {
        transactions = u.transactions ++ Transaction.leaves ∷ [];
      } in
      acted-Sends (site.hex_to_address group) _ ctx ctx' tx found
        (ap (λ b. let (r, c) = send b Transaction.leaves (enter u si ctx) in (r, c, d)) takes)
        (ap (λ t. u.transactions ++ t ∷ []) same)
  serve-Sends (signs_up username) tx is can = absurd can
  serve-Sends lists_groups tx is can = absurd can
  serve-Sends lists_transactions tx is can = absurd can
  serve-Sends (lists_members group) tx is can = absurd can
  serve-Sends (lists_files group) tx is can = absurd can
  serve-Sends (commits group) tx is can = absurd can
  serve-Sends (grants group file member) tx is can = absurd can
  serve-Sends (revokes group file member) tx is can = absurd can
