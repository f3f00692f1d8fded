-- ===== src/Group/Members.antt =====
-- The member list as a set: it is kept without repetition, and each method changes one member.
use ipfs_share.Prelude.{
  ◌≡◌, [], ◌∷◌, ◌||◌, ◌&&◌, not, ◌==◌, arith, Distinct, append-Distinct, remove_first-Distinct,
  contains-remove_first_self, contains-remove_first_ne, contains-append,
}
use ipfs_share.Fs.Meta.{Address}
use ipfs_share.Group.{Group, is_member, add_member, remove_member}

-- No account is listed twice.
abbrev pub IsGroup : Group → Type 0
IsGroup g = Distinct g.members

-- From a member list without repetition, AddMember keeps it so and makes its account, and no
-- other, a member.
pub add_member_lem :
    (account : Address) (g : Group)
    → IsGroup g
    → IsGroup (add_member account g)
      × ((a : Address) → is_member a (add_member account g) ≡ (account == a || is_member a g))
unfolding add_member is_member
add_member_lem account g d = (
  ground (arith, append-Distinct account g.members),
  λ a. ground (arith, contains-append a g.members (account ∷ [])),
)

-- From a member list without repetition, RemoveMember keeps it so and takes its account, and no
-- other, out of the members.
pub remove_member_lem :
    (account : Address) (g : Group)
    → IsGroup g
    → IsGroup (remove_member account g)
      × ((a : Address)
          → is_member a (remove_member account g) ≡ (not (account == a) && is_member a g))
unfolding remove_member is_member
remove_member_lem account g d = (
  remove_first-Distinct account g.members d,
  λ a. ground (
    arith,
    contains-remove_first_self account g.members d,
    contains-remove_first_ne a account g.members,
  ),
)
