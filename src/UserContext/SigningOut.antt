-- ===== src/UserContext/SigningOut.antt =====
-- `SignOut` of client/usercontext.go, over the connections of the groups' contexts.
use ipfs_share.Prelude.{
  ◌≡◌, ◌≢◌, ◌↔◌, refl, ap, ◌∙◌, List, [], ◌∷◌, Option, none, some, ok, panic, ==_refl, nat_eq,
}
use ipfs_share.Collections.Map.{get, v_iterator}
use ipfs_share.Fs.Meta.{Address}
use ipfs_share.GroupContext.{GroupContext}
use ipfs_share.UserContext.{SignedIn, UserContext, kill_at, stop, stop_all, sign_out, sign_out_of}
use ipfs_share.UserContext.Invariant.{AreFiled}

-- The context of the first entry is the one that is found under its key.
stop_all-first :
    (k : Address) (o : Option GroupContext) (rest : List (Address × Option GroupContext))
    → AreFiled (record { entries = (k, o) ∷ rest })
    → stop o ≡ panic
unfolding get
stop_all-first k none rest filed = refl
stop_all-first k (some ctx) rest filed = ap (kill_at ctx) (filed k ctx (rw (==_refl k) refl)).1

stop_all_panics :
    (es : List (Address × Option GroupContext))
    → AreFiled (record { entries = es })
    → v_iterator (record { entries = es }) ≢ []
    → stop_all (v_iterator (record { entries = es })) ≡ panic
unfolding stop_all v_iterator
stop_all_panics [] filed h = absurd (h refl)
stop_all_panics ((k, o) ∷ rest) filed h = rw (stop_all-first k o rest filed)

-- SignOut of a user who is signed in, whose contexts stand under their addresses and have no
-- connection, panics if and only if there is one.
pub sign_out_panics :
    (u : UserContext) (si : SignedIn)
    → u.signed_in ≡ some si
    → AreFiled u.groups
    → (sign_out u ≡ panic) ↔ (v_iterator u.groups ≢ [])
unfolding sign_out stop_all
sign_out_panics u si e filed = (
  λ p none_there. let is : stop_all (v_iterator u.groups) ≡ ok tt = rw none_there refl in cc,
  λ h. ap (sign_out_of u) e ∙ stop_all_panics u.groups.entries filed h,
)
