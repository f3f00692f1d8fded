-- ===== src/Fs/File/Access.antt =====
-- Who may change the access list of a file, and what the changes do to it.
use mathlib.Core.Path.{subst, sym}
use ipfs_share.Prelude.{
  ◌≡◌, refl, ap, ◌∙◌, List, [], ◌∷◌, ◌++◌, Bool, true, false, ◌||◌, Option, none, some,
  if◌then◌else◌, ok, err, arith, contains, remove_first, Distinct, append-Distinct,
  remove_first-Distinct, contains-append, remove_first-append, Bool-cases, inl, inr, ◌==◌,
}
use ipfs_share.Fs.Disk.{Disk, no_write_access, has_write_access, target_has_no_access}
use ipfs_share.Fs.Meta.{Address, elements, FileMeta}
use ipfs_share.Fs.External.{External, File}
use ipfs_share.Fs.File.{
  Outcome3, grant_scan, revoke_scan, granted, grant_write_access, revoked, revoke_write_access,
  save_metadata, with_file, on_pending,
}

grant_scan_lem :
    (user target : Address) (acc : Bool) (ws : List Address)
    → grant_scan user target acc ws
      ≡ (if contains target ws then none else some (acc || contains user ws))
unfolding grant_scan
grant_scan_lem user target acc [] = ground arith
grant_scan_lem user target acc (w ∷ ws) =
    ground (arith, grant_scan_lem user target (acc || w == user) ws)

revoke_scan_lem :
    (user target : Address) (u t : Bool) (ws : List Address)
    → revoke_scan user target (u, t) ws ≡ (u || contains user ws, t || contains target ws)
unfolding revoke_scan
revoke_scan_lem user target u t [] = ground arith
revoke_scan_lem user target u t (w ∷ ws) =
    ground (arith, revoke_scan_lem user target (u || w == user) (t || w == target) ws)

-- The members of the pending access list.
abbrev pub members_of : Option FileMeta → List Address
members_of none = []
members_of (some p) = elements p.write_access_list

abbrev pub pending_members : File → List Address
pending_members f = members_of f.pending_changes

abbrev pub set_pending : File → FileMeta → List Address → File
set_pending f p ws = record f { pending_changes = some (record p { write_access_list = some ws }) }

member_after :
    (user target : Address) (ws : List Address)
    → contains user ws ≡ true
    → contains user (ws ++ target ∷ []) ≡ true
member_after user target ws h = ground (arith, contains-append user ws (target ∷ []))

target_after : (target : Address) (ws : List Address) → contains target (ws ++ target ∷ []) ≡ true
target_after target ws = ground (arith, contains-append target ws (target ∷ []))

module _ (x : External) where
  granted_lem :
      (f : File) (p : FileMeta) (user target : Address) (d : Disk)
      → let ws = elements p.write_access_list in
        let f' = set_pending f p (ws ++ target ∷ []) in
        granted x f p user target d ≡ (
          if contains target ws
          then (err has_write_access, f, d)
          else if contains user ws
          then with_file f' (save_metadata x f' d)
          else (err no_write_access, f, d))
  unfolding granted
  granted_lem f p user target d =
      rw (grant_scan_lem user target false (elements p.write_access_list), granted)
        (elim (Bool-cases (contains target (elements p.write_access_list))) [
          | inl t ↦ rw (t, granted)
          | inr t ↦
              rw (t, granted)
                (elim (Bool-cases (contains user (elements p.write_access_list))) [
                  | inl u ↦ rw (u, granted)
                  | inr u ↦ rw (u, granted)
                ])
        ])

  -- With pending changes, GrantWriteAccess fails where the target is in the pending list already,
  -- else where the user is not, and else appends the target and saves the file.
  pub grant_write_access_lem :
      (f : File) (p : FileMeta) (user target : Address) (d : Disk)
      → f.pending_changes ≡ some p
      → let ws = elements p.write_access_list in
        let f' = set_pending f p (ws ++ target ∷ []) in
        grant_write_access x f user target d ≡ (
          if contains target ws
          then (err has_write_access, f, d)
          else if contains user ws
          then with_file f' (save_metadata x f' d)
          else (err no_write_access, f, d))
  unfolding grant_write_access
  grant_write_access_lem f p user target d e =
      ap (λ (o : Option FileMeta). on_pending o (λ q. granted x f q user target d) f d) e
      ∙ granted_lem f p user target d

  revoked_lem :
      (f : File) (p : FileMeta) (user target : Address) (d : Disk)
      → let ws = elements p.write_access_list in
        revoked x f p user target d ≡ (
          if contains user ws
          then if contains target ws
            then (ok tt, set_pending f p (remove_first target ws), d)
            else (err target_has_no_access, f, d)
          else (err no_write_access, f, d))
  unfolding revoked
  revoked_lem f p user target d =
      rw (revoke_scan_lem user target false false (elements p.write_access_list))
        (elim (Bool-cases (contains user (elements p.write_access_list))) [
          | inr u ↦ rw u
          | inl u ↦ rw u (elim (Bool-cases (contains target (elements p.write_access_list))) [
            | inl t ↦ rw t
            | inr t ↦ rw t
          ])
        ])

  -- With pending changes, RevokeWriteAccess fails where the user is not in the pending list, else
  -- where the target is not, and else takes the first target out of the list, and does not touch
  -- the disk.
  pub revoke_write_access_lem :
      (f : File) (p : FileMeta) (user target : Address) (d : Disk)
      → f.pending_changes ≡ some p
      → let ws = elements p.write_access_list in
        revoke_write_access x f user target d ≡ (
          if contains user ws
          then if contains target ws
            then (ok tt, set_pending f p (remove_first target ws), d)
            else (err target_has_no_access, f, d)
          else (err no_write_access, f, d))
  unfolding revoke_write_access
  revoke_write_access_lem f p user target d e =
      ap (λ (o : Option FileMeta). on_pending o (λ q. revoked x f q user target d) f d) e
      ∙ revoked_lem f p user target d

  -- The file that a grant leaves behind.
  abbrev pub after_grant : File → Address → Address → Disk → File
  after_grant f user target d = (grant_write_access x f user target d).1

  abbrev pub after_revoke : File → Address → Address → Disk → File
  after_revoke f user target d = (revoke_write_access x f user target d).1

  -- With pending changes whose access list has no repetition, neither GrantWriteAccess nor
  -- RevokeWriteAccess leads to a list with repetition, whatever they return.
  pub access-Distinct :
      (f : File) (p : FileMeta) (user target : Address) (d : Disk)
      → f.pending_changes ≡ some p
      → Distinct (elements p.write_access_list)
      → Distinct (pending_members (after_grant f user target d))
        × Distinct (pending_members (after_revoke f user target d))
  access-Distinct f p user target d e h = (
    subst after_list (sym (grant_write_access_lem f p user target d e))
        (ground (arith, old_members, append-Distinct target (elements p.write_access_list))),
    subst after_list (sym (revoke_write_access_lem f p user target d e))
        (ground (arith, old_members, remove_first-Distinct target (elements p.write_access_list))),
  )
    where
      after_list : Outcome3 (Unit {0}) → Type 0
      after_list (_, g, _) = Distinct (pending_members g)

      old_members : pending_members f ≡ elements p.write_access_list
      old_members = ap (λ (o : Option FileMeta). members_of o) e

  -- What a grant that succeeds has found and done.
  grant_ok :
      (f : File) (p : FileMeta) (user target : Address) (d d' : Disk) (g : File)
      → f.pending_changes ≡ some p
      → grant_write_access x f user target d ≡ (ok tt, g, d')
      → let ws = elements p.write_access_list in
        (contains target ws ≡ false)
        × (contains user ws ≡ true)
        × (g ≡ set_pending f p (ws ++ target ∷ []))
  grant_ok f p user target d d' g e done' =
      ground (arith, grant_write_access_lem f p user target d e)

  -- After a grant, with pending changes, that succeeded, a revocation of it by the same user
  -- succeeds, on any disk, and gives the pending list back.
  pub revoke-grant :
      (f : File) (p : FileMeta) (user target : Address) (d d' d'' : Disk) (g : File)
      → f.pending_changes ≡ some p
      → grant_write_access x f user target d ≡ (ok tt, g, d')
      → (r : File) × (revoke_write_access x g user target d'' ≡ (ok tt, r, d''))
        × (pending_members r ≡ elements p.write_access_list)
  revoke-grant f p user target d d' d'' g e done' =
      let ws = elements p.write_access_list in
      let (absent, present, same) = grant_ok f p user target d d' g e done' in
      (
        set_pending g p (remove_first target (ws ++ target ∷ [])),
        rw same (
            revoke_write_access_lem (set_pending f p (ws ++ target ∷ []))
              (record p { write_access_list = some (ws ++ target ∷ []) }) user target d'' refl
            ∙ rw (member_after user target ws present) (rw (target_after target ws))),
        remove_first-append target ws absent,
      )
