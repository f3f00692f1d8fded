-- ===== src/Fs/Disk/Directory/Reading.antt =====
-- A file that stands in a directory is among its entries.
use mathlib.Core.List.{Memᴰ}
use ipfs_share.Prelude.{
  ℕ, ◌≡◌, refl, List, [], ◌∷◌, ◌++◌, Bytes, bytes_equal, bytes_equal_eq, Bool, true, false, Option,
  none, some, ==_refl, contains, arith, Bool-cases, inl, inr,
}
use ipfs_share.Fs.Disk.{lookup}
use ipfs_share.Fs.Disk.Directory.{
  Entry, below, entry_of, same_kind, same_entry, insert_entry, add_entry, entries_of, precedes,
}

-- The entry of a file.
abbrev pub file_entry : Bytes → Entry
file_entry name = record { name = name; is_dir = false }

entry_of_name : (name : Bytes) → contains b'/' name ≡ false → entry_of name ≡ file_entry name
entry_of_name [] h = refl
entry_of_name (c ∷ cs) h = ground (arith, entry_of_name cs)

below-append : (dir name : Bytes) → below dir (dir ++ name) ≡ some name
below-append [] name = refl
below-append (a ∷ dir) name = rw (==_refl a) (below-append dir name)

same_kind_eq : (a b : Bool) → same_kind a b ≡ true → a ≡ b
same_kind_eq true b h = cc
same_kind_eq false true h = cc
same_kind_eq false false h = refl

same_entry_eq : (e f : Entry) → same_entry e f ≡ true → e ≡ f
same_entry_eq e f h = ground (arith, bytes_equal_eq e.name f.name, same_kind_eq e.is_dir f.is_dir)

insert_entry-Memᴰ_self : (e : Entry) (es : List Entry) → Memᴰ e (insert_entry e es)
unfolding insert_entry
insert_entry-Memᴰ_self e [] = Memᴰ.head refl
insert_entry-Memᴰ_self e (f ∷ fs) = elim (Bool-cases (same_entry e f)) [
  | inl same ↦ rw same (Memᴰ.head (same_entry_eq e f same))
  | inr other ↦ rw other (elim (Bool-cases (precedes e.name f.name)) [
    | inl first ↦ rw first (Memᴰ.head refl)
    | inr later ↦ rw later (Memᴰ.tail (insert_entry-Memᴰ_self e fs))
  ])
]

-- An entry stays where another one is inserted.
insert_entry-cases :
    (e g f : Entry) (fs : List Entry)
    → Memᴰ g (f ∷ fs)
    → Memᴰ g (f ∷ insert_entry e fs)
    → Memᴰ g (insert_entry e (f ∷ fs))
unfolding insert_entry
insert_entry-cases e g f fs here deeper = elim (Bool-cases (same_entry e f)) [
  | inl same ↦ rw same here
  | inr other ↦ rw other (elim (Bool-cases (precedes e.name f.name)) [
    | inl first ↦ rw first (Memᴰ.tail here)
    | inr later ↦ rw later deeper
  ])
]

insert_entry-Memᴰ : (e g : Entry) (es : List Entry) → Memᴰ g es → Memᴰ g (insert_entry e es)
insert_entry-Memᴰ e g [] m = elim m [ ]
insert_entry-Memᴰ e g (f ∷ fs) (Memᴰ.head h) =
    insert_entry-cases e g f fs (Memᴰ.head h) (Memᴰ.head h)
insert_entry-Memᴰ e g (f ∷ fs) (Memᴰ.tail t) =
    insert_entry-cases e g f fs (Memᴰ.tail t) (Memᴰ.tail (insert_entry-Memᴰ e g fs t))

add_entry-Memᴰ :
    (o : Option Bytes) (g : Entry) (es : List Entry) → Memᴰ g es → Memᴰ g (add_entry o es)
add_entry-Memᴰ none g es m = m
add_entry-Memᴰ (some []) g es m = m
add_entry-Memᴰ (some (c ∷ cs)) g es m = insert_entry-Memᴰ (entry_of (c ∷ cs)) g es m

-- A file of the disk, by the part of its path behind the directory's.
pub entries_of-Memᴰ :
    (dir : Bytes) (n : ℕ) (ns contents : Bytes) (fs : List (Bytes × Bytes))
    → contains b'/' (n ∷ ns) ≡ false
    → lookup (dir ++ (n ∷ ns)) fs ≡ some contents
    → Memᴰ (file_entry (n ∷ ns)) (entries_of dir fs)
unfolding entries_of
entries_of-Memᴰ dir n ns contents [] h e = cc
entries_of-Memᴰ dir n ns contents ((q, c) ∷ fs) h e =
    elim (Bool-cases (bytes_equal q (dir ++ (n ∷ ns)))) [
      | inl same ↦
          rw
            (
              bytes_equal_eq q (dir ++ (n ∷ ns)) same,
              below-append dir (n ∷ ns),
              entry_of_name (n ∷ ns) h,
            )
            (insert_entry-Memᴰ_self (file_entry (n ∷ ns)) (entries_of dir fs))
      | inr other ↦
          add_entry-Memᴰ (below dir q) (file_entry (n ∷ ns)) (entries_of dir fs)
            (entries_of-Memᴰ dir n ns contents fs h (rw other at e))
    ]
