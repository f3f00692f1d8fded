-- ===== src/Fs/Disk/Directory.antt =====
-- `ioutil.ReadDir` on a disk, and paths with repeated slashes. A directory stands for itself by the
-- files below it: the disk keeps no empty one.
pub mod Reading
use ipfs_share.Prelude.{
  ℕ, List, [], ◌∷◌, Bool, true, false, ◌&&◌, ◌||◌, Option, none, some, Bytes, bytes_equal, ◌==◌,
  ltb, if◌then◌else◌, ok, err,
}
use ipfs_share.Fs.Disk.{Disk, Action, not_read}

-- `os.FileInfo`, by what the source asks of it.
pub record Entry : Type 0 where
  pub name : Bytes
  pub is_dir : Bool

-- What stands behind the directory `dir` in a path.
abbrev pub below : Bytes → Bytes → Option Bytes
below [] path = some path
below (a ∷ dir) [] = none
below (a ∷ dir) (b ∷ path) = if a == b then below dir path else none

-- The entry of a directory that a path below it makes.
abbrev pub entry_of : Bytes → Entry
entry_of [] = record { name = []; is_dir = false }
entry_of (c ∷ cs) =
    let e = entry_of cs in
    if c == b'/' then record { name = []; is_dir = true } else record e { name = c ∷ e.name }

precedes : Bytes → Bytes → Bool
precedes [] [] = false
precedes [] (b ∷ bs) = true
precedes (a ∷ as') [] = false
precedes (a ∷ as') (b ∷ bs) = ltb a b || ((a == b) && precedes as' bs)

abbrev same_kind : Bool → Bool → Bool
same_kind true b = b
same_kind false true = false
same_kind false false = true

abbrev pub same_entry : Entry → Entry → Bool
same_entry e f = bytes_equal e.name f.name && same_kind e.is_dir f.is_dir

-- Sorted by name, each entry once.
insert_entry : Entry → List Entry → List Entry
insert_entry e [] = e ∷ []
insert_entry e (f ∷ fs) =
    let rest = insert_entry e fs in
    if same_entry e f then f ∷ fs else if precedes e.name f.name then e ∷ (f ∷ fs) else f ∷ rest

abbrev add_entry : Option Bytes → List Entry → List Entry
add_entry none es = es
add_entry (some []) es = es
add_entry (some (c ∷ cs)) es = insert_entry (entry_of (c ∷ cs)) es

pub entries_of : Bytes → List (Bytes × Bytes) → List Entry
entries_of dir [] = []
entries_of dir ((path, c) ∷ fs) = add_entry (below dir path) (entries_of dir fs)

-- `ioutil.ReadDir`, for a path that ends in a slash.
unfoldable pub read_dir : Bytes → Action (List Entry)
unfolding entries_of insert_entry precedes
read_dir dir d = if d.denied dir then (err not_read, d) else (ok (entries_of dir d.files), d)

abbrev before_slash : ℕ → Bytes → Bytes
before_slash c [] = c ∷ []
before_slash c (d ∷ ds) = if (c == b'/') && (d == b'/') then d ∷ ds else c ∷ (d ∷ ds)

-- A path as the system takes it: `//` is `/`.
abbrev pub clean : Bytes → Bytes
clean [] = []
clean (c ∷ cs) = before_slash c (clean cs)
