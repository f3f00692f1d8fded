-- ===== src/Fs/Disk.antt =====
-- What the program uses of the operating system, and utils/fileutils.go over it. A disk maps paths
-- to contents; `denied` says where the system refuses to create or to read, `full` where a write
-- fails. A call returns its result and the disk as it leaves it.
pub mod Directory
pub mod Laws
use ipfs_share.Prelude.{
  ℕ, List, [], ◌∷◌, Bool, true, false, not, Option, none, some, Bytes, bytes_equal, if◌then◌else◌,
  Result, ok, err, panic,
}

pub record Disk : Type 0 where
  pub files : List (Bytes × Bytes)
  pub denied : Bytes → Bool
  pub full : Bytes → Bool

pub data FsError : Type 0 where
  not_created not_written not_read not_removed : FsError
  ipfs_failed not_decrypted not_decoded not_encoded random_failed : FsError
  nil_access_list no_write_access has_write_access target_has_no_access : FsError
  wrong_next wrong_prev_hash : FsError
  -- An account contract that cannot be bound.
  no_account_contract : FsError
  -- The model's own: the fuel of a download ran out.
  out_of_fuel : FsError

abbrev pub Action : Type 0 → Type 0
Action A = Disk → Result FsError A × Disk

-- How a chain of calls goes on after one of them.
abbrev pub proceed :
    {A B : Type 0} → Result FsError A × Disk → (A → Action B) → Result FsError B × Disk
proceed (ok a, d) f = f a d
proceed (err e, d) f = (err e, d)
proceed (panic, d) f = (panic, d)

infixl 5 ◌>>=◌ ◌>>◌
abbrev pub ◌>>=◌ : {A B : Type 0} → Action A → (A → Action B) → Action B
◌>>=◌ m f d = proceed (m d) f

abbrev pub ◌>>◌ : {A B : Type 0} → Action A → Action B → Action B
m >> k = m >>= λ _. k

abbrev pub pure : {A : Type 0} → A → Action A
pure a d = (ok a, d)

abbrev pub fail : {A : Type 0} → FsError → Action A
fail e d = (err e, d)

abbrev pub crash : {A : Type 0} → Action A
crash d = (panic, d)

abbrev pub require : {A : Type 0} → Option A → FsError → Action A
require none e = fail e
require (some a) e = pure a

abbrev pub check : Bool → FsError → Action (Unit {0})
check true e = pure tt
check false e = fail e

abbrev pub lookup : Bytes → List (Bytes × Bytes) → Option Bytes
lookup p [] = none
lookup p ((q, c) ∷ fs) = if bytes_equal q p then some c else lookup p fs

abbrev pub without : Bytes → List (Bytes × Bytes) → List (Bytes × Bytes)
without p [] = []
without p ((q, c) ∷ fs) = if bytes_equal q p then without p fs else (q, c) ∷ without p fs

abbrev pub set_file : Bytes → Bytes → Disk → Disk
set_file p c d = record d { files = (p, c) ∷ d.files }

-- `os.Create`: a new empty file, or an old one cut to nothing.
unfoldable pub create : Bytes → Action (Unit {0})
create p d = if d.denied p then (err not_created, d) else (ok tt, set_file p [] d)

-- `f.Write` on the file just created.
unfoldable pub write : Bytes → Bytes → Action (Unit {0})
write p c d = if d.full p then (err not_written, d) else (ok tt, set_file p c d)

-- `ioutil.ReadFile`.
unfoldable pub read_file : Bytes → Action Bytes
read_file p d = if d.denied p then (err not_read, d) else require (lookup p d.files) not_read d

-- `os.Remove`; its error is only logged.
abbrev pub remove : Bytes → Action (Unit {0})
remove p d = (ok tt, record d { files = without p d.files })

-- `CreateAndWriteFile`. Syncing and closing change nothing here.
unfoldable pub create_and_write_file : Bytes → Bytes → Action (Unit {0})
create_and_write_file p c = do create p; write p c

-- `FileExists`.
unfoldable pub file_exists : Bytes → Disk → Bool
file_exists p d = elim (lookup p d.files) [ none ↦ false | some _ ↦ true ]

-- `CopyFile`: `io.Copy` from one open file to another.
pub copy_file : Bytes → Bytes → Action (Unit {0})
copy_file src dst = do contents ← read_file src; create dst; write dst contents
