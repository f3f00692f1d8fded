-- ===== src/Fs/Disk/Laws.antt =====
-- Files read back as they were written.
use ipfs_share.Prelude.{
  ◌≡◌, refl, ap, ◌∙◌, Bool, true, false, Option, some, Bytes, bytes_equal, bytes_equal_iff,
  bytes_equal_refl, if◌then◌else◌, Result, ok, err, panic, arith, [], ◌∷◌, List, none,
}
use ipfs_share.Fs.Disk.{
  Disk, FsError, Action, proceed, check, not_read, create, write, set_file, require, ◌>>=◌, lookup,
  without, create_and_write_file, copy_file, read_file,
}

-- A chain of calls goes on from a result, with the disk that came with it, and stops at an error.
pub bind_ok :
    {A B : Type 0} {a : A} {d' : Disk} (m : Action A) (f : A → Action B) (d : Disk)
    → m d ≡ (ok a, d')
    → (m >>= f) d ≡ f a d'
bind_ok m f d e = ap (λ (t : Result FsError _ × Disk). proceed t f) e

pub bind_err :
    {A B : Type 0} {e : FsError} {d' : Disk} (m : Action A) (f : A → Action B) (d : Disk)
    → m d ≡ (err e, d')
    → (m >>= f) d ≡ (err e, d')
bind_err m f d e = ap (λ (t : Result FsError _ × Disk). proceed t f) e

pub bind_panic :
    {A B : Type 0} {d' : Disk} (m : Action A) (f : A → Action B) (d : Disk)
    → m d ≡ (panic, d')
    → (m >>= f) d ≡ (panic, d')
bind_panic m f d e = ap (λ (t : Result FsError _ × Disk). proceed t f) e

-- The calls where the system lets them through.
pub create_lem : (p : Bytes) (d : Disk) → d.denied p ≡ false → create p d ≡ (ok tt, set_file p [] d)
unfolding create
create_lem p d h = rw h

pub write_lem : (p c : Bytes) (d : Disk) → d.full p ≡ false → write p c d ≡ (ok tt, set_file p c d)
unfolding write
write_lem p c d h = rw h

pub read_file_lem :
    (p c : Bytes) (d : Disk)
    → d.denied p ≡ false
    → lookup p d.files ≡ some c
    → read_file p d ≡ (ok c, d)
unfolding read_file
read_file_lem p c d h e = rw h (rw (e, require))

-- The disk after `create_and_write_file`: the old file is cut to nothing before the new contents.
abbrev pub written : Bytes → Bytes → Disk → Disk
written p c d = set_file p c (set_file p [] d)

pub create_and_write_file_lem :
    (p c : Bytes) (d : Disk)
    → d.denied p ≡ false
    → d.full p ≡ false
    → create_and_write_file p c d ≡ (ok tt, written p c d)
unfolding create_and_write_file
create_and_write_file_lem p c d h f =
    bind_ok (create p) (λ _. write p c) d (create_lem p d h) ∙ write_lem p c (set_file p [] d) f

pub lookup-written :
    (p c q : Bytes) (d : Disk)
    → lookup q (written p c d).files ≡ (if bytes_equal p q then some c else lookup q d.files)
lookup-written p c q d = ground arith

read_file-written_ne :
    (p c q : Bytes) (d : Disk)
    → bytes_equal p q ≡ false
    → (read_file q (written p c d)).0 ≡ (read_file q d).0
unfolding read_file
read_file-written_ne p c q d n = rw n (same_result (d.denied q) (lookup q d.files))
  where
    same_result :
        (denied : Bool) (found : Option Bytes)
        → (if denied
            then (err not_read, written p c d)
            else require found not_read (written p c d)).0
          ≡ (if denied then (err not_read, d) else require found not_read d).0
    same_result true found = refl
    same_result false none = refl
    same_result false (some x) = refl

-- Where the system lets the file be created and written, it reads back as written, and every other
-- path is as before.
pub read_file-create_and_write_file :
    (p c : Bytes) (d : Disk)
    → d.denied p ≡ false
    → d.full p ≡ false
    → let (r, d') = create_and_write_file p c d in
      (r ≡ ok tt)
      × ((read_file p d').0 ≡ ok c)
      × ((q : Bytes) → bytes_equal p q ≡ false → (read_file q d').0 ≡ (read_file q d).0)
read_file-create_and_write_file p c d h f = rw (create_and_write_file_lem p c d h f) (
  refl,
  rw (read_file_lem p c (written p c d) h (rw (bytes_equal_refl p))),
  (λ q n. read_file-written_ne p c q d n),
)

pub lookup-without :
    (p q : Bytes) (fs : List (Bytes × Bytes))
    → lookup q (without p fs) ≡ (if bytes_equal p q then none else lookup q fs)
lookup-without p q [] = ground arith
lookup-without p q ((r, c) ∷ fs) =
    ground
      (arith, bytes_equal_iff r p, bytes_equal_iff r q, bytes_equal_iff p q, lookup-without p q fs)

-- Where the source is read and another target can be written, CopyFile makes the target a copy of
-- the source and leaves the source as it was.
pub copy_file_lem :
    (src dst c : Bytes) (d : Disk)
    → read_file src d ≡ (ok c, d)
    → bytes_equal dst src ≡ false
    → d.denied dst ≡ false
    → d.full dst ≡ false
    → let (r, d') = copy_file src dst d in
      (r ≡ ok tt) × ((read_file dst d').0 ≡ ok c) × ((read_file src d').0 ≡ ok c)
unfolding copy_file create_and_write_file
copy_file_lem src dst c d read ne h f = rw (copied) (
  refl,
  rw (read_file_lem dst c (written dst c d) h (rw (bytes_equal_refl dst))),
  read_file-written_ne dst c src d ne ∙ ap (λ (r : Result FsError Bytes × Disk). r.0) read,
)
  where
    copied : copy_file src dst d ≡ (ok tt, written dst c d)
    copied =
        bind_ok (read_file src) (λ c'. create_and_write_file dst c') d read
        ∙ create_and_write_file_lem dst c d h f

-- A chain that ends in a result went on from one.
pub bind_inv :
    {A B : Type 0} {b : B} {d'' : Disk} (m : Action A) (f : A → Action B) (d : Disk)
    → (m >>= f) d ≡ (ok b, d'')
    → (a : A) × (d' : Disk) × (m d ≡ (ok a, d')) × (f a d' ≡ (ok b, d''))
bind_inv {A} {B} {b} {d''} m f d e = proceed_inv (m d) refl e
  where
    proceed_inv :
        (r : Result FsError A × Disk)
        → m d ≡ r
        → proceed r f ≡ (ok b, d'')
        → (a : A) × (d' : Disk) × (m d ≡ (ok a, d')) × (f a d' ≡ (ok b, d''))
    proceed_inv (ok a, d') e' q = (a, d', e', q)
    proceed_inv (err e', d') _ q = cc
    proceed_inv (panic, d') _ q = cc

pub check_inv :
    {d d' : Disk} (b : Bool) (e : FsError) → check b e d ≡ (ok tt, d') → (b ≡ true) × (d' ≡ d)
check_inv true e q = (refl, cc)
check_inv false e q = cc

pub require_inv :
    {A : Type 0} {a : A} {d d' : Disk} (o : Option A) (e : FsError)
    → require o e d ≡ (ok a, d')
    → (o ≡ some a) × (d' ≡ d)
require_inv none e q = cc
require_inv (some a) e q = (cc, cc)
