-- ===== src/Fs/Storage/Kept.antt =====
-- What a download that succeeds has found on IPFS, and what it leaves as it was: every file that is
-- not below the path of temporary files.
use ipfs_share.Prelude.{
  ◌≡◌, sym, ap, ◌∙◌, subst, ◌∷◌, ◌++◌, Bytes, bytes_equal, bytes_equal_refl, Bool, true, false,
  some, Result, ok, err, if◌then◌else◌,
}
use ipfs_share.Crypto.FileBoxer.{FileBoxer, Outcome, done, failed, panicked, exhausted, open_file}
use ipfs_share.Crypto.SymmetricKey.{SymmetricKey, box_open}
use ipfs_share.Fs.Disk.{
  Disk, FsError, not_read, ipfs_failed, not_decrypted, pure, require, set_file, create, write,
  read_file, create_and_write_file, lookup, without,
}
use ipfs_share.Fs.Disk.Laws.{bind_inv, require_inv, written}
use ipfs_share.Fs.External.{External}
use ipfs_share.Fs.Storage.{
  Storage, fetch, download_tmp_file, download_and_decrypt_with_file_boxer,
  download_and_decrypt_with_symmetric_key, opened,
}
use ipfs_share.Fs.Storage.Downloads.{Outside, tmp_file, removed-Outside}

-- `p` is not below the path of temporary files.
abbrev pub IsApart : Storage → Bytes → Type 0
IsApart s p = (h : Bytes) → bytes_equal (s.tmp_path ++ h) p ≡ false

abbrev pub Kept : Storage → Disk → Disk → Type 0
Kept s d d' = (p : Bytes) → IsApart s p → lookup p d'.files ≡ lookup p d.files

pub Kept-trans : (s : Storage) (d d1 d2 : Disk) → Kept s d d1 → Kept s d1 d2 → Kept s d d2
Kept-trans s d d1 d2 k l p a = l p a ∙ k p a

Kept-Outside :
    (s : Storage) (h : Bytes) {d d' : Disk} → Outside (s.tmp_path ++ h) d d' → Kept s d d'
Kept-Outside s h o p a = o.others p (a h)

refused_inv :
    (e : FsError) (d d1 d' : Disk) (b : Bool)
    → ◌≡◌ {A = Result FsError (Unit {0}) × Disk} (if b then (err e, d) else (ok tt, d1)) (ok tt, d')
    → d' ≡ d1
refused_inv e d d1 d' true q = cc
refused_inv e d d1 d' false q = cc

create_and_write_file_inv :
    (p c : Bytes) (d d' : Disk) → create_and_write_file p c d ≡ (ok tt, d') → d' ≡ written p c d
unfolding create_and_write_file create write
create_and_write_file_inv p c d d' e =
    let (_, d1, created, wrote) = bind_inv (create p) (λ _. write p c) d e in
    refused_inv _ _ _ _ (d1.full p) wrote
    ∙ ap (set_file p c) (refused_inv _ _ _ _ (d.denied p) created)

pub read_file_inv :
    (p c : Bytes) (d d' : Disk)
    → read_file p d ≡ (ok c, d')
    → (lookup p d.files ≡ some c) × (d' ≡ d)
unfolding read_file
read_file_inv p c d d' e = at (d.denied p) e
  where
    at :
        (denied : Bool)
        → ◌≡◌ {A = Result FsError Bytes × Disk}
            (if denied then (err not_read, d) else require (lookup p d.files) not_read d)
            (ok c, d')
        → (lookup p d.files ≡ some c) × (d' ≡ d)
    at true q = cc
    at false q = require_inv (lookup p d.files) not_read q

opened_inv :
    (p m : Bytes) (r : Outcome (Unit {0}) × Bytes) (d d' : Disk)
    → opened p r d ≡ (ok m, d')
    → (r ≡ (done tt, m)) × (d' ≡ record d { files = without p d.files })
opened_inv p m (done _, out) d d' e = (cc, cc)
opened_inv p m (failed, out) d d' e = cc
opened_inv p m (panicked, out) d d' e = cc
opened_inv p m (exhausted, out) d d' e = cc

module _ (x : External) (s : Storage) where
  fetch_inv :
      (h p : Bytes) (d d' : Disk)
      → fetch x h p d ≡ (ok tt, d')
      → (c : Bytes) × (x.ipfs_get h ≡ some c) × (d' ≡ written p c d)
  unfolding fetch
  fetch_inv h p d d' e =
      let (c, d1, gets, writes) =
        bind_inv (require (x.ipfs_get h) ipfs_failed) (create_and_write_file p) d e in
      let (served, same) = require_inv (x.ipfs_get h) ipfs_failed gets in
      (c, served, create_and_write_file_inv p c d1 d' writes ∙ ap (written p c) same)

  -- What was fetched is what is read.
  fetched_inv :
      (h p b : Bytes) (d d1 d2 : Disk)
      → fetch x h p d ≡ (ok tt, d1)
      → read_file p d1 ≡ (ok b, d2)
      → (x.ipfs_get h ≡ some b) × (d2 ≡ written p b d)
  fetched_inv h p b d d1 d2 e q =
      let (c, served, is) = fetch_inv h p d d1 e in
      let (holds, same) = read_file_inv p b d1 d2 q in
      let found : lookup p (written p c d).files ≡ some c = rw (bytes_equal_refl p) in
      let here : lookup p d1.files ≡ some c = ap (λ (t : Disk). lookup p t.files) is ∙ found in
      let eq : c ≡ b = cc in (served ∙ ap some eq, same ∙ is ∙ ap (λ t. written p t d) eq)

  pub download_inv :
      (boxer : FileBoxer) (h m : Bytes) (d d' : Disk)
      → download_and_decrypt_with_file_boxer x boxer h s d ≡ (ok m, d')
      → (c : Bytes) × (x.ipfs_get h ≡ some c)
        × (open_file x.box boxer c ≡ (done tt, m))
        × Kept s d d'
  unfolding download_and_decrypt_with_file_boxer download_tmp_file
  download_inv boxer h m d d' e =
      let (p, d1, fetched, e1) = bind_inv (download_tmp_file x h s) _ d e in
      let (c, d2, reads, e2) = bind_inv (read_file p) _ d1 e1 in
      let (_, d0, fetches, named) =
        bind_inv (fetch x h (tmp_file h s)) (λ _. pure (tmp_file h s)) d fetched in
      let path : tmp_file h s ≡ p = cc in
      let there : d0 ≡ d1 = cc in
      let (served, is) =
        fetched_inv h p c d d1 d2
          (subst (λ q. fetch x h q d ≡ (ok tt, d1)) path (fetches ∙ ap (λ t. (ok tt, t)) there))
          reads in
      let (opens, ends) = opened_inv p m (open_file x.box boxer c) d2 d' e2 in
      (
        c,
        served,
        opens,
        Kept-Outside s (b'/' ∷ h) (
            subst (λ q. Outside q d d') (sym path)
              (subst (Outside p d)
                (sym (ends ∙ ap (λ (t : Disk). record t { files = without p t.files }) is))
                (removed-Outside x p c d))),
      )

  pub symmetric_inv :
      (boxer : SymmetricKey) (h m : Bytes) (d d' : Disk)
      → download_and_decrypt_with_symmetric_key x boxer h s d ≡ (ok m, d')
      → Kept s d d'
  unfolding download_and_decrypt_with_symmetric_key
  symmetric_inv boxer h m d d' e =
      let p : Bytes = s.tmp_path ++ h in
      let (_, d1, fetches, e1) = bind_inv (fetch x h p) _ d e in
      let (c, d2, reads, e2) = bind_inv (read_file p) _ d1 e1 in
      let (_, is) = fetched_inv h p c d d1 d2 fetches reads in
      let (_, ends) = require_inv (box_open x.box boxer c) not_decrypted e2 in
      Kept-Outside s h (
        subst (Outside p d)
          (sym (ends ∙ ap (λ (t : Disk). record t { files = without p t.files }) is))
          (removed-Outside x p c d))
