-- ===== src/Fs/Repo/Loading.antt =====
-- What a member loads from IPFS under a group key.
use ipfs_share.Prelude.{◌≡◌, ◌∙◌, ap, ◌++◌, Bytes, Option, some, ok, length}
use ipfs_share.Crypto.SymmetricKey.{SymmetricKey, box_seal}
use ipfs_share.Crypto.SymmetricKey.RoundTrip.{box_open-box_seal}
use ipfs_share.Fs.Disk.{Disk, ◌>>=◌, pure, require, not_decoded}
use ipfs_share.Fs.Disk.Laws.{bind_ok}
use ipfs_share.Fs.Meta.{Slice, elements, FileMeta}
use ipfs_share.Fs.External.{External, IsExternal}
use ipfs_share.Fs.Storage.{Storage, download_and_decrypt_with_symmetric_key}
use ipfs_share.Fs.Storage.Downloads.{Usable, Outside, download_symmetric}
use ipfs_share.Fs.Repo.{get_group_file_metas_from_ipfs}

module _ (x : External) where
  -- Where a list of metas was sealed under the key and added to IPFS, it is loaded under the hash.
  pub load_sealed :
      (laws : IsExternal x) (s : Storage) (hash nonce bs : Bytes) (boxer : SymmetricKey)
      (metas : Slice (Option FileMeta)) (d : Disk)
      → length nonce ≡ 24
      → x.metas_codec.unmarshal bs ≡ some metas
      → x.ipfs_add (box_seal x.box boxer nonce bs) ≡ some hash
      → Usable (s.tmp_path ++ hash) d
      → (d' : Disk) × (get_group_file_metas_from_ipfs x s hash boxer d ≡ (ok (elements metas), d'))
        × Outside (s.tmp_path ++ hash) d d'
  unfolding get_group_file_metas_from_ipfs
  load_sealed laws s hash nonce bs boxer metas d l decodes added u =
      let c = box_seal x.box boxer nonce bs in
      let (d', e, o) =
        download_symmetric x boxer hash c bs s d (laws.found c hash added)
          (box_open-box_seal x.box laws.box_laws boxer nonce bs l) u in
      (
        d',
        bind_ok (download_and_decrypt_with_symmetric_key x boxer hash s)
              (λ contents. do
                metas' ← require (x.metas_codec.unmarshal contents) not_decoded
                pure (elements metas'))
              d e
            ∙ ap
                (λ (r : Option (Slice (Option FileMeta))).
                  (require r not_decoded >>= λ m. pure (elements m)) d')
                decodes,
        o,
      )
