-- ===== src/Group/Hash.antt =====
-- The group's IPFS hash, as the members pass it on under the group key.
use ipfs_share.Prelude.{◌<◌, ◌≡◌, ap, List, Bytes, none, lt→ltb, length, arith, ok, err}
use ipfs_share.Crypto.SecretBox.{SecretBox, IsSecretBox}
use ipfs_share.Crypto.SymmetricKey.{box_seal, box_open}
use ipfs_share.Crypto.SymmetricKey.RoundTrip.{box_open-box_seal, length-box_seal}
use ipfs_share.Fs.Meta.{Address}
use ipfs_share.Group.{Group, not_decrypted, set_ipfs_hash, update, refreshed, decrypted_hash}

module _ (b : SecretBox) where
  -- `Update` with a hash that does not decrypt under the group's key changes nothing.
  pub update_undecryptable :
      (name : Bytes) (members : List Address) (enc : Bytes) (g : Group)
      → 0 < length enc
      → box_open b g.boxer enc ≡ none
      → update b name members enc g ≡ (err not_decrypted, g)
  unfolding update
  update_undecryptable name members enc g h e =
      rw (lt→ltb 0 (length enc) h) (ap (decrypted_hash b name members enc g) e)

  -- Under the laws of the box: with a hash that was sealed under the group's key and a nonce of 24
  -- bytes, both Update and SetIpfsHash succeed and store the hash and its box; Update also takes
  -- over the name and the members, and neither touches the key or the address.
  pub update_sealed :
      (laws : IsSecretBox b) (name : Bytes) (members : List Address) (nonce hash : Bytes)
      (g : Group)
      → length nonce ≡ 24
      → let enc = box_seal b g.boxer nonce hash in
        (update b name members enc g ≡ (
          ok tt,
          record g { name = name; members = members; ipfs_hash = hash; encrypted_ipfs_hash = enc },
        ))
        × (set_ipfs_hash b enc g
            ≡ (ok tt, record g { ipfs_hash = hash; encrypted_ipfs_hash = enc }))
  unfolding update refreshed decrypted_hash set_ipfs_hash
  update_sealed laws name members nonce hash g l = (
    rw
        (lt→ltb 0 (length (box_seal b g.boxer nonce hash))
          (omega (arith, length-box_seal b laws g.boxer nonce hash l)))
        (ap (decrypted_hash b name members (box_seal b g.boxer nonce hash) g)
          (box_open-box_seal b laws g.boxer nonce hash l)),
    rw (box_open-box_seal b laws g.boxer nonce hash l, set_ipfs_hash),
  )
