-- ===== src/Tests/World.antt =====
-- A box, a differ, a hash and an IPFS that satisfy what the theorems ask of the real ones.
use ipfs_share.Prelude.{
  ◌≡◌, refl, List, [], ◌∷◌, ◌++◌, Bytes, Option, none, some, length, take, drop, bytes_equal,
  bytes_equal_refl, if◌then◌else◌, arith, length-append, length-take, take-append, drop-append,
}
use ipfs_share.Crypto.SecretBox.{SecretBox, IsSecretBox}
use ipfs_share.Crypto.FileBoxer.{FileBoxer}
use ipfs_share.Fs.Meta.{FileMeta}
use ipfs_share.Fs.External.{External, IsExternal, Differ, DiffNode, File}
use ipfs_share.Tests.Wire.{Wire, nat, bytes, via, pair, opt, list, codec, codec-IsCodec}

-- The tag of a box is its key's first 16 bytes.
abbrev zeros : Bytes
zeros = 0 ∷ 0 ∷ 0 ∷ 0 ∷ 0 ∷ 0 ∷ 0 ∷ 0 ∷ 0 ∷ 0 ∷ 0 ∷ 0 ∷ 0 ∷ 0 ∷ 0 ∷ 0 ∷ []

abbrev tag : Bytes → Bytes
tag key = take 16 (key ++ zeros)

length-tag : (key : Bytes) → length (tag key) ≡ 16
length-tag key = length-take 16 (key ++ zeros) (omega (arith, length-append key zeros))

abbrev pub tagged : SecretBox
tagged = record {
  seal_box = λ m nonce key. tag key ++ m;
  open_box = λ c nonce key. if bytes_equal (take 16 c) (tag key) then some (drop 16 c) else none;
}

pub tagged-IsSecretBox : IsSecretBox tagged
tagged-IsSecretBox = record {
  opens = λ m nonce key.
      rw (take-append 16 (tag key) m (length-tag key))
        (rw (bytes_equal_refl (tag key)) (rw (drop-append 16 (tag key) m (length-tag key)) refl));
  overhead = λ m nonce key. omega (arith, length-append (tag key) m, length-tag key);
}

-- A diff that is the new text.
abbrev whole_text : Differ
whole_text = record {
  Diffs = Bytes;
  diff_main = λ a b. b;
  patch_apply = λ d a. d;
  coerced = λ d. d;
}

abbrev boxer_wire : Wire FileBoxer
boxer_wire = via (λ b. b.key) (λ k. record { key = k }) (λ b. refl) bytes

abbrev meta_wire : Wire FileMeta
meta_wire =
    via (λ m. (m.file_name, (m.ipfs_hash, (m.data_key, m.write_access_list))))
      (λ (n, (h, (k, l))). record {
        file_name = n;
        ipfs_hash = h;
        data_key = k;
        write_access_list = l;
      })
      (λ m. refl) (pair bytes (pair bytes (pair boxer_wire (opt (list nat)))))

abbrev file_wire : Wire File
file_wire =
    via (λ f. (f.meta, (f.pending_changes, (f.data_path, (f.meta_path, f.orig_path)))))
      (λ (m, (p, (d, (t, o)))). record {
        meta = m;
        pending_changes = p;
        data_path = d;
        meta_path = t;
        orig_path = o;
      })
      (λ f. refl) (pair meta_wire (pair (opt meta_wire) (pair bytes (pair bytes bytes))))

abbrev node_wire : Wire (DiffNode Bytes)
node_wire =
    via (λ n. (n.hash, (n.diff, (n.next, n.next_boxer))))
      (λ (h, (d, (n, b))). record { hash = h; diff = d; next = n; next_boxer = b }) (λ n. refl)
      (pair bytes (pair bytes (pair bytes boxer_wire)))

abbrev pub metas_wire : Wire (Option (List (Option FileMeta)))
metas_wire = opt (list (opt meta_wire))

-- The hash of some contents is the contents behind a 1; nothing is served under another.
abbrev served : Bytes → Option Bytes
served [] = none
served (_ ∷ c) = some c

abbrev pub world : External
world = record {
  box = tagged;
  differ = whole_text;
  keccak256 = λ b. 1 ∷ b;
  address_string = λ a. a ∷ [];
  ipfs_get = served;
  ipfs_add = λ c. some (1 ∷ c);
  file_codec = codec file_wire;
  meta_codec = codec meta_wire;
  node_codec = codec node_wire;
  metas_codec = codec metas_wire;
}

pub world-IsExternal : IsExternal world
world-IsExternal = record {
  box_laws = tagged-IsSecretBox;
  differ_laws = record { patches = λ a b u v. refl };
  meta_laws = codec-IsCodec meta_wire;
  file_laws = codec-IsCodec file_wire;
  node_laws = record { round_trip = (codec-IsCodec node_wire).round_trip };
  metas_laws = codec-IsCodec metas_wire;
  found = λ c h e. cc;
}
