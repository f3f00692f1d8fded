-- ===== src/Fs/External.antt =====
-- What client/fs calls and does not implement: go-diff, Keccak-256, encoding/json's codecs for the
-- program's structs, and the IPFS node; with client/fs/diffnode.go, whose node is such a struct.
use ipfs_share.Prelude.{◌≡◌, Bytes, is_utf8, true, Option, some}
use ipfs_share.Crypto.SecretBox.{SecretBox, IsSecretBox}
use ipfs_share.Crypto.FileBoxer.{FileBoxer}
use ipfs_share.Fs.Meta.{Address, FileMeta, Slice}

-- `json.Marshal` and `json.Unmarshal` at one type.
pub record Codec (A : Type 0) : Type 0 where
  pub marshal : A → Option Bytes
  pub unmarshal : Bytes → Option A

-- Marshalling succeeds, and unmarshalling gives the value back.
pub record IsCodec {A : Type 0} (c : Codec A) : Type 0 where
  pub round_trip : (a : A) → (bs : Bytes) × (c.marshal a ≡ some bs) × (c.unmarshal bs ≡ some a)

-- diffmatchpatch: `DiffMain(a, b, true)`, and `PatchApply(PatchMake(d), a)` as one call. `coerced`
-- is what encoding/json keeps of a diff, whose texts are strings: it puts U+FFFD in place of what
-- is not valid UTF-8.
pub record Differ : Type 1 where
  pub Diffs : Type 0
  pub diff_main : Bytes → Bytes → Diffs
  pub patch_apply : Diffs → Bytes → Bytes
  pub coerced : Diffs → Diffs

-- Between two texts in valid UTF-8, a diff leads from the first to the second, and JSON keeps it.
pub record IsDiffer (d : Differ) : Type 0 where
  pub patches :
      (a b : Bytes)
      → is_utf8 a ≡ true
      → is_utf8 b ≡ true
      → d.patch_apply (d.coerced (d.diff_main a b)) a ≡ b

-- `DiffNode`. A nil `Hash` is an empty one: the source only compares it.
pub record DiffNode (Diffs : Type 0) : Type 0 where
  pub hash : Bytes
  pub diff : Diffs
  pub next : Bytes
  pub next_boxer : FileBoxer

-- What is left of a node that went through JSON. `Hash` and the key are in base64 there, and `Next`
-- is a hash of IPFS in ASCII.
abbrev pub through_json : (d : Differ) → DiffNode d.Diffs → DiffNode d.Diffs
through_json d n = record n { diff = d.coerced n.diff }

pub record IsNodeCodec (d : Differ) (c : Codec (DiffNode d.Diffs)) : Type 0 where
  pub round_trip :
      (n : DiffNode d.Diffs)
      → (bs : Bytes) × (c.marshal n ≡ some bs) × (c.unmarshal bs ≡ some (through_json d n))

-- `File` of file.go, as its metadata are saved.
pub record File : Type 0 where
  pub meta : FileMeta
  pub pending_changes : Option FileMeta
  pub data_path : Bytes
  pub meta_path : Bytes
  pub orig_path : Bytes

pub record External : Type 1 where
  pub box : SecretBox
  pub differ : Differ
  pub keccak256 : Bytes → Bytes
  pub address_string : Address → Bytes
  -- What `Get` of a hash downloads, and the hash that `Add` of some contents returns.
  pub ipfs_get : Bytes → Option Bytes
  pub ipfs_add : Bytes → Option Bytes
  pub file_codec : Codec File
  pub meta_codec : Codec FileMeta
  pub node_codec : Codec (DiffNode differ.Diffs)
  -- A list of metas is a list of pointers, so an entry may be nil.
  pub metas_codec : Codec (Slice (Option FileMeta))

pub record IsExternal (x : External) : Type 0 where
  pub box_laws : IsSecretBox x.box
  pub differ_laws : IsDiffer x.differ
  pub meta_laws : IsCodec x.meta_codec
  pub file_laws : IsCodec x.file_codec
  pub node_laws : IsNodeCodec x.differ x.node_codec
  pub metas_laws : IsCodec x.metas_codec
  -- What was added is found under the hash that `Add` returned.
  pub found : (c h : Bytes) → x.ipfs_add c ≡ some h → x.ipfs_get h ≡ some c
