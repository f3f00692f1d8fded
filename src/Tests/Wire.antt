-- ===== src/Tests/Wire.antt =====
-- A wire format that stands in for encoding/json: fields one after the other, lengths in front.
use ipfs_share.Prelude.{
  ℕ, zero, suc, ◌≡◌, refl, ap, ◌∙◌, List, [], ◌∷◌, ◌++◌, Bytes, Option, none, some, length, take,
  drop, take-append, drop-append,
}
use ipfs_share.Fs.External.{Codec, IsCodec}

-- How a value is written in front of some bytes, and read back from them.
pub record Wire (A : Type 0) : Type 0 where
  pub write : A → Bytes → Bytes
  pub read : Bytes → Option (A × Bytes)
  pub reads : (a : A) (rest : Bytes) → read (write a rest) ≡ some (a, rest)

abbrev read_nat : Bytes → Option (ℕ × Bytes)
read_nat [] = none
read_nat (b ∷ bs) = some (b, bs)

abbrev pub nat : Wire ℕ
nat = record { write = ◌∷◌; read = read_nat; reads = λ a rest. refl }

abbrev read_bytes : Bytes → Option (Bytes × Bytes)
read_bytes [] = none
read_bytes (n ∷ bs) = some (take n bs, drop n bs)

abbrev pub bytes : Wire Bytes
bytes = record {
  write = λ bs rest. length bs ∷ (bs ++ rest);
  read = read_bytes;
  reads = λ bs rest.
      rw (take-append (length bs) bs rest refl, drop-append (length bs) bs rest refl) refl;
}

module _ {A B : Type 0} (f : A → B) (g : B → A) (back : (a : A) → g (f a) ≡ a) (w : Wire B) where
  abbrev via_read : Option (B × Bytes) → Option (A × Bytes)
  via_read none = none
  via_read (some (b, bs)) = some (g b, bs)

  abbrev pub via : Wire A
  via = record {
    write = λ a rest. w.write (f a) rest;
    read = λ bs. via_read (w.read bs);
    reads = λ a rest. ap via_read (w.reads (f a) rest) ∙ ap (λ (t : A). some (t, rest)) (back a);
  }

module _ {A B : Type 0} (v : Wire A) (w : Wire B) where
  abbrev pair_second : A → Option (B × Bytes) → Option ((A × B) × Bytes)
  pair_second a none = none
  pair_second a (some (b, bs)) = some ((a, b), bs)

  abbrev pair_read : Option (A × Bytes) → Option ((A × B) × Bytes)
  pair_read none = none
  pair_read (some (a, bs)) = pair_second a (w.read bs)

  abbrev pub pair : Wire (A × B)
  pair = record {
    write = λ p rest. v.write p.0 (w.write p.1 rest);
    read = λ bs. pair_read (v.read bs);
    reads = λ p rest.
        ap pair_read (v.reads p.0 (w.write p.1 rest)) ∙ ap (pair_second p.0) (w.reads p.1 rest);
  }

module _ {A : Type 0} (w : Wire A) where
  abbrev opt_some : Option (A × Bytes) → Option (Option A × Bytes)
  opt_some none = none
  opt_some (some (a, bs)) = some (some a, bs)

  abbrev opt_read : Bytes → Option (Option A × Bytes)
  opt_read [] = none
  opt_read (zero ∷ bs) = some (none, bs)
  opt_read (suc _ ∷ bs) = opt_some (w.read bs)

  abbrev opt_write : Option A → Bytes → Bytes
  opt_write none rest = 0 ∷ rest
  opt_write (some a) rest = 1 ∷ w.write a rest

  pub opt_reads : (o : Option A) (rest : Bytes) → opt_read (opt_write o rest) ≡ some (o, rest)
  opt_reads none rest = refl
  opt_reads (some a) rest = ap opt_some (w.reads a rest)

  abbrev pub opt : Wire (Option A)
  opt = record { write = opt_write; read = opt_read; reads = opt_reads }

  abbrev cons_read : A → Option (List A × Bytes) → Option (List A × Bytes)
  cons_read a none = none
  cons_read a (some (as', bs)) = some (a ∷ as', bs)

  abbrev next_read :
      Option (A × Bytes) → (Bytes → Option (List A × Bytes)) → Option (List A × Bytes)
  next_read none k = none
  next_read (some (a, bs)) k = cons_read a (k bs)

  abbrev items_read : ℕ → Bytes → Option (List A × Bytes)
  items_read zero bs = some ([], bs)
  items_read (suc n) bs = next_read (w.read bs) (items_read n)

  abbrev items_write : List A → Bytes → Bytes
  items_write [] rest = rest
  items_write (a ∷ as') rest = w.write a (items_write as' rest)

  pub items_reads :
      (xs : List A) (rest : Bytes) → items_read (length xs) (items_write xs rest) ≡ some (xs, rest)
  items_reads [] rest = refl
  items_reads (a ∷ xs) rest =
      ap (λ o. next_read o (items_read (length xs))) (w.reads a (items_write xs rest))
      ∙ ap (cons_read a) (items_reads xs rest)

  abbrev list_read : Bytes → Option (List A × Bytes)
  list_read [] = none
  list_read (n ∷ bs) = items_read n bs

  abbrev pub list : Wire (List A)
  list = record {
    write = λ xs rest. length xs ∷ items_write xs rest;
    read = list_read;
    reads = items_reads;
  }

  abbrev whole : Option (A × Bytes) → Option A
  whole none = none
  whole (some (a, bs)) = some a

  -- The codec of a wire format.
  abbrev pub codec : Codec A
  codec = record { marshal = λ a. some (w.write a []); unmarshal = λ bs. whole (w.read bs) }

  pub unmarshal-write : (a : A) → codec.unmarshal (w.write a []) ≡ some a
  unmarshal-write a = ap whole (w.reads a [])

  pub codec-IsCodec : IsCodec codec
  codec-IsCodec = record { round_trip = λ a. (w.write a [], refl, ap whole (w.reads a [])) }
