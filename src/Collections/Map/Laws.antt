-- ===== src/Collections/Map/Laws.antt =====
-- The map refines a function from keys to values: its methods are the function's updates.
use ipfs_share.Prelude.{
  ◌+◌, ◌≡◌, refl, List, [], ◌∷◌, Option, none, Eq, Bool, false, ◌||◌, if◌then◌else◌, length, arith,
}
use ipfs_share.Collections.Map.{Map, put, get, delete, put_entry, get_entry, delete_entry, count}

module _ {ℓ} {K V : Type ℓ} ⦃e : Eq K⦄ where
  abbrev has_key : K → List (K × Option V) → Bool
  has_key k [] = false
  has_key k ((j, v) ∷ es) = e.equal j k || has_key k es

  abbrev UniqueKeys : List (K × Option V) → Type 0
  UniqueKeys [] = Unit
  UniqueKeys ((j, v) ∷ es) = (has_key j es ≡ false) × UniqueKeys es

  get_entry-put_entry :
      (j k : K) (v : Option V) (es : List (K × Option V))
      → get_entry j (put_entry k v es) ≡ (if e.equal k j then v else get_entry j es)
  unfolding get_entry put_entry
  get_entry-put_entry j k v [] = refl
  get_entry-put_entry j k v ((i, w) ∷ es) =
      ground
        (arith, e.equal_iff i k, e.equal_iff i j, e.equal_iff k j, get_entry-put_entry j k v es)

  get_entry_missing :
      (k : K) (es : List (K × Option V)) → has_key k es ≡ false → get_entry k es ≡ none
  unfolding get_entry
  get_entry_missing k [] h = refl
  get_entry_missing k ((j, w) ∷ es) h = ground (arith, get_entry_missing k es)

  get_entry-delete_entry :
      (j k : K) (es : List (K × Option V))
      → UniqueKeys es
      → get_entry j (delete_entry k es) ≡ (if e.equal k j then none else get_entry j es)
  unfolding get_entry delete_entry
  get_entry-delete_entry j k [] u = ground arith
  get_entry-delete_entry j k ((i, w) ∷ es) u = ground (
    arith,
    e.equal_iff i k,
    e.equal_iff i j,
    e.equal_iff k j,
    get_entry_missing i es,
    get_entry-delete_entry j k es u.1,
  )

  has_key-put_entry :
      (j k : K) (v : Option V) (es : List (K × Option V))
      → has_key j (put_entry k v es) ≡ (e.equal k j || has_key j es)
  unfolding put_entry
  has_key-put_entry j k v [] = refl
  has_key-put_entry j k v ((i, w) ∷ es) =
      ground (arith, e.equal_iff i k, e.equal_iff i j, e.equal_iff k j, has_key-put_entry j k v es)

  has_key-delete_entry :
      (j k : K) (es : List (K × Option V))
      → has_key j es ≡ false
      → has_key j (delete_entry k es) ≡ false
  unfolding delete_entry
  has_key-delete_entry j k [] h = refl
  has_key-delete_entry j k ((i, w) ∷ es) h = ground (arith, has_key-delete_entry j k es)

  put_entry-UniqueKeys :
      (k : K) (v : Option V) (es : List (K × Option V))
      → UniqueKeys es
      → UniqueKeys (put_entry k v es)
  unfolding put_entry
  put_entry-UniqueKeys k v [] u = (refl, tt)
  put_entry-UniqueKeys k v ((i, w) ∷ es) u = ground (
    arith,
    e.equal_iff i k,
    e.equal_iff k i,
    has_key-put_entry i k v es,
    put_entry-UniqueKeys k v es u.1,
  )

  delete_entry-UniqueKeys :
      (k : K) (es : List (K × Option V)) → UniqueKeys es → UniqueKeys (delete_entry k es)
  unfolding delete_entry
  delete_entry-UniqueKeys k [] u = tt
  delete_entry-UniqueKeys k ((i, w) ∷ es) u =
      ground (arith, has_key-delete_entry i k es, delete_entry-UniqueKeys k es u.1)

  length-put_entry :
      (k : K) (v : Option V) (es : List (K × Option V))
      → length (put_entry k v es) ≡ (if has_key k es then length es else length es + 1)
  unfolding put_entry
  length-put_entry k v [] = omega arith
  length-put_entry k v ((i, w) ∷ es) = ground (arith, length-put_entry k v es)

  length-delete_entry :
      (k : K) (es : List (K × Option V))
      → length es
        ≡ (if has_key k es then length (delete_entry k es) + 1 else length (delete_entry k es))
  unfolding delete_entry
  length-delete_entry k [] = refl
  length-delete_entry k ((i, w) ∷ es) = ground (arith, length-delete_entry k es)

  -- What Go's map type gives: no key stands in the map twice.
  abbrev pub IsMap : Map K V → Type 0
  IsMap m = UniqueKeys m.entries

  -- From a map without repeated keys, Put keeps it so, changes the map as a function at its key
  -- only, and counts a new key once.
  pub put_refines :
      (k : K) (v : Option V) (m : Map K V)
      → IsMap m
      → IsMap (put k v m)
        × ((j : K) → get j (put k v m) ≡ (if e.equal k j then v else get j m))
        × (count (put k v m) ≡ (if has_key k m.entries then count m else count m + 1))
  unfolding put get count
  put_refines k v m u = (
    put_entry-UniqueKeys k v m.entries u,
    λ j. get_entry-put_entry j k v m.entries,
    length-put_entry k v m.entries,
  )

  -- From a map without repeated keys, Delete keeps it so, returns the value at its key, and
  -- removes that key and no other, also from the count.
  pub delete_refines :
      (k : K) (m : Map K V)
      → IsMap m
      → let (m', v) = delete k m in
        IsMap m'
        × (v ≡ get k m)
        × ((j : K) → get j m' ≡ (if e.equal k j then none else get j m))
        × (count m ≡ (if has_key k m.entries then count m' + 1 else count m'))
  unfolding delete get count
  delete_refines k m u = (
    delete_entry-UniqueKeys k m.entries u,
    refl,
    λ j. get_entry-delete_entry j k m.entries u,
    length-delete_entry k m.entries,
  )

  -- The form in which other components use `put`.
  pub get-put :
      (j k : K) (v : Option V) (m : Map K V)
      → get j (put k v m) ≡ (if e.equal k j then v else get j m)
  unfolding get put
  get-put j k v m = get_entry-put_entry j k v m.entries
