-- ===== src/Collections/Map.antt =====
-- collections/map.go. Each method holds the lock from its first access to its last, so it is one
-- step. The entries stand in the order of their keys' first `Put`; Go's `range` gives them in any
-- order. A value is an `interface{}`: `none` is nil, also where it is stored.
pub mod Laws
use ipfs_share.Prelude.{ℕ, List, [], ◌∷◌, Option, none, Eq, if◌then◌else◌, length}

pub record Map {ℓ} (K : Type ℓ) (V : Type ℓ) : Type ℓ where
  pub entries : List (K × Option V)

module _ {ℓ} {K V : Type ℓ} where
  -- `NewConcurrentMap`.
  unfoldable pub new_concurrent_map : Map K V
  new_concurrent_map = record { entries = [] }

  pub reset : Map K V → Map K V
  reset m = record { entries = [] }

  values : List (K × Option V) → List (Option V)
  values [] = []
  values ((k, v) ∷ es) = v ∷ values es

  keys : List (K × Option V) → List K
  keys [] = []
  keys ((k, v) ∷ es) = k ∷ keys es

  -- `VIterator`, `KIterator` and `KVIterator`, by what they send on their channel.
  unfoldable pub v_iterator : Map K V → List (Option V)
  unfolding values
  v_iterator m = values m.entries

  pub k_iterator : Map K V → List K
  unfolding keys
  k_iterator m = keys m.entries

  pub kv_iterator : Map K V → List (K × Option V)
  kv_iterator m = m.entries

  pub to_list : Map K V → List (Option V)
  unfolding values
  to_list m = values m.entries

  pub count : Map K V → ℕ
  count m = length m.entries

module _ {ℓ} {K V : Type ℓ} ⦃e : Eq K⦄ where
  -- `data[key] = value`
  put_entry : K → Option V → List (K × Option V) → List (K × Option V)
  put_entry k v [] = (k, v) ∷ []
  put_entry k v ((j, w) ∷ es) = if e.equal j k then (j, v) ∷ es else (j, w) ∷ put_entry k v es

  -- `data[key]`, nil where the key is missing.
  get_entry : K → List (K × Option V) → Option V
  get_entry k [] = none
  get_entry k ((j, w) ∷ es) = if e.equal j k then w else get_entry k es

  -- `delete(data, key)`
  delete_entry : K → List (K × Option V) → List (K × Option V)
  delete_entry k [] = []
  delete_entry k ((j, w) ∷ es) = if e.equal j k then es else (j, w) ∷ delete_entry k es

  unfoldable pub put : K → Option V → Map K V → Map K V
  unfolding put_entry
  put k v m = record { entries = put_entry k v m.entries }

  unfoldable pub get : K → Map K V → Option V
  unfolding get_entry
  get k m = get_entry k m.entries

  pub delete : K → Map K V → Map K V × Option V
  unfolding delete_entry get_entry
  delete k m = (record { entries = delete_entry k m.entries }, get_entry k m.entries)
