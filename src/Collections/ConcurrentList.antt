-- ===== src/Collections/ConcurrentList.antt =====
-- collections/list.go. Each method holds the lock throughout, so it is one step.
use ipfs_share.Prelude.{
  ℕ, zero, suc, ◌+◌, ◌≤◌, ◌≡◌, refl, List, [], ◌∷◌, ◌++◌, Option, none, some, length, leb,
  if◌then◌else◌, length-append, arith,
}

pub record ConcurrentList {ℓ} (A : Type ℓ) : Type ℓ where
  pub items : List A

module _ {ℓ} {A : Type ℓ} where
  pub new_concurrent_list : ConcurrentList A
  new_concurrent_list = record { items = [] }

  pub add : A → ConcurrentList A → ConcurrentList A
  add item l = record { items = l.items ++ item ∷ [] }

  -- What `Iterator` sends on its channel.
  pub iterator : ConcurrentList A → List A
  iterator l = l.items

  element : List A → ℕ → Option A
  element [] i = none
  element (x ∷ xs) zero = some x
  element (x ∷ xs) (suc i) = element xs i

  -- nil past the end. An index below zero, where the source panics, is not modelled.
  pub get : ℕ → ConcurrentList A → Option A
  unfolding element
  get i l = if leb (length l.items) i then none else element l.items i

  pub count : ConcurrentList A → ℕ
  count l = length l.items

  element-append : (xs : List A) (x : A) → element (xs ++ x ∷ []) (length xs) ≡ some x
  unfolding element
  element-append [] x = refl
  element-append (y ∷ xs) x = element-append xs x

  element-append_left :
      (xs ys : List A) (i : ℕ) → suc i ≤ length xs → element (xs ++ ys) i ≡ element xs i
  unfolding element
  element-append_left [] ys i h = absurd (omega arith)
  element-append_left (x ∷ xs) ys zero h = refl
  element-append_left (x ∷ xs) ys (suc i) h = element-append_left xs ys i (omega arith)

  -- Add puts its item at the index Count, which grows by one, and moves no other item.
  add_lem :
      (x : A) (l : ConcurrentList A)
      → (get (count l) (add x l) ≡ some x)
        × (count (add x l) ≡ count l + 1)
        × ((i : ℕ) → suc i ≤ count l → get i (add x l) ≡ get i l)
  unfolding get count add
  add_lem x l = (
    ground (arith, element-append l.items x, length-append l.items (x ∷ [])),
    length-append l.items (x ∷ []),
    λ i h. ground (arith, element-append_left l.items (x ∷ []) i h, length-append l.items (x ∷ [])),
  )
