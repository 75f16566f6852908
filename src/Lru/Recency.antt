-- ===== src/Lru/Recency.antt =====
-- The cache as a list of paths and servers, most recently used first (NamingServerModule.c:
-- `LRUCache`).
use nfs_mock.Base.{
  ℕ, suc, ◌≤◌, ◌≡◌, refl, ap, Bool, true, false, ◌||◌, Bool-cases, inl, inr, List, [], ◌∷◌, ◌++◌,
  arith, ◌==◌, Bytes, length, str_eq, if◌then◌else◌,
}
use nfs_mock.Lru.{null, Cache}
use nfs_mock.Lru.Cells.{Cell, first_at, Links}
use nfs_mock.Lru.Search.{has_key}
use nfs_mock.Lru.Evict.{init, length-init}

-- The specification. Looking a path up moves it to the front.
module _ {V : Type 0} where
  unfoldable pub hit : Bytes → List (Bytes × V) → Bool
  hit key [] = false
  hit key ((k, v) ∷ items) = str_eq k key || hit key items

  -- the first item with the key in front of the others; a list without the key stays
  unfoldable pub bring : Bytes × V → List (Bytes × V) → List (Bytes × V)
  bring item [] = item ∷ []
  bring item (first ∷ items) = first ∷ item ∷ items

  unfoldable pub touch : Bytes → List (Bytes × V) → List (Bytes × V)
  unfolding hit bring
  touch key [] = []
  touch key ((k, v) ∷ items) =
      let rest = touch key items in
      if str_eq k key
      then (k, v) ∷ items
      else if hit key items
      then bring (k, v) rest
      else (k, v) ∷ items

  -- A new item in front; of a full list the last one goes.
  unfoldable pub push : (capacity : ℕ) → Bytes → V → List (Bytes × V) → List (Bytes × V)
  push capacity key v items =
      if length items == capacity then init ((key, v) ∷ items) else (key, v) ∷ items

  abbrev pub contents : List (Cell V) → List (Bytes × V)
  contents [] = []
  contents (x ∷ xs) = (x.key, x.value) ∷ contents xs

  -- The pointers of the cache link the items of the list.
  pub record Holds (c : Cache V) (items : List (Bytes × V)) : Type 0 where
    pub cells : List (Cell V)
    pub linked : Links c.heap null cells
    pub at_head : c.head ≡ first_at cells
    pub same_items : contents cells ≡ items
    pub counted : c.cache_size ≡ length cells

  length-bring :
      (item : Bytes × V) (items : List (Bytes × V)) → length (bring item items) ≡ suc (length items)
  unfolding bring
  length-bring item [] = refl
  length-bring item (first ∷ items) = refl

  pub length-touch :
      (key : Bytes) (items : List (Bytes × V)) → length (touch key items) ≡ length items
  unfolding touch
  length-touch key [] = refl
  length-touch key ((k, v) ∷ items) =
      ground (arith, length-touch key items, length-bring (k, v) (touch key items))

  pub touch_found :
      (key : Bytes) (front : List (Cell V)) (x : Cell V) (back : List (Cell V))
      → has_key key front ≡ false
      → str_eq x.key key ≡ true
      → (hit key (contents (front ++ x ∷ back)) ≡ true)
        × (touch key (contents (front ++ x ∷ back)) ≡ (x.key, x.value) ∷ contents (front ++ back))
  unfolding touch hit
  touch_found key [] x back before same = (rw same refl, rw same refl)
  touch_found key (y ∷ front) x back before same =
      let (h, t) = touch_found key front x back (ground arith) same in
      let miss : str_eq y.key key ≡ false = ground arith in (ground arith, rw (miss, h, t) refl)

  pub touch_absent :
      (key : Bytes) (xs : List (Cell V))
      → has_key key xs ≡ false
      → (hit key (contents xs) ≡ false) × (touch key (contents xs) ≡ contents xs)
  unfolding touch hit
  touch_absent key [] h = (refl, refl)
  touch_absent key (x ∷ xs) h =
      let (m, t) = touch_absent key xs (ground arith) in (ground arith, ground arith)

  pub length-contents : (xs : List (Cell V)) → length (contents xs) ≡ length xs
  length-contents [] = refl
  length-contents (x ∷ xs) = ap suc (length-contents xs)

  pub contents-init : (xs : List (Cell V)) → contents (init xs) ≡ init (contents xs)
  contents-init [] = refl
  contents-init (x ∷ []) = refl
  contents-init (x ∷ y ∷ xs) = ap (λ l. (x.key, x.value) ∷ l) (contents-init (y ∷ xs))

  pub length-push :
      (capacity : ℕ) (key : Bytes) (value : V) (items : List (Bytes × V))
      → length items ≤ capacity
      → length (push capacity key value items) ≤ capacity
  unfolding push
  length-push capacity key value items le = elim (Bool-cases (length items == capacity)) [
    | inl full ↦ rw full (omega (arith, length-init (key, value) items))
    | inr room ↦ rw room (ground arith)
  ]
