-- ===== src/Lru/Search.antt =====
-- The search of the cache (NamingServerModule.c: `accessStorageServerCache`).
use nfs_mock.Base.{
  ℕ, zero, suc, ◌≤◌, ◌≡◌, refl, ap, Bool, true, false, ◌||◌, Bool-cases, inl, inr, some, List, [],
  ◌∷◌, ◌++◌, arith, ◌==◌, Bytes, length, str_eq,
}
use nfs_mock.Run.{done}
use nfs_mock.Lru.{Ptr, null, Node, Heap, load, search_cache}
use nfs_mock.Lru.Cells.{Cell, first_at, last_at, Links}

module _ {V : Type 0} where
  pub load-node :
      (h : Heap V) (p : Ptr) (n : Node V) → (p == null) ≡ false → h p ≡ some n → load h p ≡ done n
  unfolding load
  load-node h p n address at = rw (address, at, load)

  abbrev pub has_key : Bytes → List (Cell V) → Bool
  has_key key [] = false
  has_key key (x ∷ xs) = str_eq x.key key || has_key key xs

  -- How a search of at most so many rounds ends, from the address before the entries: at the end of the
  -- entries, at the first one with the key, or at one that has not been compared.
  pub data SearchEnd (key : Bytes) (prev : Ptr) (xs : List (Cell V)) : ℕ → Ptr × Ptr → Type 0 where
    absent :
        {left : ℕ} (r : Ptr × Ptr)
        → has_key key xs ≡ false
        → length xs ≤ left
        → r ≡ (last_at prev xs, null)
        → SearchEnd key prev xs left r
    found :
        {left : ℕ} (r : Ptr × Ptr) (front : List (Cell V)) (x : Cell V) (back : List (Cell V))
        → xs ≡ front ++ x ∷ back
        → has_key key front ≡ false
        → str_eq x.key key ≡ true
        → r ≡ (last_at prev front, x.address)
        → SearchEnd key prev xs left r
    stopped :
        {left : ℕ} (r : Ptr × Ptr) (front : List (Cell V)) (x : Cell V) (back : List (Cell V))
        → xs ≡ front ++ x ∷ back
        → has_key key front ≡ false
        → length front ≡ left
        → r ≡ (last_at prev front, x.address)
        → SearchEnd key prev xs left r

  pub later :
      {key : Bytes} {prev : Ptr} {left : ℕ} {r : Ptr × Ptr} (x : Cell V) (xs : List (Cell V))
      → str_eq x.key key ≡ false
      → SearchEnd key x.address xs left r
      → SearchEnd key prev (x ∷ xs) (suc left) r
  later x xs miss (absent r none_has le e) = absent r (rw miss none_has) (omega arith) e
  later x xs miss (found r front y back split before hit e) =
      found r (x ∷ front) y back (ap (λ l. x ∷ l) split) (rw miss before) hit e
  later x xs miss (stopped r front y back split before count e) =
      stopped r (x ∷ front) y back (ap (λ l. x ∷ l) split) (rw miss before) (ap suc count) e

  pub search_cache-SearchEnd :
      (left : ℕ) (h : Heap V) (key : Bytes) (prev : Ptr) (xs : List (Cell V))
      → Links h prev xs
      → (r : Ptr × Ptr) × (search_cache left h key prev (first_at xs) ≡ done r)
        × SearchEnd key prev xs left r
  unfolding search_cache
  search_cache-SearchEnd zero h key prev [] l =
      ((prev, null), refl, absent _ refl (omega arith) refl)
  search_cache-SearchEnd zero h key prev (x ∷ xs) l =
      ((prev, x.address), refl, stopped _ [] x xs refl refl refl refl)
  search_cache-SearchEnd (suc left) h key prev [] l =
      ((prev, null), refl, absent _ refl (omega arith) refl)
  search_cache-SearchEnd (suc left) h key prev (x ∷ xs) (address, at, apart, l) =
      elim (Bool-cases (str_eq x.key key)) [
        | inl hit ↦
            ((prev, x.address), rw (address, at, hit) refl, found _ [] x xs refl refl hit refl)
        | inr miss ↦
            let (r, e, s) = search_cache-SearchEnd left h key x.address xs l in
            (r, rw (address, at, miss) e, later x xs miss s)
      ]
