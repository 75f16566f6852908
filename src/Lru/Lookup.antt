-- ===== src/Lru/Lookup.antt =====
-- A lookup moves an item to the front of the list that the pointers implement (NamingServerModule.c:
-- `accessStorageServerCache`).
use nfs_mock.Base.{
  ℕ, ◌≤◌, ◌≡◌, refl, sym, ap, ◌∙◌, true, false, List, [], ◌∷◌, ◌++◌, arith, length-append, ◌==◌,
  Bytes, length,
}
use mathlib.Core.Path.{subst}
use nfs_mock.Run.{Run, done, ◌>>=◌}
use nfs_mock.Lru.{Ptr, null, Heap, Cache, search_cache, access_storage_server_cache, to_front}
use nfs_mock.Lru.Cells.{Cell, first_at, last_at, Links}
use nfs_mock.Lru.Search.{SearchEnd, absent, found, stopped, search_cache-SearchEnd}
use nfs_mock.Lru.Front.{unlink-Links, taken_out, link_front-Links}
use nfs_mock.Lru.Recency.{hit, touch, contents, Holds, touch_found, touch_absent, length-contents}

module _ {V : Type 0} where
  last_at-ne_null :
      (h : Heap V) (prev : Ptr) (a : Cell V) (front : List (Cell V)) (xs : List (Cell V))
      → Links h prev (a ∷ (front ++ xs))
      → (last_at a.address front == null) ≡ false
  last_at-ne_null h prev a [] xs (na, ea, oa, l) = na
  last_at-ne_null h prev a (b ∷ front) xs (na, ea, oa, l) = last_at-ne_null h a.address b front xs l

  -- The hit of an entry that stands anywhere in the list.
  pub to_front-found :
      (c : Cache V) (front : List (Cell V)) (x : Cell V) (back : List (Cell V))
      → Links c.heap null (front ++ x ∷ back)
      → c.head ≡ first_at (front ++ x ∷ back)
      → c.cache_size ≡ length (front ++ x ∷ back)
      → (c' : Cache V) × (to_front c (last_at null front) x.address ≡ done (true, c'))
        × Holds c' ((x.key, x.value) ∷ contents (front ++ back))
        × (c'.cache_capacity ≡ c.cache_capacity)
  unfolding to_front
  to_front-found c [] x back (nx, ex, ox, l) head size = (
    c,
    rw nx refl,
    record {
      cells = x ∷ back;
      linked = (nx, ex, ox, l);
      at_head = head;
      same_items = refl;
      counted = size;
    },
    refl,
  )
  to_front-found c (a ∷ front) x back l head size =
      let (g, cut, l', same) = unlink-Links c.heap null a front x back l in
      let (nx, ex, out) = taken_out c.heap null (a ∷ front) x back l in
      let (g', put, l'', _) =
        link_front-Links g x a _ _ (front ++ back) nx (same x.address out ∙ ex) out l' in
      (
        record c { heap = g'; head = x.address },
        rw (nx, last_at-ne_null c.heap null a front (x ∷ back) l, cut, head, put) refl,
        record {
          cells = x ∷ a ∷ (front ++ back);
          linked = l'';
          at_head = refl;
          same_items = refl;
          counted = omega (arith, size, length-append front (x ∷ back), length-append front back);
        },
        refl,
      )

  -- what a lookup makes of the cells, once a search has ended that has passed over no entry
  pub to_front-touch :
      {left : ℕ} (c : Cache V) (key : Bytes) (xs : List (Cell V)) (r : Ptr × Ptr)
      → Links c.heap null xs
      → c.head ≡ first_at xs
      → c.cache_size ≡ length xs
      → length xs ≤ left
      → SearchEnd key null xs left r
      → (c' : Cache V) × (to_front c r.0 r.1 ≡ done (hit key (contents xs), c'))
        × Holds c' (touch key (contents xs))
        × (c'.cache_capacity ≡ c.cache_capacity)
  unfolding to_front
  to_front-touch c key xs r l head size le (absent _ none_has k end) =
      let (h, t) = touch_absent key xs none_has in
      (
        c,
        rw (end, h) refl,
        record { cells = xs; linked = l; at_head = head; same_items = sym t; counted = size },
        refl,
      )
  to_front-touch c key xs r l head size le (found _ front x back split before same end) =
      let (h, t) = touch_found key front x back before same in
      let (c', run, holds, kept) =
        to_front-found c front x back (subst (λ ys. Links c.heap null ys) split l)
          (head ∙ ap first_at split) (size ∙ ap length split) in
      (
        c',
        ap (λ p. to_front c p.0 p.1) end
            ∙ run
            ∙ ap (λ b. done (b, c')) (sym (ap (λ ys. hit key (contents ys)) split ∙ h)),
        subst (λ items. Holds c' items) (sym (ap (λ ys. touch key (contents ys)) split ∙ t)) holds,
        kept,
      )
  to_front-touch c key xs r l head size le (stopped _ front x back split before count end) =
      absurd (omega (arith, ap length split, length-append front (x ∷ back)))

  -- any search that ends so, for a cache that holds the items
  pub lookup-touch :
      {left : ℕ} (c : Cache V) (key : Bytes) (items : List (Bytes × V)) (holds : Holds c items)
      (r : Ptr × Ptr) (search : Run (Ptr × Ptr))
      → length items ≤ left
      → search ≡ done r
      → SearchEnd key null holds.cells left r
      → (c' : Cache V) × ((search >>= λ p. to_front c p.0 p.1) ≡ done (hit key items, c'))
        × Holds c' (touch key items)
        × (c'.cache_capacity ≡ c.cache_capacity)
  lookup-touch c key items holds r search le e end =
      let xs = holds.cells in
      let (c', run, after, kept) =
        to_front-touch c key xs r holds.linked holds.at_head holds.counted
          (omega (arith, length-contents xs, ap length holds.same_items)) end in
      (
        c',
        ap (λ m. m >>= λ p. to_front c p.0 p.1) e
            ∙ run
            ∙ ap (λ l. done (hit key l, c')) holds.same_items,
        subst (λ l. Holds c' (touch key l)) holds.same_items after,
        kept,
      )

  -- A cache that holds at most eleven items: a lookup ends, says whether there is an item with the
  -- path, and leaves a cache that holds the same items with that item moved to the front.
  pub access-touch :
      (c : Cache V) (key : Bytes) (items : List (Bytes × V))
      → Holds c items
      → length items ≤ 11
      → (c' : Cache V) × (access_storage_server_cache c key ≡ done (hit key items, c'))
        × Holds c' (touch key items)
        × (c'.cache_capacity ≡ c.cache_capacity)
  unfolding access_storage_server_cache
  access-touch c key items holds le =
      let (r, e, end) = search_cache-SearchEnd 11 c.heap key null holds.cells holds.linked in
      lookup-touch c key items holds r (search_cache 11 c.heap key null c.head) le
        (ap (search_cache 11 c.heap key null) holds.at_head ∙ e) end
