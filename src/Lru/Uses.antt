-- ===== src/Lru/Uses.antt =====
-- The cache in use: lookups and additions in any order, from `initializeLRUCache` on
-- (NamingServerModule.c: `initializeLRUCache`, `accessStorageServerCache`, `addServertoCache`).
use nfs_mock.Base.{
  ℕ, ◌≤◌, ◌<◌, ◌≡◌, refl, sym, ap, ◌∙◌, Bool, true, false, none, List, [], arith, ◌==◌, Bytes,
  length,
}
use mathlib.Core.Path.{subst}
use nfs_mock.Run.{done, done_injective, ◌>>=◌}
use nfs_mock.Lru.{
  to_front, Ptr, null, Cache, initialize_lru_cache, search_cache, access_storage_server_cache,
  add_server_to_cache,
}
use nfs_mock.Lru.Cells.{Cell, Links, first_at}
use nfs_mock.Lru.Search.{SearchEnd, absent, found, stopped, search_cache-SearchEnd}
use nfs_mock.Lru.Recency.{
  hit, touch, push, contents, Holds, length-contents, touch_found, length-touch,
}
use nfs_mock.Lru.Lookup.{to_front-found, access-touch}
use nfs_mock.Lru.Addition.{add-push}

module _ {V : Type 0} where
  -- The caches that lookups and additions make of an initialised one, each with the items that the
  -- specification makes of no items.
  pub data Used (start : Cache V) (capacity : ℕ) : Cache V → List (Bytes × V) → Type 0 where
    opened : Used start capacity (initialize_lru_cache start capacity) []
    looked_up :
        {c : Cache V} {items : List (Bytes × V)} (key : Bytes) (answer : Bool) (c' : Cache V)
        → Used start capacity c items
        → access_storage_server_cache c key ≡ done (answer, c')
        → Used start capacity c' (touch key items)
    added :
        {c : Cache V} {items : List (Bytes × V)} (fresh : Ptr) (key : Bytes) (value : V)
        (c' : Cache V)
        → Used start capacity c items
        → (fresh == null) ≡ false
        → c.heap fresh ≡ none
        → add_server_to_cache fresh c key value ≡ done c'
        → Used start capacity c' (push capacity key value items)

  sound :
      (start : Cache V) (capacity : ℕ) (c : Cache V) (items : List (Bytes × V))
      → 0 < capacity
      → capacity ≤ 11
      → Used start capacity c items
      → Holds c items × (length items ≤ capacity) × (c.cache_capacity ≡ capacity)
  unfolding initialize_lru_cache
  sound start capacity c items pos le opened = (
    record { cells = []; linked = tt; at_head = refl; same_items = refl; counted = refl },
    omega arith,
    refl,
  )
  sound start capacity c items pos le (looked_up {c = d} {items = before} key answer _ u run) =
      let (holds, few, same) = sound start capacity d before pos le u in
      let (c', run', after, kept) = access-touch d key before holds (omega (arith, le)) in
      let e : c' ≡ c = ap (λ p. p.1) (done_injective (sym run' ∙ run)) in
      (
        subst (λ x. Holds x (touch key before)) e after,
        omega (arith, length-touch key before),
        sym (ap (λ (x : Cache V). x.cache_capacity) e) ∙ kept ∙ same,
      )
  sound start capacity c items pos le
        (added {c = d} {items = before} fresh key value _ u address unused run) =
      let (holds, few, same) = sound start capacity d before pos le u in
      let (c', run', after, kept, bound) =
        add-push d fresh key value before holds (omega (arith, same, pos))
          (omega (arith, same, few)) address unused in
      let e : c' ≡ c = done_injective (sym run' ∙ run) in
      (
        subst (λ n. Holds c (push n key value before)) same
            (subst (λ x. Holds x (push d.cache_capacity key value before)) e after),
        subst (λ n. length (push n key value before) ≤ n) same bound,
        sym (ap (λ (x : Cache V). x.cache_capacity) e) ∙ kept ∙ same,
      )

  -- In every cache that lookups and additions make of one that is initialised with room for one to
  -- eleven items, a lookup ends and says whether the list of the specification has the path, an
  -- addition at an unused address ends, each leaves a cache for the list that the specification
  -- makes, and the cache holds no more items than it has room for.
  pub Used-answers :
      (start : Cache V) (capacity : ℕ) (c : Cache V) (items : List (Bytes × V)) (key : Bytes)
      (fresh : Ptr) (path : Bytes) (value : V)
      → 0 < capacity
      → capacity ≤ 11
      → Used start capacity c items
      → (fresh == null) ≡ false
      → c.heap fresh ≡ none
      → (c₁ : Cache V) × (c₂ : Cache V) × (access_storage_server_cache c key
          ≡ done (hit key items, c₁))
        × Used start capacity c₁ (touch key items)
        × (add_server_to_cache fresh c path value ≡ done c₂)
        × Used start capacity c₂ (push capacity path value items)
        × (length items ≤ capacity)
        × (c.cache_size ≡ length items)
  Used-answers start capacity c items key fresh path value pos le u address unused =
      let (holds, few, same) = sound start capacity c items pos le u in
      let (c₁, run, _, _) = access-touch c key items holds (omega (arith, le)) in
      let (c₂, run', _, _, _) =
        add-push c fresh path value items holds (omega (arith, same, pos))
          (omega (arith, same, few)) address unused in
      (
        c₁,
        c₂,
        run,
        looked_up key (hit key items) c₁ u run,
        run',
        added fresh path value c₂ u address unused run',
        few,
        holds.counted ∙ sym (length-contents holds.cells) ∙ ap length holds.same_items,
      )

  by_stop :
      (c : Cache V) (key : Bytes) (xs : List (Cell V)) (r : Ptr × Ptr)
      → Links c.heap null xs
      → c.head ≡ first_at xs
      → c.cache_size ≡ length xs
      → 11 < length xs
      → hit key (contents xs) ≡ false
      → SearchEnd key null xs 11 r
      → (c' : Cache V) × (to_front c r.0 r.1 ≡ done (true, c'))
  by_stop c key xs r l head size more miss (absent _ none_has le end) =
      absurd (omega (arith, more, le))
  by_stop c key xs r l head size more miss (found _ front x back split before same end) =
      let (h, _) = touch_found key front x back before same in
      absurd (cc (ap (λ ys. hit key (contents ys)) split, h, miss))
  by_stop c key xs r l head size more miss (stopped _ front x back split before count end) =
      let (c', run, _, _) =
        to_front-found c front x back (subst (λ ys. Links c.heap null ys) split l)
          (head ∙ ap first_at split) (size ∙ ap length split) in
      (c', ap (λ p. to_front c p.0 p.1) end ∙ run)

  -- The search passes over an entry that it has not compared: in a cache with more than eleven items, a
  -- lookup of a path that none of them has is reported as a hit.
  pub access_false-hit :
      (c : Cache V) (key : Bytes) (items : List (Bytes × V))
      → Holds c items
      → hit key items ≡ false
      → 11 < length items
      → (c' : Cache V) × (access_storage_server_cache c key ≡ done (true, c'))
  unfolding access_storage_server_cache
  access_false-hit c key items holds miss more =
      let xs = holds.cells in
      let (r, e, s) = search_cache-SearchEnd 11 c.heap key null xs holds.linked in
      let (c', run) =
        by_stop c key xs r holds.linked holds.at_head holds.counted
          (omega (arith, length-contents xs, ap length holds.same_items))
          (ap (hit key) holds.same_items ∙ miss) s in
      (
        c',
        ap (λ m. m >>= λ p. to_front c p.0 p.1)
              (ap (search_cache 11 c.heap key null) holds.at_head ∙ e)
            ∙ run,
      )
