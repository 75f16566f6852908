-- ===== src/Lru/Addition.antt =====
-- An addition puts an item in front of the list that the pointers implement, and takes the last one
-- away when there is no room (NamingServerModule.c: `addServertoCache`).
use nfs_mock.Base.{
  ◌+◌, ◌≤◌, ◌<◌, ◌≡◌, refl, sym, ap, ◌∙◌, true, false, Bool-cases, inl, inr, none, some, List, [],
  ◌∷◌, arith, ◌==◌, Bytes, length,
}
use mathlib.Core.Path.{subst}
use nfs_mock.Run.{done}
use nfs_mock.Lru.{Ptr, null, Heap, Cache, write, add_server_to_cache}
use nfs_mock.Lru.Cells.{Cell, first_at, has, node_of, Links}
use nfs_mock.Lru.Evict.{init, length-init, remove_last-Links, Links-single, Links-cons}
use nfs_mock.Lru.Recency.{push, contents, Holds, length-contents, contents-init, length-push}

module _ {V : Type 0} where
  has_of_unused :
      (h : Heap V) (prev a : Ptr) (xs : List (Cell V))
      → Links h prev xs
      → h a ≡ none
      → has a xs ≡ false
  has_of_unused h prev a [] l unused = refl
  has_of_unused h prev a (x ∷ xs) (nx, ex, ox, l) unused =
      ground (arith, has_of_unused h x.address a xs l unused)

  -- what a new entry makes of the cells
  put_first :
      (c : Cache V) (x : Cell V) (xs : List (Cell V))
      → Links c.heap null xs
      → c.head ≡ first_at xs
      → c.cache_size ≡ length xs
      → 0 < c.cache_capacity
      → (x.address == null) ≡ false
      → has x.address xs ≡ false
      → (c' : Cache V) × (add_server_to_cache x.address c x.key x.value ≡ done c')
        × Holds c' (push c.cache_capacity x.key x.value (contents xs))
        × (c'.cache_capacity ≡ c.cache_capacity)
  unfolding add_server_to_cache push
  put_first c x [] l head size room address out =
      let empty : c.head ≡ null = head in
      let none_yet : c.cache_size ≡ 0 = size in
      let not_full : (0 == c.cache_capacity) ≡ false = ground arith in
      let linked : Links (write c.heap x.address (some (node_of x null null))) null (x ∷ []) =
        Links-single c.heap x address in
      (
        record c {
          heap = write c.heap x.address (some (node_of x null null));
          head = x.address;
          cache_size = c.cache_size + 1;
        },
        rw (empty, none_yet, not_full) refl,
        record {
          cells = x ∷ [];
          linked = linked;
          at_head = refl;
          same_items = rw not_full refl;
          counted = omega (arith, size);
        },
        refl,
      )
  put_first c x (y ∷ ys) l head size room address out =
      let (g, put, l') = Links-cons c.heap x y ys address out l in
      let first : c.head ≡ y.address = head in
      elim (Bool-cases (c.cache_size == c.cache_capacity)) [
        | inl full ↦
            let (g', cut, l'') =
              remove_last-Links (c.cache_size + 1) g null x y ys l' (omega (arith, size)) in
            let full' : (length (contents (y ∷ ys)) == c.cache_capacity) ≡ true =
              ap (λ n. n == c.cache_capacity) (sym (size ∙ sym (length-contents (y ∷ ys))))
              ∙ full in
            (
              record c { heap = g'; head = x.address },
              rw (first, put, full, cut) refl,
              record {
                cells = x ∷ init (y ∷ ys);
                linked = l'';
                at_head = refl;
                same_items = contents-init (x ∷ y ∷ ys) ∙ rw full' refl;
                counted = omega (arith, size, length-init y ys);
              },
              refl,
            )
        | inr not_full ↦
            let room' : (length (contents (y ∷ ys)) == c.cache_capacity) ≡ false =
              ap (λ n. n == c.cache_capacity) (sym (size ∙ sym (length-contents (y ∷ ys))))
              ∙ not_full in
            (
              record c { heap = g; head = x.address; cache_size = c.cache_size + 1 },
              rw (first, put, not_full) refl,
              record {
                cells = x ∷ y ∷ ys;
                linked = l';
                at_head = refl;
                same_items = rw room' refl;
                counted = omega (arith, size);
              },
              refl,
            )
      ]

  -- A cache with room for an item, which holds no more than it has room for, and an unused address: a
  -- path is put in, and the cache then holds it in front of the others, without the last one if there
  -- was no room, and no more than it has room for.
  pub add-push :
      (c : Cache V) (fresh : Ptr) (key : Bytes) (value : V) (items : List (Bytes × V))
      → Holds c items
      → 0 < c.cache_capacity
      → length items ≤ c.cache_capacity
      → (fresh == null) ≡ false
      → c.heap fresh ≡ none
      → (c' : Cache V) × (add_server_to_cache fresh c key value ≡ done c')
        × Holds c' (push c.cache_capacity key value items)
        × (c'.cache_capacity ≡ c.cache_capacity)
        × (length (push c.cache_capacity key value items) ≤ c.cache_capacity)
  add-push c fresh key value items holds some_room le address unused =
      let x : Cell V = record { address = fresh; key = key; value = value } in
      let (c', run, after, capacity) =
        put_first c x holds.cells holds.linked holds.at_head holds.counted some_room address
          (has_of_unused c.heap null fresh holds.cells holds.linked unused) in
      (
        c',
        run,
        subst (λ l. Holds c' (push c.cache_capacity key value l)) holds.same_items after,
        capacity,
        length-push c.cache_capacity key value items le,
      )
