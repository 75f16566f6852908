-- ===== src/Lru/Added.antt =====
-- A path that has been put into the cache, looked up at once (NamingServerModule.c:
-- `addServertoCache`, `accessStorageServerCache`).
use nfs_mock.Base.{
  ℕ, suc, ◌+◌, ◌≡◌, ◌≢◌, ◌⊎◌, inl, inr, refl, sym, ap, ◌∙◌, true, false, Option, none, some, ◌==◌,
  ==_refl, ==_of_ne, arith, Bytes, str_eq_refl,
}
use nfs_mock.Run.{Run, done, fault, ◌>>=◌}
use nfs_mock.Lru.{
  Ptr, null, Node, Heap, Cache, write, load, set_prev, free, search_cache,
  access_storage_server_cache, to_front, last_node, remove_last, add_server_to_cache,
}

module _ {V : Type 0} where
  load-node :
      (h : Heap V) (p : Ptr) (n : Node V) → (p == null) ≡ false → h p ≡ some n → load h p ≡ done n
  unfolding load
  load-node h p n some_address at = rw (some_address, at, load)

  write_self : (h : Heap V) (p : Ptr) (c : Option (Node V)) → write h p c p ≡ c
  unfolding write
  write_self h p c = rw (==_refl p) refl

  write_other :
      (h : Heap V) (p q : Ptr) (c : Option (Node V)) → (q == p) ≡ false → write h p c q ≡ h q
  unfolding write
  write_other h p q c ne = rw ne refl

  search_here :
      (left : ℕ) (h : Heap V) (key : Bytes) (prev temp : Ptr) (n : Node V)
      → (temp == null) ≡ false
      → h temp ≡ some n
      → n.key_path ≡ key
      → search_cache (suc left) h key prev temp ≡ done (prev, temp)
  unfolding search_cache load
  search_here left h key prev temp n some_address at named =
      rw (some_address, at, named, str_eq_refl key) refl

  hit_head :
      (c : Cache V) (key : Bytes) (n : Node V)
      → (c.head == null) ≡ false
      → c.heap c.head ≡ some n
      → n.key_path ≡ key
      → access_storage_server_cache c key ≡ done (true, c)
  unfolding access_storage_server_cache to_front
  hit_head c key n some_address at named =
      rw (search_here 10 c.heap key null c.head n some_address at named, some_address) refl

  -- the head is NULL, or a node that is not the new one
  abbrev pub HeadStands : Cache V → (fresh : Ptr) → Type 0
  HeadStands c fresh =
      (c.head ≡ null)
      ⊎ ((n : Node V) × ((c.head == null) ≡ false) × (c.head ≢ fresh) × (c.heap c.head ≡ some n))

  -- In a cache that is not full, a path that has been put in is the first one, a lookup of it at once
  -- is a hit that changes nothing, and the node at the head holds its server.
  pub add-access :
      (c : Cache V) (fresh : Ptr) (key : Bytes) (server : V)
      → (fresh == null) ≡ false
      → HeadStands c fresh
      → (c.cache_size == c.cache_capacity) ≡ false
      → (c' : Cache V) × (n : Node V) × (add_server_to_cache fresh c key server ≡ done c')
        × (c'.cache_size ≡ c.cache_size + 1)
        × (access_storage_server_cache c' key ≡ done (true, c'))
        × (load c'.heap c'.head ≡ done n)
        × (n.server ≡ server)
  unfolding add_server_to_cache set_prev load
  add-access c fresh key server address (inl empty) room =
      let node : Node V = record { server = server; key_path = key; prev = null; next = c.head } in
      let h = write c.heap fresh (some node) in
      let c' : Cache V = record c { heap = h; head = fresh; cache_size = c.cache_size + 1 } in
      let at = write_self c.heap fresh (some node) in
      (
        c',
        node,
        rw (empty, room) refl,
        refl,
        hit_head c' key node address at refl,
        load-node h fresh node address at,
        refl,
      )
  add-access c fresh key server address (inr (m, there, apart, at)) room =
      let node : Node V = record { server = server; key_path = key; prev = null; next = c.head } in
      let h = write c.heap fresh (some node) in
      let g = write h c.head (some (record m { prev = fresh })) in
      let c' : Cache V = record c { heap = g; head = fresh; cache_size = c.cache_size + 1 } in
      let old = write_other c.heap fresh c.head (some node) (==_of_ne c.head fresh apart) ∙ at in
      let new =
        write_other h c.head fresh (some (record m { prev = fresh }))
          (==_of_ne fresh c.head (λ e. apart (sym e)))
        ∙ write_self c.heap fresh (some node) in
      (
        c',
        node,
        rw (there, old, room) refl,
        refl,
        hit_head c' key node address new refl,
        load-node g fresh node address new,
        refl,
      )

  remove_single :
      (rounds k : ℕ) (h : Heap V) (p : Ptr) (n : Node V)
      → rounds ≡ suc k
      → (p == null) ≡ false
      → h p ≡ some n
      → n.next ≡ null
      → n.prev ≡ null
      → remove_last rounds h p ≡ done (write h p none)
  unfolding remove_last last_node load free
  remove_single rounds k h p n e address at last first =
      rw (e, address, at, last, load, address, at, first, free, load) refl

  -- In an empty cache without room, a path can be put in, and a lookup of any path after that reads
  -- a freed node.
  pub add_full-dangles :
      (c : Cache V) (fresh : Ptr) (key other : Bytes) (server : V)
      → (fresh == null) ≡ false
      → c.head ≡ null
      → (c.cache_size == c.cache_capacity) ≡ true
      → (c' : Cache V) × (add_server_to_cache fresh c key server ≡ done c')
        × (access_storage_server_cache c' other ≡ fault)
  unfolding add_server_to_cache remove_last last_node load free access_storage_server_cache to_front
      search_cache
  add_full-dangles c fresh key other server address empty full =
      let node : Node V = record { server = server; key_path = key; prev = null; next = c.head } in
      let h = write c.heap fresh (some node) in
      let c' : Cache V = record c { heap = write h fresh none; head = fresh } in
      (
        c',
        rw (empty, full)
            (ap (λ (m : Run (Heap V)). m >>= λ g. done (record c { heap = g; head = fresh }))
              (remove_single (c.cache_size + 1) c.cache_size
                (write c.heap fresh (some (record node { next = null }))) fresh
                (record node { next = null }) (omega arith) address
                (write_self c.heap fresh (some (record node { next = null }))) refl refl)),
        rw (address, write_self h fresh none) refl,
      )
