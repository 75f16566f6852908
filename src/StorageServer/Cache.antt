-- ===== src/StorageServer/Cache.antt =====
-- The storage server's own cache of recently used servers (StorageServerModule.c: `LRUCache`,
-- `initializeLRUCache`, `accessStorageServerCache`, `addServertoCache`, `freeLRUCache`). Its text
-- is that of the naming server's but for the search, which counts no rounds.
use nfs_mock.Base.{
  ℕ, zero, suc, ◌+◌, ◌<◌, ◌≡◌, refl, ap, ◌∙◌, Bool, Bool-cases, inl, inr, List, [], ◌∷◌, arith,
  ◌==◌, Bytes, length, str_eq, if◌then◌else◌,
}
use nfs_mock.Run.{Run, done, timeout, ◌>>=◌}
use nfs_mock.NamingServer.{StorageServer}
use nfs_mock.Lru
use nfs_mock.Lru.{Ptr, null, Heap, load, to_front}
use nfs_mock.Lru.Cells.{Cell, first_at, Links}
use nfs_mock.Lru.Search.{SearchEnd, absent, found, later}
use nfs_mock.Lru.Recency.{hit, touch, Holds, length-contents}
use nfs_mock.Lru.Lookup.{lookup-touch}

abbrev pub Cache : Type 0
Cache = Lru.Cache StorageServer

abbrev pub initialize_lru_cache : Cache → ℕ → Cache
initialize_lru_cache = Lru.initialize_lru_cache

abbrev pub add_server_to_cache : (fresh : Ptr) → Cache → Bytes → StorageServer → Run Cache
add_server_to_cache = Lru.add_server_to_cache

abbrev pub free_lru_cache : Cache → Run Cache
free_lru_cache = Lru.free_lru_cache

-- "Search for the server in the cache"
unfoldable pub search_all : ℕ → Heap StorageServer → Bytes → (prev temp : Ptr) → Run (Ptr × Ptr)
unfolding load
search_all zero h key prev temp = timeout
search_all (suc rounds) h key prev temp = if temp == null then done (prev, temp) else do
  n ← load h temp
  if str_eq n.key_path key then done (prev, temp) else search_all rounds h key temp n.next

-- The search is given `cache_size + 1` rounds.
unfoldable pub access_storage_server_cache : Cache → Bytes → Run (Bool × Cache)
unfolding search_all to_front
access_storage_server_cache c key = do
  (prev, temp) ← search_all (c.cache_size + 1) c.heap key null c.head
  to_front c prev temp

search_all-SearchEnd :
    (rounds : ℕ) (h : Heap StorageServer) (key : Bytes) (prev : Ptr)
    (xs : List (Cell StorageServer))
    → Links h prev xs
    → length xs < rounds
    → (r : Ptr × Ptr) × (search_all rounds h key prev (first_at xs) ≡ done r)
      × SearchEnd key prev xs rounds r
unfolding search_all
search_all-SearchEnd zero h key prev xs l le = absurd (omega arith)
search_all-SearchEnd (suc rounds) h key prev [] l le =
    ((prev, null), refl, absent _ refl (omega arith) refl)
search_all-SearchEnd (suc rounds) h key prev (x ∷ xs) (address, at, apart, l) le =
    elim (Bool-cases (str_eq x.key key)) [
      | inl same ↦
          ((prev, x.address), rw (address, at, same) refl, found _ [] x xs refl refl same refl)
      | inr miss ↦
          let (r, e, s) = search_all-SearchEnd rounds h key x.address xs l (omega arith) in
          (r, rw (address, at, miss) e, later x xs miss s)
    ]

-- In a cache of any length, the storage server's lookup ends, says whether there is an item with
-- the path, and leaves a cache that holds the same items with that item moved to the front.
pub access_all-touch :
    (c : Cache) (key : Bytes) (items : List (Bytes × StorageServer))
    → Holds c items
    → (c' : Cache) × (access_storage_server_cache c key ≡ done (hit key items, c'))
      × Holds c' (touch key items)
      × (c'.cache_capacity ≡ c.cache_capacity)
unfolding access_storage_server_cache
access_all-touch c key items holds =
    let (r, e, end) =
      search_all-SearchEnd (c.cache_size + 1) c.heap key null holds.cells holds.linked
        (omega (arith, holds.counted)) in
    lookup-touch c key items holds r (search_all (c.cache_size + 1) c.heap key null c.head)
      (omega (arith, holds.counted, length-contents holds.cells, ap length holds.same_items))
      (ap (search_all (c.cache_size + 1) c.heap key null) holds.at_head ∙ e) end
