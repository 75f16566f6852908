-- ===== src/Lru.antt =====
-- The cache of recently used servers, a doubly linked list (NamingServerModule.c: `LRUCache`,
-- `initializeLRUCache`, `accessStorageServerCache`, `addServertoCache`, `freeLRUCache`; the storage
-- server has a copy of it that nothing there calls). The heap maps addresses to nodes; the address
-- that `malloc` returns is an argument. `malloc` is taken to succeed, as the source takes it.
pub mod Empty
pub mod Added
pub mod Cells
pub mod Search
pub mod Front
pub mod Evict
pub mod Recency
pub mod Lookup
pub mod Addition
pub mod Uses
use nfs_mock.Base.{
  ℕ, zero, suc, ◌+◌, Bool, true, false, Option, none, some, ◌==◌, if◌then◌else◌, Bytes, str_eq,
}
use nfs_mock.Run.{Run, done, fault, timeout, ◌>>=◌}

abbrev pub Ptr : Type 0
Ptr = ℕ

abbrev pub null : Ptr
null = 0

-- `struct LRUCache`; `server` is its `data`
pub record Node (V : Type 0) : Type 0 where
  pub server : V
  pub key_path : Bytes
  pub prev : Ptr
  pub next : Ptr

abbrev pub Heap : Type 0 → Type 0
Heap V = Ptr → Option (Node V)

-- `head`, `cacheSize`, `cacheCapacity`, and the heap that the nodes stand in
pub record Cache (V : Type 0) : Type 0 where
  pub heap : Heap V
  pub head : Ptr
  pub cache_size : ℕ
  pub cache_capacity : ℕ

module _ {V : Type 0} where
  unfoldable pub write : Heap V → Ptr → Option (Node V) → Heap V
  write h p c a = if a == p then c else h a

  unfoldable pub load : Heap V → Ptr → Run (Node V)
  load h p = if p == null then fault else elim (h p) [ none ↦ fault | some n ↦ done n ]

  -- `p->next = q`
  unfoldable pub set_next : Heap V → Ptr → Ptr → Run (Heap V)
  unfolding load write
  set_next h p q = do n ← load h p; done (write h p (some (record n { next = q })))

  -- `p->prev = q`
  unfoldable pub set_prev : Heap V → Ptr → Ptr → Run (Heap V)
  unfolding load write
  set_prev h p q = do n ← load h p; done (write h p (some (record n { prev = q })))

  unfoldable pub free : Heap V → Ptr → Run (Heap V)
  unfolding load write
  free h p = do _ ← load h p; done (write h p none)

  unfoldable pub initialize_lru_cache : Cache V → ℕ → Cache V
  initialize_lru_cache c capacity = record c {
    head = null;
    cache_size = 0;
    cache_capacity = capacity;
  }

  -- The search of `accessStorageServerCache`, with the rounds that `ct` leaves: `prevNode` and `temp`.
  unfoldable pub search_cache : ℕ → Heap V → Bytes → (prev temp : Ptr) → Run (Ptr × Ptr)
  unfolding load
  search_cache zero h key prev temp = done (prev, temp)
  search_cache (suc left) h key prev temp = if temp == null then done (prev, temp) else do
    n ← load h temp
    if str_eq n.key_path key then done (prev, temp) else search_cache left h key temp n.next

  -- `prevNode->next = temp->next; if(temp->next != NULL) temp->next->prev = prevNode;`
  unfoldable pub unlink : Heap V → (prev temp : Ptr) → Run (Heap V)
  unfolding load set_next set_prev
  unlink h prev temp = do
    t ← load h temp
    g ← set_next h prev t.next
    t' ← load g temp
    if t'.next == null then done g else set_prev g t'.next prev

  -- `temp->next = head; temp->prev = NULL; head->prev = temp;`
  unfoldable pub link_front : Heap V → (temp head : Ptr) → Run (Heap V)
  unfolding set_next set_prev
  link_front h temp head = do
    g ← set_next h temp head
    g' ← set_prev g temp null
    set_prev g' head temp

  -- What the search has found goes to the front, if it is not there.
  unfoldable pub to_front : Cache V → (prev temp : Ptr) → Run (Bool × Cache V)
  to_front c prev temp =
      if temp == null then done (false, c) else if prev == null then done (true, c) else (do
        g ← unlink c.heap prev temp
        g' ← link_front g temp c.head
        done (true, record c { heap = g'; head = temp }))

  unfoldable pub access_storage_server_cache : Cache V → Bytes → Run (Bool × Cache V)
  unfolding to_front
  access_storage_server_cache c key = do
    (prev, temp) ← search_cache 11 c.heap key null c.head
    to_front c prev temp

  -- `while(toRemove->next != NULL) toRemove = toRemove->next;`
  unfoldable pub last_node : ℕ → Heap V → Ptr → Run Ptr
  unfolding load
  last_node zero h p = timeout
  last_node (suc rounds) h p = do
    n ← load h p
    if n.next == null then done p else last_node rounds h n.next

  -- "Remove least recently used server"
  unfoldable pub remove_last : ℕ → Heap V → Ptr → Run (Heap V)
  unfolding last_node set_next free
  remove_last rounds h head = do
    last ← last_node rounds h head
    n ← load h last
    if n.prev == null then free h last else (do g ← set_next h n.prev null; free g last)

  -- `fresh` is what `malloc` returns; the walk to the last node is given `cache_size + 1` rounds.
  unfoldable pub add_server_to_cache : (fresh : Ptr) → Cache V → Bytes → V → Run (Cache V)
  add_server_to_cache fresh c key server = do
    let node : Node V = record { server = server; key_path = key; prev = null; next = c.head }
    let h = write c.heap fresh (some node)
    g ← (if c.head == null then done h else set_prev h c.head fresh)
    if c.cache_size == c.cache_capacity
        then (do
          g' ← remove_last (c.cache_size + 1) g fresh
          done (record c { heap = g'; head = fresh }))
        else done (record c { heap = g; head = fresh; cache_size = c.cache_size + 1 })

  free_loop : ℕ → Heap V → Ptr → Run (Heap V)
  unfolding load free
  free_loop zero h p = timeout
  free_loop (suc rounds) h p =
      if p == null then done h else do n ← load h p; g ← free h p; free_loop rounds g n.next

  -- The walk is given `cache_size + 1` rounds.
  unfoldable pub free_lru_cache : Cache V → Run (Cache V)
  unfolding free_loop
  free_lru_cache c = do
    g ← free_loop (c.cache_size + 1) c.heap c.head
    done (record c { heap = g; head = null; cache_size = 0 })
