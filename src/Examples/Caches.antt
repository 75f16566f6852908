-- ===== src/Examples/Caches.antt =====
-- Caches that a path is put into.
use nfs_mock.Base.{
  ℕ, ◌+◌, ◌≡◌, ◌≤◌, refl, true, none, some, List, [], ◌∷◌, length, Bytes, codes, str_eq, ltb, ◌-◌,
  arith, ◌==◌, if◌then◌else◌,
}
use nfs_mock.Run.{done, result}
use nfs_mock.Lru.{
  null, Heap, write, initialize_lru_cache, Cache, access_storage_server_cache, add_server_to_cache,
}
use nfs_mock.Lru.Cells.{Cell}
use nfs_mock.Lru.Recency.{hit, bring, touch, push, contents, Holds}
use nfs_mock.StorageServer.Cache
use nfs_mock.StorageServer.Cache.{access_all-touch}
use nfs_mock.NamingServer.{StorageServer}
use nfs_mock.Examples.Servers.{server_a}
use nfs_mock.Lru.Uses.{Used, opened, added, Used-answers, access_false-hit}

abbrev roomy : Cache ℕ
roomy = record { heap = λ p. none; head = 0; cache_size = 0; cache_capacity = 10 }

abbrev full : Cache ℕ
full = record { heap = λ p. none; head = 0; cache_size = 0; cache_capacity = 0 }

-- `./b` at 8, then `./a` at 7
abbrev two_nodes : Heap ℕ
two_nodes p =
    if p == 8
    then some (record { server = 9004; key_path = codes "./b"; prev = null; next = 7 })
    else if p == 7
    then some (record { server = 9002; key_path = codes "./a"; prev = 8; next = null })
    else none

abbrev two : Cache ℕ
two = record { heap = two_nodes; head = 8; cache_size = 2; cache_capacity = 2 }

abbrev two_items : List (Bytes × ℕ)
two_items = (codes "./b", 9004) ∷ (codes "./a", 9002) ∷ []

two-Holds : Holds two two_items
two-Holds = record {
  cells =
      record { address = 8; key = codes "./b"; value = 9004 }
      ∷ record { address = 7; key = codes "./a"; value = 9002 }
      ∷ [];
  linked = (refl, refl, refl, (refl, refl, refl, tt));
  at_head = refl;
  same_items = refl;
  counted = refl;
}

touched : touch (codes "./a") two_items ≡ (codes "./a", 9002) ∷ (codes "./b", 9004) ∷ []
unfolding touch hit bring str_eq
touched = refl

pushed : push 2 (codes "./c") 9006 two_items ≡ (codes "./c", 9006) ∷ (codes "./b", 9004) ∷ []
unfolding push
pushed = refl

abbrev one : Cache ℕ
one = result roomy (add_server_to_cache 7 (initialize_lru_cache roomy 2) (codes "./a") 9002)

abbrev one_item : List (Bytes × ℕ)
one_item = (codes "./a", 9002) ∷ []

one-Used : Used roomy 2 one one_item
unfolding add_server_to_cache initialize_lru_cache write result push
one-Used = added 7 (codes "./a") 9002 one opened refl refl refl

Used-answers_example :
    (c₁ : Cache ℕ) × (c₂ : Cache ℕ) × (access_storage_server_cache one (codes "./a")
      ≡ done (hit (codes "./a") one_item, c₁))
    × Used roomy 2 c₁ (touch (codes "./a") one_item)
    × (add_server_to_cache 8 one (codes "./b") 9004 ≡ done c₂)
    × Used roomy 2 c₂ (push 2 (codes "./b") 9004 one_item)
    × (length one_item ≤ 2)
    × (one.cache_size ≡ length one_item)
unfolding add_server_to_cache initialize_lru_cache write result
Used-answers_example =
    Used-answers roomy 2 one one_item (codes "./a") 8 (codes "./b") 9004 (omega arith) (omega arith)
      one-Used refl refl

-- twelve entries at the addresses 1 to 12, which share a path
abbrev twelve : Cache ℕ
twelve = record {
  heap = λ p.
      if p == 0
      then none
      else if ltb 12 p
      then none
      else some (record {
        server = p;
        key_path = codes "./a";
        prev = p - 1;
        next = if p == 12 then 0 else p + 1;
      });
  head = 1;
  cache_size = 12;
  cache_capacity = 20;
}

abbrev twelve_cells : List (Cell ℕ)
twelve_cells =
    record { address = 1; key = codes "./a"; value = 1 }
    ∷ record { address = 2; key = codes "./a"; value = 2 }
    ∷ record { address = 3; key = codes "./a"; value = 3 }
    ∷ record { address = 4; key = codes "./a"; value = 4 }
    ∷ record { address = 5; key = codes "./a"; value = 5 }
    ∷ record { address = 6; key = codes "./a"; value = 6 }
    ∷ record { address = 7; key = codes "./a"; value = 7 }
    ∷ record { address = 8; key = codes "./a"; value = 8 }
    ∷ record { address = 9; key = codes "./a"; value = 9 }
    ∷ record { address = 10; key = codes "./a"; value = 10 }
    ∷ record { address = 11; key = codes "./a"; value = 11 }
    ∷ record { address = 12; key = codes "./a"; value = 12 }
    ∷ []

twelve-Holds : Holds twelve (contents twelve_cells)
twelve-Holds = record {
  cells = twelve_cells;
  linked = (
    refl,
    refl,
    refl,
    (
      refl,
      refl,
      refl,
      (
        refl,
        refl,
        refl,
        (
          refl,
          refl,
          refl,
          (
            refl,
            refl,
            refl,
            (
              refl,
              refl,
              refl,
              (
                refl,
                refl,
                refl,
                (
                  refl,
                  refl,
                  refl,
                  (
                    refl,
                    refl,
                    refl,
                    (refl, refl, refl, (refl, refl, refl, (refl, refl, refl, tt))),
                  ),
                ),
              ),
            ),
          ),
        ),
      ),
    ),
  );
  at_head = refl;
  same_items = refl;
  counted = refl;
}

access_false-hit_example :
    (c' : Cache ℕ) × (access_storage_server_cache twelve (codes "./b") ≡ done (true, c'))
unfolding hit str_eq
access_false-hit_example =
    access_false-hit twelve (codes "./b") (contents twelve_cells) twelve-Holds refl (omega arith)

-- one entry of the storage server's cache
abbrev own : Cache.Cache
own = record {
  heap = λ p.
      if p == 7
      then some (record { server = server_a; key_path = codes "./a"; prev = null; next = null })
      else none;
  head = 7;
  cache_size = 1;
  cache_capacity = 2;
}

abbrev own_items : List (Bytes × StorageServer)
own_items = (codes "./a", server_a) ∷ []

own-Holds : Holds own own_items
own-Holds = record {
  cells = record { address = 7; key = codes "./a"; value = server_a } ∷ [];
  linked = (refl, refl, refl, tt);
  at_head = refl;
  same_items = refl;
  counted = refl;
}

access_all-touch_example :
    (c' : Cache.Cache) × (Cache.access_storage_server_cache own (codes "./a")
      ≡ done (hit (codes "./a") own_items, c'))
    × Holds c' (touch (codes "./a") own_items)
    × (c'.cache_capacity ≡ 2)
access_all-touch_example = access_all-touch own (codes "./a") own_items own-Holds
