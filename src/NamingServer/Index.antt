-- ===== src/NamingServer/Index.antt =====
-- The hash table `serversByPath`. uthash is a library that the program calls (`HASH_ADD_STR`,
-- `HASH_FIND_STR`), so it is a parameter with the laws that its documentation gives; of two entries
-- with one key either may be found. An association list meets the laws.
use nfs_mock.Base.{
  ◌≡◌, ◌≢◌, ◌⊎◌, inl, inr, refl, sym, Bool-cases, Option, none, some, List, [], ◌∷◌, Bytes, str_eq,
  str_eq_sound, str_eq_refl, if◌then◌else◌,
}
use nfs_mock.NamingServer.{StorageServer}

pub record PathIndex : Type 1 where
  pub Table : Type 0
  pub empty : Table
  pub add : Bytes → StorageServer → Table → Table
  pub find : Bytes → Table → Option StorageServer
  pub find-empty : (k : Bytes) → find k empty ≡ none
  pub find-add_new :
      (k : Bytes) (v : StorageServer) (t : Table) → find k t ≡ none → find k (add k v t) ≡ some v
  pub find-add_dup :
      (k : Bytes) (v w : StorageServer) (t : Table)
      → find k t ≡ some w
      → (find k (add k v t) ≡ some v) ⊎ (find k (add k v t) ≡ some w)
  pub find-add_ne :
      (j k : Bytes) (v : StorageServer) (t : Table) → j ≢ k → find j (add k v t) ≡ find j t

unfoldable pub assoc_find : Bytes → List (Bytes × StorageServer) → Option StorageServer
assoc_find k [] = none
assoc_find k ((j, v) ∷ t) = if str_eq j k then some v else assoc_find k t

pub assoc_empty : (k : Bytes) → assoc_find k [] ≡ none
unfolding assoc_find
assoc_empty k = refl

pub assoc_self :
    (k : Bytes) (v : StorageServer) (t : List (Bytes × StorageServer))
    → assoc_find k ((k, v) ∷ t) ≡ some v
unfolding assoc_find
assoc_self k v t = rw (str_eq_refl k)

pub assoc_ne :
    (j k : Bytes) (v : StorageServer) (t : List (Bytes × StorageServer))
    → j ≢ k
    → assoc_find j ((k, v) ∷ t) ≡ assoc_find j t
unfolding assoc_find
assoc_ne j k v t ne = elim (Bool-cases (str_eq k j)) [
  | inl same ↦ absurd (ne (sym (str_eq_sound k j same)))
  | inr other ↦ rw other
]

abbrev pub assoc_index : PathIndex
assoc_index = record {
  Table = List (Bytes × StorageServer);
  empty = [];
  add = λ k v t. (k, v) ∷ t;
  find = assoc_find;
  find-empty = assoc_empty;
  find-add_new = λ k v t h. assoc_self k v t;
  find-add_dup = λ k v w t h. inl (assoc_self k v t);
  find-add_ne = assoc_ne;
}
