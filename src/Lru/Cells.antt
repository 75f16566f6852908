-- ===== src/Lru/Cells.antt =====
-- The entries of the cache in the order of its list, and the pointers between them
-- (NamingServerModule.c: `LRUCache`).
use nfs_mock.Base.{
  ◌≡◌, refl, ◌∙◌, Bool, true, false, ◌||◌, Option, some, List, [], ◌∷◌, ◌++◌, arith, ◌==◌, Bytes,
}
use nfs_mock.Lru.{Ptr, null, Node, Heap, write}

-- an entry and its address
pub record Cell (V : Type 0) : Type 0 where
  pub address : Ptr
  pub key : Bytes
  pub value : V

module _ {V : Type 0} where
  -- the address of the first entry, or NULL
  abbrev pub first_at : List (Cell V) → Ptr
  first_at [] = null
  first_at (x ∷ xs) = x.address

  -- the address of the last entry, or the one before them
  abbrev pub last_at : Ptr → List (Cell V) → Ptr
  last_at p [] = p
  last_at p (x ∷ xs) = last_at x.address xs

  abbrev pub has : Ptr → List (Cell V) → Bool
  has a [] = false
  has a (x ∷ xs) = (a == x.address) || has a xs

  abbrev pub node_of : Cell V → (prev next : Ptr) → Node V
  node_of x prev next = record { server = x.value; key_path = x.key; prev = prev; next = next }

  -- The heap holds the entries, each at an address of its own, with pointers both ways; `prev` is the
  -- address before the first.
  abbrev pub Links : Heap V → Ptr → List (Cell V) → Type 0
  Links h prev [] = Unit
  Links h prev (x ∷ xs) =
      ((x.address == null) ≡ false)
      × (h x.address ≡ some (node_of x prev (first_at xs)))
      × (has x.address xs ≡ false)
      × Links h x.address xs

  -- `g` differs from `h` at most at the addresses of the entries
  abbrev pub SameOutside : List (Cell V) → Heap V → Heap V → Type 0
  SameOutside xs h g = (a : Ptr) → has a xs ≡ false → g a ≡ h a

  -- Entries whose addresses are left alone stay linked.
  pub Links-same :
      (h g : Heap V) (prev : Ptr) (xs : List (Cell V))
      → Links h prev xs
      → ((a : Ptr) → has a xs ≡ true → g a ≡ h a)
      → Links g prev xs
  Links-same h g prev [] l same = tt
  Links-same h g prev (x ∷ xs) (address, at, apart, l) same = (
    address,
    same x.address (ground arith) ∙ at,
    apart,
    Links-same h g x.address xs l λ a i. same a (ground arith),
  )

  pub Links-write :
      (h : Heap V) (prev a : Ptr) (c : Option (Node V)) (xs : List (Cell V))
      → Links h prev xs
      → has a xs ≡ false
      → Links (write h a c) prev xs
  unfolding write
  Links-write h prev a c xs l out = Links-same h (write h a c) prev xs l λ b i. ground arith

  pub has-append : (a : Ptr) (xs ys : List (Cell V)) → has a (xs ++ ys) ≡ (has a xs || has a ys)
  has-append a [] ys = refl
  has-append a (x ∷ xs) ys = ground (arith, has-append a xs ys)
