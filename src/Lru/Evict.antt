-- ===== src/Lru/Evict.antt =====
-- Putting an entry in front, and freeing the last one (NamingServerModule.c: `addServertoCache`).
use nfs_mock.Base.{
  ℕ, zero, suc, ◌≤◌, ◌≡◌, refl, ap, ◌∙◌, false, none, some, List, [], ◌∷◌, arith, ◌==◌, length,
  if◌then◌else◌,
}
use nfs_mock.Run.{Run, done, ◌>>=◌}
use nfs_mock.Lru.{Ptr, null, Heap, write, load, set_next, set_prev, free, last_node, remove_last}
use nfs_mock.Lru.Cells.{Cell, first_at, last_at, has, node_of, Links, SameOutside, Links-same}

-- all but the last
abbrev pub init {ℓ} : {A : Type ℓ} → List A → List A
init [] = []
init (x ∷ []) = []
init (x ∷ y ∷ xs) = x ∷ init (y ∷ xs)

pub length-init {ℓ} : {A : Type ℓ} (x : A) (xs : List A) → length (init (x ∷ xs)) ≡ length xs
length-init x [] = refl
length-init x (y ∷ xs) = ap suc (length-init y xs)

module _ {V : Type 0} where
  last_node-Links :
      (rounds : ℕ) (h : Heap V) (prev : Ptr) (x : Cell V) (xs : List (Cell V))
      → Links h prev (x ∷ xs)
      → length (x ∷ xs) ≤ rounds
      → last_node rounds h x.address ≡ done (last_at x.address xs)
  unfolding last_node load
  last_node-Links zero h prev x xs l le = absurd (omega arith)
  last_node-Links (suc rounds) h prev x [] (nx, ex, ox, l) le = rw (nx, ex) refl
  last_node-Links (suc rounds) h prev x (y ∷ xs) (nx, ex, ox, (ny, ey, oy, l)) le =
      rw (nx, ex, ny) (last_node-Links rounds h x.address y xs (ny, ey, oy, l) (omega arith))

  has-init : (p : Ptr) (xs : List (Cell V)) → has p xs ≡ false → has p (init xs) ≡ false
  has-init p [] out = refl
  has-init p (x ∷ []) out = refl
  has-init p (x ∷ y ∷ xs) out = ground (arith, has-init p (y ∷ xs))

  -- what `remove_last` does once it has the last node
  pub cut : Heap V → Ptr → Run (Heap V)
  unfolding load set_next free
  cut h last = do
    n ← load h last
    if n.prev == null then free h last else (do g ← set_next h n.prev null; free g last)

  cut-Links :
      (h : Heap V) (prev : Ptr) (x y : Cell V) (ys : List (Cell V))
      → Links h prev (x ∷ y ∷ ys)
      → (g : Heap V) × (cut h (last_at y.address ys) ≡ done g)
        × Links g prev (init (x ∷ y ∷ ys))
        × SameOutside (x ∷ y ∷ ys) h g
  unfolding cut load set_next free write
  cut-Links h prev x y [] (nx, ex, ox, (ny, ey, oy, l)) =
      let g : Heap V = write (write h x.address (some (node_of x prev null))) y.address none in
      (g, ground arith, (nx, ground arith, refl, tt), λ p o. ground arith)
  cut-Links h prev x y (z ∷ ys) (nx, ex, ox, l) =
      let (g, e, l', same) = cut-Links h x.address y z ys l in
      (
        g,
        e,
        (nx, same x.address ox ∙ ex, has-init x.address (y ∷ z ∷ ys) ox, l'),
        λ p o. same p (ground arith),
      )

  pub remove_last-Links :
      (rounds : ℕ) (h : Heap V) (prev : Ptr) (x y : Cell V) (ys : List (Cell V))
      → Links h prev (x ∷ y ∷ ys)
      → length (x ∷ y ∷ ys) ≤ rounds
      → (g : Heap V) × (remove_last rounds h x.address ≡ done g) × Links g prev (init (x ∷ y ∷ ys))
  unfolding remove_last cut
  remove_last-Links rounds h prev x y ys l le =
      let (g, e, l', same) = cut-Links h prev x y ys l in
      (g, ap (λ m. m >>= cut h) (last_node-Links rounds h prev x (y ∷ ys) l le) ∙ e, l')

  -- a new entry in front of the others
  pub Links-single :
      (h : Heap V) (x : Cell V)
      → (x.address == null) ≡ false
      → Links (write h x.address (some (node_of x null null))) null (x ∷ [])
  unfolding write
  Links-single h x address = (address, ground arith, refl, tt)

  pub Links-cons :
      (h : Heap V) (x y : Cell V) (ys : List (Cell V))
      → (x.address == null) ≡ false
      → has x.address (y ∷ ys) ≡ false
      → Links h null (y ∷ ys)
      → (g : Heap V) × ((if y.address == null
            then done (write h x.address (some (node_of x null y.address)))
            else set_prev (write h x.address (some (node_of x null y.address))) y.address x.address)
          ≡ done g)
        × Links g null (x ∷ y ∷ ys)
  unfolding set_prev load write
  Links-cons h x y ys nx out (ny, ey, oy, l) =
      let g : Heap V =
        write (write h x.address (some (node_of x null y.address))) y.address
          (some (node_of y x.address (first_at ys))) in
      (
        g,
        ground arith,
        (
          nx,
          ground arith,
          out,
          (ny, ground arith, oy, Links-same h g y.address ys l λ p i. ground arith),
        ),
      )
