-- ===== src/Lru/Front.antt =====
-- Taking an entry out of the list and putting it in front (NamingServerModule.c:
-- `accessStorageServerCache`).
use nfs_mock.Base.{◌≡◌, ◌∙◌, false, some, List, [], ◌∷◌, ◌++◌, arith, ◌==◌}
use nfs_mock.Run.{done}
use nfs_mock.Lru.{Ptr, null, Heap, write, load, set_next, set_prev, unlink, link_front}
use nfs_mock.Lru.Cells.{
  Cell, first_at, last_at, has, node_of, Links, SameOutside, Links-same, Links-write,
}

module _ {V : Type 0} where
  -- behind the entry `x`, whose predecessor `a` is the first
  unlink_second :
      (h : Heap V) (prev : Ptr) (a x : Cell V) (back : List (Cell V))
      → Links h prev (a ∷ x ∷ back)
      → (g : Heap V) × (unlink h a.address x.address ≡ done g)
        × Links g prev (a ∷ back)
        × SameOutside (a ∷ back) h g
  unfolding unlink set_next set_prev load write
  unlink_second h prev a x [] (na, ea, oa, (nx, ex, ox, l)) = (
    write h a.address (some (node_of a prev null)),
    ground arith,
    ground arith,
    λ p o. ground arith,
  )
  unlink_second h prev a x (b ∷ back) (na, ea, oa, (nx, ex, ox, (nb, eb, ob, l))) = (
    write (write h a.address (some (node_of a prev b.address))) b.address
        (some (node_of b a.address (first_at back))),
    ground arith,
    (
      ground arith,
      ground arith,
      ground arith,
      (
        ground arith,
        ground arith,
        ground arith,
        Links-write _ b.address b.address _ back
            (Links-write h b.address a.address _ back l (ground arith)) ob,
      ),
    ),
    λ p o. ground arith,
  )

  pub has-removed :
      (p : Ptr) (front : List (Cell V)) (x : Cell V) (back : List (Cell V))
      → has p (front ++ x ∷ back) ≡ false
      → has p (front ++ back) ≡ false
  has-removed p [] x back out = ground arith
  has-removed p (y ∷ front) x back out = ground (arith, has-removed p front x back)

  pub unlink-Links :
      (h : Heap V) (prev : Ptr) (a : Cell V) (front : List (Cell V)) (x : Cell V)
      (back : List (Cell V))
      → Links h prev (a ∷ (front ++ x ∷ back))
      → (g : Heap V) × (unlink h (last_at a.address front) x.address ≡ done g)
        × Links g prev (a ∷ (front ++ back))
        × SameOutside (a ∷ (front ++ back)) h g
  unlink-Links h prev a [] x back l = unlink_second h prev a x back l
  unlink-Links h prev a (b ∷ front) x back (na, ea, oa, l) =
      let (g, e, l', same) = unlink-Links h a.address b front x back l in
      let out = has-removed a.address (b ∷ front) x back oa in
      (g, e, (na, same a.address out ∙ ea, out, l'), λ p o. same p (ground arith))

  not_middle :
      (p : Ptr) (front : List (Cell V)) (x : Cell V) (back : List (Cell V))
      → has p (front ++ x ∷ back) ≡ false
      → (p == x.address) ≡ false
  not_middle p [] x back out = ground arith
  not_middle p (y ∷ front) x back out = not_middle p front x back (ground arith)

  -- the entry taken out is where it was
  pub taken_out :
      (h : Heap V) (prev : Ptr) (front : List (Cell V)) (x : Cell V) (back : List (Cell V))
      → Links h prev (front ++ x ∷ back)
      → ((x.address == null) ≡ false)
        × (h x.address ≡ some (node_of x (last_at prev front) (first_at back)))
        × (has x.address (front ++ back) ≡ false)
  taken_out h prev [] x back (nx, ex, ox, l) = (nx, ex, ox)
  taken_out h prev (y ∷ front) x back (ny, ey, oy, l) =
      let (nx, ex, out) = taken_out h y.address front x back l in
      (nx, ex, ground (arith, not_middle y.address front x back oy))

  -- An entry that the list does not hold is put before its first.
  pub link_front-Links :
      (h : Heap V) (x y : Cell V) (prev next : Ptr) (ys : List (Cell V))
      → (x.address == null) ≡ false
      → h x.address ≡ some (node_of x prev next)
      → has x.address (y ∷ ys) ≡ false
      → Links h null (y ∷ ys)
      → (g : Heap V) × (link_front h x.address y.address ≡ done g)
        × Links g null (x ∷ y ∷ ys)
        × SameOutside (x ∷ y ∷ ys) h g
  unfolding link_front set_next set_prev load write
  link_front-Links h x y prev next ys nx ex out (ny, ey, oy, l) =
      let g : Heap V =
        write
          (write (write h x.address (some (node_of x prev y.address))) x.address
            (some (node_of x null y.address)))
          y.address (some (node_of y x.address (first_at ys))) in
      (
        g,
        ground arith,
        (
          nx,
          ground arith,
          out,
          (ny, ground arith, oy, Links-same h g y.address ys l λ p i. ground arith),
        ),
        λ p o. ground arith,
      )
