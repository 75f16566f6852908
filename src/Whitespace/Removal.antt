-- ===== src/Whitespace/Removal.antt =====
-- `removeWhitespace` keeps exactly the bytes that are no whitespace.
use nfs_mock.Base.{
  ℕ, zero, suc, ◌+◌, ◌<◌, ◌≡◌, ◌≢◌, refl, ap, ◌∙◌, true, false, Bool-cases, inl, inr, if◌then◌else◌,
  [], ◌∷◌, ◌++◌, append_assoc, append-nil, arith, length, length-append, drop, set, Bytes, Lacks,
  c_str, c_str-append,
}
use nfs_mock.Whitespace.{is_space, at, remove_loop, remove_whitespace}
use nfs_mock.Whitespace.Scans.{read_ahead, drop-suc, write_next, write_last, length-snoc}

-- the bytes that are no whitespace, in order
unfoldable pub solid : Bytes → Bytes
solid [] = []
solid (c ∷ s) = let rest = solid s in if is_space c then rest else c ∷ rest

solid-Lacks : (s : Bytes) → Lacks 0 s → Lacks 0 (solid s)
unfolding solid
solid-Lacks [] h = tt
solid-Lacks (c ∷ s) (hc, h) = ground (arith, solid-Lacks s h)

module _ (fuel : ℕ) (m : Bytes) (read write : ℕ) where
  step_end : at m read ≡ 0 → remove_loop (suc fuel) m read write ≡ set m write 0
  unfolding remove_loop
  step_end e = ground arith

  step_space :
      {c : ℕ}
      → at m read ≡ c
      → c ≢ 0
      → is_space c ≡ true
      → remove_loop (suc fuel) m read write ≡ remove_loop fuel m (suc read) write
  unfolding remove_loop
  step_space e n h = ground arith

  step_solid :
      {c : ℕ}
      → at m read ≡ c
      → c ≢ 0
      → is_space c ≡ false
      → remove_loop (suc fuel) m read write
        ≡ remove_loop fuel (set m write c) (suc read) (suc write)
  unfolding remove_loop
  step_solid e n h = ground arith

remove_loop-solid :
    (src out r tail : Bytes) (gap fuel read write : ℕ)
    → Lacks 0 src
    → drop gap r ≡ src ++ 0 ∷ tail
    → length src < fuel
    → read ≡ length out + gap
    → write ≡ length out
    → (junk : Bytes) × (remove_loop fuel (out ++ r) read write ≡ out ++ solid src ++ 0 ∷ junk)
unfolding solid
remove_loop-solid src out r tail gap zero read write lack h f e w = absurd (omega arith)
remove_loop-solid [] out r tail gap (suc fuel) read write lack h f e w =
    let (junk, p) = write_last out r gap write h w 0 in
    (junk, step_end fuel _ read write (read_ahead out r gap read h e) ∙ rw append-nil p)
remove_loop-solid (c ∷ src) out r tail gap (suc fuel) read write (hc, lack) h f e w =
    let here = read_ahead out r gap read h e in
    elim (Bool-cases (is_space c)) [
      | inl space ↦
          let (junk, q) =
            remove_loop-solid src out r tail (suc gap) fuel (suc read) write lack (drop-suc gap r h)
              (omega arith) (omega arith) w in
          (junk, step_space fuel _ read write here hc space ∙ rw space q)
      | inr other ↦
          let (r', p, h') = write_next out r gap write h w c in
          let (junk, q) =
            remove_loop-solid src (out ++ c ∷ []) r' tail gap fuel (suc read) (suc write) lack h'
              (omega arith) (omega (arith, length-append out (c ∷ [])))
              (length-snoc out c write w) in
          (
            junk,
            step_solid fuel _ read write here hc other
                ∙ ap (λ m. remove_loop fuel m (suc read) (suc write)) p
                ∙ q
                ∙ rw other (ap (λ s. s ++ 0 ∷ junk) (append_assoc out (c ∷ []) (solid src))),
          )
    ]

-- In an array that holds a string, `removeWhitespace` leaves the string of its bytes that are no
-- whitespace, in their order.
pub remove_whitespace-solid :
    (s tail : Bytes) → Lacks 0 s → c_str (remove_whitespace (s ++ 0 ∷ tail)) ≡ solid s
unfolding remove_whitespace
remove_whitespace-solid s tail lack =
    let (junk, p) =
      remove_loop-solid s [] (s ++ 0 ∷ tail) tail 0 (length (s ++ 0 ∷ tail) + 1) 0 0 lack refl
        (omega (arith, length-append s (0 ∷ tail))) refl refl in
    ap c_str p ∙ c_str-append (solid s) junk (solid-Lacks s lack)
