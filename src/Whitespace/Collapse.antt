-- ===== src/Whitespace/Collapse.antt =====
-- The text that `strip` means to leave: every run of whitespace is one blank.
use nfs_mock.Base.{
  ℕ, zero, suc, ◌≤◌, ◌≡◌, refl, Bool, true, false, if◌then◌else◌, [], ◌∷◌, ◌++◌, arith, length,
  drop, Bytes, Lacks,
}
use nfs_mock.Whitespace.{is_space}

-- `in_space` says whether the byte before was whitespace.
unfoldable pub collapse : Bool → Bytes → Bytes
collapse in_space [] = []
collapse in_space (c ∷ s) =
    let rest = collapse (is_space c) s in
    if is_space c then (if in_space then rest else b' ' ∷ rest) else c ∷ rest

-- every whitespace byte is a blank, and none stands behind another
abbrev pub IsCollapsed : Bool → Bytes → Type 0
IsCollapsed in_space [] = Unit
IsCollapsed in_space (c ∷ s) =
    (is_space c ≡ true → (c ≡ b' ') × (in_space ≡ false)) × IsCollapsed (is_space c) s

pub collapse-IsCollapsed : (b : Bool) (s : Bytes) → IsCollapsed b (collapse b s)
unfolding collapse
collapse-IsCollapsed b [] = tt
collapse-IsCollapsed b (c ∷ s) = ground (arith, collapse-IsCollapsed (is_space c) s)

pub collapse_of_IsCollapsed : (b : Bool) (s : Bytes) → IsCollapsed b s → collapse b s ≡ s
unfolding collapse
collapse_of_IsCollapsed b [] h = refl
collapse_of_IsCollapsed b (c ∷ s) (p, h) =
    ground (arith, p, collapse_of_IsCollapsed (is_space c) s h)

weaken : (b : Bool) (s : Bytes) → IsCollapsed b s → IsCollapsed false s
weaken b [] h = tt
weaken b (c ∷ s) (p, h) = (λ e. ((p e).0, refl), h)

pub drop-IsCollapsed : (n : ℕ) (s : Bytes) → IsCollapsed false s → IsCollapsed false (drop n s)
drop-IsCollapsed zero s h = h
drop-IsCollapsed (suc n) [] h = tt
drop-IsCollapsed (suc n) (c ∷ s) (p, h) = drop-IsCollapsed n s (weaken (is_space c) s h)

pub length-collapse : (b : Bool) (s : Bytes) → length (collapse b s) ≤ length s
unfolding collapse
length-collapse b [] = omega arith
length-collapse b (c ∷ s) = ground (arith, length-collapse (is_space c) s)

pub collapse-Lacks : (b : Bool) (s : Bytes) → Lacks 0 s → Lacks 0 (collapse b s)
unfolding collapse
collapse-Lacks b [] h = tt
collapse-Lacks b (c ∷ s) (hc, h) = ground (arith, collapse-Lacks (is_space c) s h)

-- A NUL is no whitespace, and what stands behind it is collapsed by itself.
pub collapse_at_nul :
    (b : Bool) (s t : Bytes) → collapse b (s ++ 0 ∷ t) ≡ collapse b s ++ 0 ∷ collapse false t
unfolding collapse
collapse_at_nul b [] t = refl
collapse_at_nul b (c ∷ s) t = ground (arith, collapse_at_nul (is_space c) s t)
