-- ===== src/Whitespace/ServerStrip.antt =====
-- What the naming server's `strip` leaves of a line.
use nfs_mock.Base.{
  ℕ, zero, suc, ◌+◌, ◌-◌, ◌≤◌, ◌<◌, ◌≡◌, ◌⊎◌, refl, sym, ap, ◌∙◌, Bool, true, false, Bool-cases,
  inl, inr, [], ◌∷◌, ◌++◌, append_assoc, append-nil, arith, length, length-append, length-drop,
  length-take, length-set, drop, drop_inside, take, set, Bytes, Lacks, All-drop, c_str,
  c_str-append,
}
use nfs_mock.Whitespace.{is_space, at, strlen, skip_spaces, trim_end, condense, strip}
use nfs_mock.Whitespace.Collapse.{
  IsCollapsed, collapse, collapse-IsCollapsed, collapse_of_IsCollapsed, drop-IsCollapsed,
  length-collapse, collapse-Lacks, collapse_at_nul,
}
use nfs_mock.Whitespace.Scans.{read_ahead, drop-suc, write_next, write_last, length-snoc}
use nfs_mock.Whitespace.Edges.{
  AllSpace, IsTrimmed, line, nul_behind, drop_lead, skip_line, skip_line_again, strlen-line,
  trim_line, trim_line_again,
}

module _ (rounds : ℕ) (m : Bytes) (i j : ℕ) {c : ℕ} (e : at m j ≡ c) where
  step_double :
      is_space c ≡ true → condense (suc rounds) m i j true ≡ condense rounds m i (suc j) true
  unfolding condense
  step_double h = ground arith

  step_blank :
      is_space c ≡ true
      → condense (suc rounds) m i j false ≡ condense rounds (set m i b' ') (suc i) (suc j) true
  unfolding condense
  step_blank h = ground arith

  step_copy :
      (b : Bool)
      → is_space c ≡ false
      → condense (suc rounds) m i j b ≡ condense rounds (set m i c) (suc i) (suc j) false
  unfolding condense
  step_copy true h = ground arith
  step_copy false h = ground arith

-- From `i` to `j` the array holds bytes that have been read; `y` stands behind the last one to read.
condense-collapse :
    (src out r tail : Bytes) (y gap rounds i j : ℕ) (b : Bool)
    → drop gap r ≡ src ++ y ∷ tail
    → rounds ≡ length src
    → j ≡ length out + gap
    → i ≡ length out
    → (junk : Bytes) × (condense rounds (out ++ r) i j b ≡ out ++ collapse b src ++ 0 ∷ junk)
unfolding collapse
condense-collapse [] out r tail y gap zero i j b h n e w =
    let (junk, p) = write_last out r gap i h w 0 in (junk, unfold condense in rw append-nil p)
condense-collapse [] out r tail y gap (suc rounds) i j b h n e w = absurd (omega arith)
condense-collapse (c ∷ src) out r tail y gap zero i j b h n e w = absurd (omega arith)
condense-collapse (c ∷ src) out r tail y gap (suc rounds) i j b h n e w =
    let here = read_ahead out r gap j h e in
    let skip =
      condense-collapse src out r tail y (suc gap) rounds i (suc j) true (drop-suc gap r h)
        (omega arith) (omega arith) w in
    let put = λ (v : ℕ). write_next out r gap i h w v in
    let keep = λ (v : ℕ) (b' : Bool).
      condense-collapse src (out ++ v ∷ []) (put v).0 tail y gap rounds (suc i) (suc j) b' (put v).2
        (omega arith) (omega (arith, length-append out (v ∷ []))) (length-snoc out v i w) in
    let behind = λ (v : ℕ) (b' : Bool).
      ap (λ m. condense rounds m (suc i) (suc j) b') (put v).1
      ∙ (keep v b').1
      ∙ ap (λ s. s ++ 0 ∷ (keep v b').0) (append_assoc out (v ∷ []) (collapse b' src)) in
    elim (Bool-cases (is_space c)) [
      | inr solid ↦
          ((keep c false).0, step_copy rounds _ i j here b solid ∙ behind c false ∙ rw solid refl)
      | inl space ↦ elim (Bool-cases b) [
        | inl twice ↦
            (skip.0, rw twice (step_double rounds _ i j here space ∙ skip.1 ∙ rw space refl))
        | inr first ↦ (
          (keep b' ' true).0,
          rw first (step_blank rounds _ i j here space ∙ behind b' ' true ∙ rw space refl),
        )
      ]
    ]

length-condense :
    (rounds : ℕ) (m : Bytes) (i j : ℕ) (b : Bool) → length (condense rounds m i j b) ≡ length m
unfolding condense
length-condense zero m i j b = length-set m i 0
length-condense (suc rounds) m i j b = ground (
  arith,
  length-condense rounds m i (suc j) true,
  length-condense rounds (set m i b' ') (suc i) (suc j) true,
  length-condense rounds (set m i (at m j)) (suc i) (suc j) false,
  length-set m i b' ',
  length-set m i (at m j),
)

-- From `n` bytes behind `start` on, a list has a first part of that length and a byte behind it.
split_at : (n : ℕ) (m : Bytes) → n < length m → (y : ℕ) × (t : Bytes) × (m ≡ take n m ++ y ∷ t)
split_at n [] h = absurd (omega arith)
split_at zero (x ∷ m) h = (x, m, refl)
split_at (suc n) (x ∷ m) h = let (y, t, p) = split_at n m (omega arith) in (y, t, ap (λ z. x ∷ z) p)

take_over :
    (n : ℕ) (s t : Bytes)
    → length s ≤ n
    → (take n (s ++ 0 ∷ t) ≡ s) ⊎ ((t' : Bytes) × (take n (s ++ 0 ∷ t) ≡ s ++ 0 ∷ t'))
take_over zero [] t h = inl refl
take_over (suc n) [] t h = inr (take n t, refl)
take_over zero (x ∷ s) t h = absurd (omega arith)
take_over (suc n) (x ∷ s) t h = elim (take_over n s t (omega arith)) [
  | inl p ↦ inl (ap (λ z. x ∷ z) p)
  | inr q ↦ inr (q.0, ap (λ z. x ∷ z) q.1)
]

-- A collapsed text, with a NUL and more behind it or not, is left as it is.
c_str-collapse :
    (src text junk : Bytes)
    → IsCollapsed false text
    → Lacks 0 text
    → (src ≡ text) ⊎ ((t : Bytes) × (src ≡ text ++ 0 ∷ t))
    → c_str (collapse false src ++ 0 ∷ junk) ≡ text
c_str-collapse src text junk col lack (inl p) =
    rw (p, collapse_of_IsCollapsed false text col) (c_str-append text junk lack)
c_str-collapse src text junk col lack (inr (t, p)) =
    rw (p, collapse_at_nul false text t, collapse_of_IsCollapsed false text col, append_assoc)
      (c_str-append text _ lack)

-- Condensing what stands `k` bytes into an array that begins with a collapsed text.
condense_again :
    (text junk : Bytes) (k rounds : ℕ)
    → IsCollapsed false text
    → Lacks 0 text
    → k ≤ length text
    → length text ≤ rounds + k
    → rounds + k < length (text ++ 0 ∷ junk)
    → c_str (condense rounds (text ++ 0 ∷ junk) 0 k false) ≡ drop k text
condense_again text junk k rounds col lack le fit room =
    let m = text ++ 0 ∷ junk in
    let (y, t, split) =
      split_at rounds (drop k (text ++ 0 ∷ junk))
        (omega (arith, length-drop k (text ++ 0 ∷ junk))) in
    let src = take rounds (drop k (text ++ 0 ∷ junk)) in
    let known : length src ≡ rounds =
      omega
        (arith, length-take rounds (drop k (text ++ 0 ∷ junk)), length-drop k (text ++ 0 ∷ junk)) in
    let (rest, q) =
      condense-collapse src [] m t y k rounds 0 k false split (sym known) (omega arith) refl in
    let shape = take_over rounds (drop k text) junk (omega (arith, length-drop k text)) in
    let e : src ≡ take rounds (drop k text ++ 0 ∷ junk) =
      ap (take rounds) (drop_inside k text (0 ∷ junk) le) in
    ap c_str q
    ∙ c_str-collapse src (drop k text) rest (drop-IsCollapsed k text col) (All-drop _ k text lack)
        (rw e shape)

strip_from :
    (m : Bytes) (k n len : ℕ)
    → skip_spaces (length m) m 0 ≡ k
    → skip_spaces (length m) m k ≡ k
    → strlen m ≡ len
    → trim_end m k len ≡ k + n
    → trim_end m k (k + n) ≡ k + n
    → strip m ≡ condense n (condense n m 0 k false) 0 k false
unfolding strip
strip_from m k n len e1 e2 e3 e4 e5 =
    let d : k + n - k ≡ n = omega arith in rw (e1, e2, e3, e4, e5, d)

-- In an array that holds whitespace `lead`, a text that begins and ends with another byte, and
-- whitespace `trail`, the naming server's `strip` leaves the text with each run of whitespace as one
-- blank, but without its first `length lead` bytes, if it has so many.
pub strip-drop :
    (lead text trail pad : Bytes)
    → AllSpace lead
    → IsTrimmed text
    → AllSpace trail
    → Lacks 0 text
    → length lead ≤ length (collapse false text)
    → c_str (strip (line lead text trail pad)) ≡ drop (length lead) (collapse false text)
strip-drop lead text trail pad al trimmed at' lack le =
    let m = line lead text trail pad in
    let k = length lead in
    let n = length text in
    let (y, t, e) = nul_behind trail pad in
    let (junk, once) =
      condense-collapse text [] (line lead text trail pad) t y k n 0 k false
        (drop_lead lead text trail pad al trimmed at' ∙ ap (λ z. text ++ z) e) refl (omega arith)
        refl in
    ap c_str (
      strip_from m k n _ (skip_line lead text trail pad al trimmed at')
        (skip_line_again lead text trail pad al trimmed at')
        (strlen-line lead text trail pad al trimmed at' lack)
        (trim_line lead text trail pad al trimmed at' k (omega arith))
        (trim_line_again lead text trail pad al trimmed at' k))
    ∙ ap (λ z. c_str (condense n z 0 k false)) once
    ∙ condense_again (collapse false text) junk k n (collapse-IsCollapsed false text)
        (collapse-Lacks false text lack) le (omega (arith, length-collapse false text))
        (omega (
          arith,
          ap length once,
          length-condense n (line lead text trail pad) 0 k false,
          length-append lead (text ++ (trail ++ 0 ∷ pad)),
          length-append text (trail ++ 0 ∷ pad),
          length-append trail (0 ∷ pad),
        ))
