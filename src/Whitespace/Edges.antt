-- ===== src/Whitespace/Edges.antt =====
-- Where the loops over leading and trailing whitespace stop.
use nfs_mock.Base.{
  ℕ, zero, suc, ◌+◌, ◌≤◌, ◌<◌, ◌≡◌, refl, ap, ◌∙◌, true, false, [], ◌∷◌, ◌++◌, append_assoc, arith,
  length, length-append, drop, drop_at, Bytes, All, All-append, Lacks, c_str, c_str-append,
}
use nfs_mock.Whitespace.{is_space, at, strlen, skip_spaces, trim_end}
use nfs_mock.Whitespace.Scans.{read_ahead, drop-suc}

abbrev pub AllSpace : Bytes → Type 0
AllSpace = All (λ c. is_space c ≡ true)

abbrev pub EndsSolid : Bytes → Type 0
EndsSolid [] = ⊥
EndsSolid (c ∷ []) = is_space c ≡ false
EndsSolid (c ∷ d ∷ s) = EndsSolid (d ∷ s)

-- a text with no whitespace at either edge
abbrev pub IsTrimmed : Bytes → Type 0
IsTrimmed [] = ⊥
IsTrimmed (c ∷ s) = (is_space c ≡ false) × EndsSolid (c ∷ s)

pub skip_spaces_lem :
    (s : Bytes) (fuel : ℕ) (m : Bytes) (start : ℕ) (c : ℕ) (r : Bytes)
    → drop start m ≡ s ++ c ∷ r
    → AllSpace s
    → is_space c ≡ false
    → length s ≤ fuel
    → skip_spaces fuel m start ≡ start + length s
unfolding skip_spaces
skip_spaces_lem [] zero m start c r h a n f = omega arith
skip_spaces_lem [] (suc fuel) m start c r h a n f =
    let here = read_ahead [] m start start h (omega arith) in ground arith
skip_spaces_lem (d ∷ s) zero m start c r h a n f = absurd (omega arith)
skip_spaces_lem (d ∷ s) (suc fuel) m start c r h (a, as') n f =
    let here = read_ahead [] m start start h (omega arith) in
    ground (arith, skip_spaces_lem s fuel m (suc start) c r (drop-suc start m h) as' n)

all_at :
    (s : Bytes) (m : Bytes) (a : ℕ) (r : Bytes)
    → drop a m ≡ s ++ r
    → AllSpace s
    → (i : ℕ) → i < length s
    → is_space (at m (a + i)) ≡ true
all_at [] m a r h all i lt = absurd (omega arith)
all_at (c ∷ s) m a r h (p, all) zero lt =
    ap is_space (read_ahead [] m a (a + 0) h (omega arith)) ∙ p
all_at (c ∷ s) m a r h (p, all) (suc i) lt =
    let e : a + suc i ≡ suc a + i = omega arith in
    ap (λ k. is_space (at m k)) e ∙ all_at s m (suc a) r (drop-suc a m h) all i (omega arith)

trim_end_over :
    (k : ℕ) (m : Bytes) (start stop e : ℕ)
    → stop ≡ e + k
    → start ≤ e
    → ((i : ℕ) → i < k → is_space (at m (e + i)) ≡ true)
    → trim_end m start stop ≡ trim_end m start e
unfolding trim_end
trim_end_over zero m start stop e p q h = ap (trim_end m start) (omega arith)
trim_end_over (suc k) m start zero e p q h = absurd (omega arith)
trim_end_over (suc k) m start (suc stop) e p q h =
    let s : stop ≡ e + k = omega arith in
    let here : is_space (at m stop) ≡ true = ap (λ j. is_space (at m j)) s ∙ h k (omega arith) in
    ground (arith, here, trim_end_over k m start stop e s q (λ i lt. h i (omega arith)))

last_solid :
    (s : Bytes) (m : Bytes) (a : ℕ) (r : Bytes)
    → drop a m ≡ s ++ r
    → EndsSolid s
    → (e : ℕ) × (a + length s ≡ suc e) × (is_space (at m e) ≡ false)
last_solid [] m a r h n = absurd n
last_solid (c ∷ []) m a r h n =
    (a, omega arith, ap is_space (read_ahead [] m a a h (omega arith)) ∙ n)
last_solid (c ∷ d ∷ s) m a r h n =
    let (e, p, q) = last_solid (d ∷ s) m (suc a) r (drop-suc a m h) n in (e, omega arith, q)

trim_end_solid :
    (m : Bytes) (start stop : ℕ) {e : ℕ}
    → stop ≡ suc e
    → is_space (at m e) ≡ false
    → trim_end m start stop ≡ stop
trim_end_solid m start zero p q = absurd (omega arith)
trim_end_solid m start (suc stop) p q =
    let s : is_space (at m stop) ≡ false = ap (λ j. is_space (at m j)) (omega arith) ∙ q in
    unfold trim_end in ground arith

pub IsTrimmed-EndsSolid : (s : Bytes) → IsTrimmed s → EndsSolid s
IsTrimmed-EndsSolid [] h = absurd h
IsTrimmed-EndsSolid (c ∷ s) h = h.1

pub AllSpace-Lacks : (s : Bytes) → AllSpace s → Lacks 0 s
AllSpace-Lacks [] h = tt
AllSpace-Lacks (c ∷ s) (p, h) = ground (arith, AllSpace-Lacks s h)

-- a line in its array: whitespace, a trimmed text, whitespace, the terminator
abbrev pub line : Bytes → Bytes → Bytes → Bytes → Bytes
line lead text trail pad = lead ++ (text ++ (trail ++ 0 ∷ pad))

pub nul_behind : (w pad : Bytes) → (y : ℕ) × (t : Bytes) × (w ++ 0 ∷ pad ≡ y ∷ t)
nul_behind [] pad = (0, pad, refl)
nul_behind (x ∷ w) pad = (x, w ++ 0 ∷ pad, refl)

module _ (lead text trail pad : Bytes) (al : AllSpace lead) (trimmed : IsTrimmed text)
    (at' : AllSpace trail) where
  pub drop_lead : drop (length lead) (line lead text trail pad) ≡ text ++ (trail ++ 0 ∷ pad)
  drop_lead = drop_at lead _ (length lead) refl

  pub drop_text : drop (length lead + length text) (line lead text trail pad) ≡ trail ++ 0 ∷ pad
  drop_text =
      ap (drop (length lead + length text)) (rw append_assoc)
      ∙ drop_at (lead ++ text) _ _ (omega (arith, length-append lead text))

  pub skip_line :
      skip_spaces (length (line lead text trail pad)) (line lead text trail pad) 0 ≡ length lead
  skip_line = skip_text text trimmed
    where
      skip_text :
          (t : Bytes)
          → IsTrimmed t
          → skip_spaces (length (line lead t trail pad)) (line lead t trail pad) 0 ≡ length lead
      skip_text [] h = absurd h
      skip_text (c ∷ t) h =
          skip_spaces_lem lead _ _ 0 c _ refl al h.0 (omega (arith, length-append lead _))
          ∙ omega arith

  pub skip_line_again :
      skip_spaces (length (line lead text trail pad)) (line lead text trail pad) (length lead)
      ≡ length lead
  skip_line_again = skip_text text trimmed drop_lead
    where
      skip_text :
          (t : Bytes)
          → IsTrimmed t
          → drop (length lead) (line lead text trail pad) ≡ t ++ (trail ++ 0 ∷ pad)
          → skip_spaces (length (line lead text trail pad)) (line lead text trail pad) (length lead)
            ≡ length lead
      skip_text [] h e = absurd h
      skip_text (c ∷ t) h e =
          skip_spaces_lem [] _ _ (length lead) c _ e tt h.0 (omega arith) ∙ omega arith

  pub strlen-line :
      Lacks 0 text → strlen (line lead text trail pad) ≡ length lead + length text + length trail
  strlen-line lack =
      ap (λ m. length (c_str m)) e
      ∙ ap length (c_str-append whole pad whole-Lacks)
      ∙ omega (arith, length-append lead (text ++ trail), length-append text trail)
    where
      whole : Bytes
      whole = lead ++ (text ++ trail)

      e : line lead text trail pad ≡ whole ++ 0 ∷ pad
      e = simp append_assoc

      whole-Lacks : Lacks 0 whole
      whole-Lacks =
          All-append _ lead _ (AllSpace-Lacks lead al)
            (All-append _ text _ lack (AllSpace-Lacks trail at'))

  pub trim_line :
      (start : ℕ)
      → start ≤ length lead + length text
      → trim_end (line lead text trail pad) start (length lead + length text + length trail)
        ≡ length lead + length text
  trim_line start le =
      let m = line lead text trail pad in
      let (e, p, q) =
        last_solid text m (length lead) _ drop_lead (IsTrimmed-EndsSolid text trimmed) in
      trim_end_over (length trail) m start _ (length lead + length text) refl le
        (all_at trail m _ _ drop_text at')
      ∙ trim_end_solid m start _ p q

  pub trim_line_again :
      (start : ℕ)
      → trim_end (line lead text trail pad) start (length lead + length text)
        ≡ length lead + length text
  trim_line_again start =
      let m = line lead text trail pad in
      let (e, p, q) =
        last_solid text m (length lead) _ drop_lead (IsTrimmed-EndsSolid text trimmed) in
      trim_end_solid m start _ p q
