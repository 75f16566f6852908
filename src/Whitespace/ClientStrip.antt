-- ===== src/Whitespace/ClientStrip.antt =====
-- What the client's `strip` leaves of a line.
use nfs_mock.Base.{
  ℕ, zero, suc, ◌+◌, ◌-◌, ◌≡◌, refl, sym, ap, ◌∙◌, [], ◌∷◌, ◌++◌, append_assoc, arith, length,
  length-append, append-nil, drop-nil, drop, drop_inside, length-drop, set, set_at, drop_at, Bytes,
  Lacks, All-append, All-drop, c_str, c_str-append,
}
use nfs_mock.Whitespace.{strlen, skip_spaces, trim_end, shift_left, client_strip}
use nfs_mock.Whitespace.Scans.{read_ahead, drop_next, length-snoc}
use nfs_mock.Whitespace.Edges.{
  AllSpace, IsTrimmed, AllSpace-Lacks, line, nul_behind, skip_line, strlen-line, trim_line,
}

-- The shift copies `src` to the front; what stood there is overwritten, the rest stays.
shift_left-take :
    (src out r tail : Bytes) (gap rounds i start : ℕ)
    → drop gap r ≡ src ++ tail
    → rounds ≡ length src
    → start ≡ length out + gap
    → i ≡ length out
    → shift_left rounds (out ++ r) i start ≡ (out ++ src) ++ drop rounds r
unfolding shift_left
shift_left-take [] out r tail gap zero i start h n e w = rw append-nil
shift_left-take [] out r tail gap (suc rounds) i start h n e w = absurd (omega arith)
shift_left-take (c ∷ src) out r tail gap zero i start h n e w = absurd (omega arith)
shift_left-take (c ∷ src) out [] tail gap (suc rounds) i start h n e w = cc (drop-nil {A = ℕ} gap)
shift_left-take (c ∷ src) out (x ∷ r) tail gap (suc rounds) i start h n e w =
    ap (λ v. shift_left rounds (set (out ++ x ∷ r) i v) (suc i) (suc start))
      (read_ahead out (x ∷ r) gap start h e)
    ∙ ap (λ m. shift_left rounds m (suc i) (suc start))
        (set_at out x c r i w ∙ sym (append_assoc out (c ∷ []) r))
    ∙ shift_left-take src (out ++ c ∷ []) r tail gap rounds (suc i) (suc start)
        (drop_next gap x r h) (omega arith) (omega (arith, length-append out (c ∷ [])))
        (length-snoc out c i w)
    ∙ ap (λ s. s ++ drop rounds r) (append_assoc out (c ∷ []) src)

client_strip_from :
    (m : Bytes) (k n len : ℕ)
    → skip_spaces (length m) m 0 ≡ k
    → strlen m ≡ len
    → trim_end m k len ≡ k + n
    → client_strip m ≡ set (shift_left n m 0 k) (k + n) 0
unfolding client_strip
client_strip_from m k n len e1 e2 e3 = let d : k + n - k ≡ n = omega arith in rw (e1, e2, e3, d)

-- The array after the shift, with the terminator behind the old end of the text.
shifted :
    (lead text rest : Bytes) (y : ℕ)
    → set
        (shift_left (length text) (lead ++ (text ++ y ∷ rest)) 0 (length lead))
        (length lead + length text)
        0
      ≡ (text ++ drop (length text) (lead ++ text)) ++ 0 ∷ rest
shifted lead text rest y =
    let n = length text in
    ap (λ m. set m (length lead + n) 0)
      (shift_left-take text [] (lead ++ (text ++ y ∷ rest)) (y ∷ rest) (length lead) n 0
          (length lead) (drop_at lead _ _ refl) refl (omega arith) refl
        ∙ ap (λ m. text ++ drop n m) (sym (append_assoc lead text (y ∷ rest)))
        ∙ ap (λ m. text ++ m)
            (drop_inside n (lead ++ text) (y ∷ rest) (omega (arith, length-append lead text)))
        ∙ sym (append_assoc text (drop n (lead ++ text)) (y ∷ rest)))
    ∙ set_at (text ++ drop n (lead ++ text)) y 0 rest _ (
        omega (
          arith,
          length-append text (drop n (lead ++ text)),
          length-drop n (lead ++ text),
          length-append lead text,
        ))

-- In an array that holds whitespace `lead`, a text that begins and ends with another byte, and
-- whitespace `trail`, the client's `strip` leaves the text, and behind it the bytes of `lead` and
-- the text from position `length text` on: as many as there was whitespace in front.
pub client_strip-append :
    (lead text trail pad : Bytes)
    → AllSpace lead
    → IsTrimmed text
    → AllSpace trail
    → Lacks 0 text
    → c_str (client_strip (line lead text trail pad)) ≡ text ++ drop (length text) (lead ++ text)
client_strip-append lead text trail pad al trimmed at' lack =
    let m = line lead text trail pad in
    let (y, t, e) = nul_behind trail pad in
    ap c_str (
      client_strip_from m (length lead) (length text) _
        (skip_line lead text trail pad al trimmed at')
        (strlen-line lead text trail pad al trimmed at' lack)
        (trim_line lead text trail pad al trimmed at' (length lead) (omega arith))
      ∙ ap
          (λ w.
            set (shift_left (length text) (lead ++ (text ++ w)) 0 (length lead))
              (length lead + length text) 0)
          e
      ∙ shifted lead text t y)
    ∙ c_str-append (text ++ drop (length text) (lead ++ text)) t (
        All-append _ text _ lack (
          All-drop _ (length text) (lead ++ text)
            (All-append _ lead text (AllSpace-Lacks lead al) lack)))
