-- ===== src/Whitespace/Scans.antt =====
-- One read and one write of an in-place loop. The array is `out ++ r`: `out` has been written, and
-- the loop reads `gap` bytes behind it.
use nfs_mock.Base.{
  ℕ, zero, suc, ◌+◌, ◌≡◌, sym, ◌∙◌, [], ◌∷◌, ◌++◌, append_assoc, arith, length, length-append, set,
  set_at, drop, drop-nil, Bytes,
}
use nfs_mock.Whitespace.{at}

pub drop_next :
    (gap : ℕ) (x : ℕ) (r : Bytes) {c : ℕ} {s : Bytes} → drop gap (x ∷ r) ≡ c ∷ s → drop gap r ≡ s
drop_next zero x r h = cc
drop_next (suc gap) x [] h = cc (drop-nil {A = ℕ} gap)
drop_next (suc gap) x (y ∷ r) h = drop_next gap y r h

pub drop-suc : (gap : ℕ) (r : Bytes) {c : ℕ} {s : Bytes} → drop gap r ≡ c ∷ s → drop (suc gap) r ≡ s
drop-suc gap [] h = cc (drop-nil {A = ℕ} gap)
drop-suc gap (x ∷ r) h = drop_next gap x r h

pub read_ahead :
    (out r : Bytes) (gap i : ℕ) {c : ℕ} {s : Bytes}
    → drop gap r ≡ c ∷ s
    → i ≡ length out + gap
    → at (out ++ r) i ≡ c
read_ahead [] [] zero i h e = cc
read_ahead [] [] (suc gap) i h e = cc
read_ahead [] (x ∷ r) zero zero h e = cc
read_ahead [] (x ∷ r) zero (suc i) h e = absurd (omega arith)
read_ahead [] (x ∷ r) (suc gap) zero h e = absurd (omega arith)
read_ahead [] (x ∷ r) (suc gap) (suc i) h e = read_ahead [] r gap i h (omega arith)
read_ahead (y ∷ out) r gap zero h e = absurd (omega arith)
read_ahead (y ∷ out) r gap (suc i) h e = read_ahead out r gap i h (omega arith)

module _ (out r : Bytes) (gap i : ℕ) {c : ℕ} {s : Bytes} (h : drop gap r ≡ c ∷ s)
    (e : i ≡ length out) where
  pub write_next :
      (v : ℕ) → (r' : Bytes) × (set (out ++ r) i v ≡ (out ++ v ∷ []) ++ r') × (drop gap r' ≡ s)
  write_next v = go r h
    where
      go :
          (q : Bytes)
          → drop gap q ≡ c ∷ s
          → (r' : Bytes) × (set (out ++ q) i v ≡ (out ++ v ∷ []) ++ r') × (drop gap r' ≡ s)
      go [] g = cc (drop-nil {A = ℕ} gap)
      go (x ∷ q) g =
          (q, set_at out x v q i e ∙ sym (append_assoc out (v ∷ []) q), drop_next gap x q g)

  pub write_last : (v : ℕ) → (junk : Bytes) × (set (out ++ r) i v ≡ out ++ v ∷ junk)
  write_last v = let (junk, p, _) = write_next v in (junk, p ∙ append_assoc out (v ∷ []) junk)

pub length-snoc : (out : Bytes) (v i : ℕ) → i ≡ length out → suc i ≡ length (out ++ v ∷ [])
length-snoc out v i e = omega (arith, length-append out (v ∷ []))
