-- ===== src/StorageServer/MadeFolders.antt =====
-- What `mkdir_p` and a CREATE leave on the disk (StorageServerModule.c).
use nfs_mock.Base.{
  ℕ, ◌≡◌, inl, inr, refl, sym, ap, ◌∙◌, true, false, Bool-cases, [], ◌∷◌, ◌++◌, append_assoc,
  append-nil, Bytes, ◌==◌, ==_refl,
}
use mathlib.Core.Bool.{false≢true}
use nfs_mock.StorageServer.FileSystem.{FileSystem}
use nfs_mock.StorageServer.Folders.{mkdir_loop, mkdir_p}

module _ (fs : FileSystem) where
  open fs use {Disk, exists, mkdir, mkdir_empty, mkdir-exists, exists-mkdir}

  mkdir_loop-slash :
      (before rest : Bytes) (d : Disk)
      → (mkdir before d).0 ≡ true
      → mkdir_loop fs before (b'/' ∷ rest) d
        ≡ mkdir_loop fs (before ++ b'/' ∷ []) rest (mkdir before d).1
  unfolding mkdir_loop
  mkdir_loop-slash before rest d made = rw made

  mkdir_loop_stops :
      (before rest : Bytes) (d : Disk)
      → (mkdir before d).0 ≡ false
      → mkdir_loop fs before (b'/' ∷ rest) d ≡ mkdir before d
  unfolding mkdir_loop
  mkdir_loop_stops before rest d made = rw made

  -- `mkdir_p` fails for every path that begins with a slash.
  pub mkdir_p_absolute : (rest : Bytes) (d : Disk) → (mkdir_p fs (b'/' ∷ rest) d).0 ≡ false
  unfolding mkdir_p
  mkdir_p_absolute rest d =
      ap (λ r. r.0) (mkdir_loop_stops [] rest d (mkdir_empty d)) ∙ mkdir_empty d

  mkdir_loop-other :
      (before : Bytes) (c : ℕ) (rest : Bytes) (d : Disk)
      → (c == b'/') ≡ false
      → mkdir_loop fs before (c ∷ rest) d ≡ mkdir_loop fs (before ++ c ∷ []) rest d
  unfolding mkdir_loop
  mkdir_loop-other before c rest d other = rw other

  -- What exists goes on existing.
  exists-mkdir_loop :
      (q before rest : Bytes) (d : Disk)
      → exists q d ≡ true
      → exists q (mkdir_loop fs before rest d).1 ≡ true
  unfolding mkdir_loop
  exists-mkdir_loop q before [] d h = exists-mkdir before q d h
  exists-mkdir_loop q before (c ∷ rest) d h = elim (Bool-cases (c == b'/')) [
    | inl slash ↦ elim (Bool-cases (mkdir before d).0) [
      | inl made ↦
          rw (slash, made)
            (exists-mkdir_loop q (before ++ c ∷ []) rest (mkdir before d).1
              (exists-mkdir before q d h))
      | inr failed ↦ rw (slash, failed) (exists-mkdir before q d h)
    ]
    | inr other ↦ rw other (exists-mkdir_loop q (before ++ c ∷ []) rest d h)
  ]

  -- a step of the loop that succeeds goes on from some disk, where what was made exists
  step_on :
      (before : Bytes) (c : ℕ) (rest : Bytes) (d : Disk)
      → (mkdir_loop fs before (c ∷ rest) d).0 ≡ true
      → (d' : Disk) × (mkdir_loop fs before (c ∷ rest) d ≡ mkdir_loop fs (before ++ c ∷ []) rest d')
        × ((c == b'/') ≡ true → exists before d' ≡ true)
  unfolding mkdir_loop
  step_on before c rest d ok = elim (Bool-cases (c == b'/')) [
    | inl slash ↦ elim (Bool-cases (mkdir before d).0) [
      | inl made ↦ ((mkdir before d).1, rw (slash, made) refl, λ s. mkdir-exists before d made)
      | inr failed ↦ absurd (false≢true (sym (stopped slash failed) ∙ ok))
    ]
    | inr other ↦ (d, rw other refl, λ s. absurd (false≢true (sym other ∙ s)))
  ]
    where
      stopped :
          (c == b'/') ≡ true
          → (mkdir before d).0 ≡ false
          → (mkdir_loop fs before (c ∷ rest) d).0 ≡ false
      stopped slash failed = rw (slash, failed) refl

  made_prefix :
      (a before b : Bytes) (d : Disk)
      → (mkdir_loop fs before (a ++ b'/' ∷ b) d).0 ≡ true
      → exists (before ++ a) (mkdir_loop fs before (a ++ b'/' ∷ b) d).1 ≡ true
  made_prefix [] before b d ok =
      let (d', e, here) = step_on before b'/' b d ok in
      ap (λ r. exists (before ++ []) r.1) e
      ∙ ap (λ q. exists q (mkdir_loop fs (before ++ b'/' ∷ []) b d').1) (append-nil before)
      ∙ exists-mkdir_loop before (before ++ b'/' ∷ []) b d' (here (==_refl b'/'))
  made_prefix (c ∷ a) before b d ok =
      let (d', e, here) = step_on before c (a ++ b'/' ∷ b) d ok in
      ap (λ r. exists (before ++ c ∷ a) r.1) e
      ∙ ap (λ q. exists q (mkdir_loop fs (before ++ c ∷ []) (a ++ b'/' ∷ b) d').1)
          (sym (append_assoc before (c ∷ []) a))
      ∙ made_prefix a (before ++ c ∷ []) b d' (sym (ap (λ r. r.0) e) ∙ ok)

  made_path :
      (rest before : Bytes) (d : Disk)
      → (mkdir_loop fs before rest d).0 ≡ true
      → exists (before ++ rest) (mkdir_loop fs before rest d).1 ≡ true
  unfolding mkdir_loop
  made_path [] before d ok =
      ap (λ q. exists q (mkdir before d).1) (append-nil before) ∙ mkdir-exists before d ok
  made_path (c ∷ rest) before d ok =
      let (d', e, here) = step_on before c rest d ok in
      ap (λ r. exists (before ++ c ∷ rest) r.1) e
      ∙ ap (λ q. exists q (mkdir_loop fs (before ++ c ∷ []) rest d').1)
          (sym (append_assoc before (c ∷ []) rest))
      ∙ made_path rest (before ++ c ∷ []) d' (sym (ap (λ r. r.0) e) ∙ ok)

  -- If `mkdir_p` returns 0 for a path with a slash, the path exists, and so does what stands before
  -- the slash, whichever slash that is.
  pub mkdir_p-exists :
      (a b : Bytes) (d : Disk)
      → (mkdir_p fs (a ++ b'/' ∷ b) d).0 ≡ true
      → (exists (a ++ b'/' ∷ b) (mkdir_p fs (a ++ b'/' ∷ b) d).1 ≡ true)
        × (exists a (mkdir_p fs (a ++ b'/' ∷ b) d).1 ≡ true)
  unfolding mkdir_p
  mkdir_p-exists a b d ok = (made_path (a ++ b'/' ∷ b) [] d ok, made_prefix a [] b d ok)
