-- ===== src/Checks.antt =====
-- A property of every byte of a text, from a test that is run.
use nfs_mock.Base.{ℕ, ◌≡◌, true, false, Bool, not, ◌&&◌, [], ◌∷◌, arith, Bytes, All, Lacks, ◌==◌}

abbrev pub every : (ℕ → Bool) → Bytes → Bool
every test [] = true
every test (c ∷ s) = test c && every test s

pub every-All : (test : ℕ → Bool) (s : Bytes) → every test s ≡ true → All (λ c. test c ≡ true) s
every-All test [] h = tt
every-All test (c ∷ s) h = (ground arith, every-All test s (ground arith))

pub every-not-All :
    (test : ℕ → Bool) (s : Bytes) → every (λ c. not (test c)) s ≡ true → All (λ c. test c ≡ false) s
every-not-All test [] h = tt
every-not-All test (c ∷ s) h = (ground arith, every-not-All test s (ground arith))

pub every-Lacks : (b : ℕ) (s : Bytes) → every (λ c. not (c == b)) s ≡ true → Lacks b s
every-Lacks b [] h = tt
every-Lacks b (c ∷ s) h = (ground arith, every-Lacks b s (ground arith))
