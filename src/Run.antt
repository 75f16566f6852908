-- ===== src/Run.antt =====
-- Code that follows pointers: a result, a fault (NULL or a freed address is dereferenced), or rounds
-- of a loop that have run out.
use nfs_mock.Base.{◌≡◌, ap}

pub data Run {ℓ} (A : Type ℓ) : Type ℓ where
  done : A → Run A
  fault : Run A
  timeout : Run A

infixl 5 ◌>>=◌
abbrev pub ◌>>=◌ {ℓ κ} : {A : Type ℓ} {B : Type κ} → Run A → (A → Run B) → Run B
done a >>= f = f a
fault >>= f = fault
timeout >>= f = timeout

-- the result, or the default
unfoldable pub result {ℓ} : {A : Type ℓ} → A → Run A → A
result default (done a) = a
result default fault = default
result default timeout = default

pub done_injective {ℓ} : {A : Type ℓ} {a b : A} → done a ≡ done b → a ≡ b
unfolding result
done_injective {a} e = ap (result a) e

-- If the run has a result, it satisfies `P`.
abbrev pub After {ℓ κ} : {A : Type ℓ} → Run A → (A → Type κ) → Type κ
After (done a) P = P a
After fault P = Unit
After timeout P = Unit

pub After-any {ℓ} : {A : Type ℓ} (m : Run A) → After m (λ _. Unit {0})
After-any (done a) = tt
After-any fault = tt
After-any timeout = tt

module _ {ℓ κ ι} {A : Type ℓ} {B : Type κ} (P : A → Type ι) (Q : B → Type ι) where
  pub After-bind :
      (m : Run A) (f : A → Run B) → After m P → ((a : A) → P a → After (f a) Q) → After (m >>= f) Q
  After-bind (done a) f h k = k a h
  After-bind fault f h k = tt
  After-bind timeout f h k = tt
