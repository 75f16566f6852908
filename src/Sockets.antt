-- ===== src/Sockets.antt =====
-- What the listeners of both servers share: the answers of the system calls that set a socket up, a
-- process that may end, and what a listener does with the connections that it accepts.
use nfs_mock.Base.{
  inl, inr, Option-cases, ℕ, ◌≡◌, refl, ap, ◌∙◌, sym, Bool, true, false, Option, none, some, List,
  [], ◌∷◌, Bytes, ◌==◌, if◌then◌else◌,
}

-- The process has ended with the text that `perror` was given, or it goes on.
pub data Process {ℓ} (A : Type ℓ) : Type ℓ where
  exited : Bytes → Process A
  going : A → Process A

infixl 5 ◌>>=◌
abbrev pub ◌>>=◌ {ℓ κ} : {A : Type ℓ} {B : Type κ} → Process A → (A → Process B) → Process B
exited text >>= f = exited text
going a >>= f = f a

infixl 5 ◌>>◌
abbrev pub ◌>>◌ {ℓ κ} : {A : Type ℓ} {B : Type κ} → Process A → Process B → Process B
exited text >> m = exited text
going a >> m = m

-- `if (…) { perror(text); exit(EXIT_FAILURE); }`, for a call that has succeeded or not
abbrev pub exit_unless : Bool → Bytes → Process (Unit {0})
exit_unless succeeded text = if succeeded then going tt else exited text

-- The kernel's answers: a descriptor, `none` for -1, and whether a call on a descriptor succeeds.
pub record Kernel : Type 0 where
  pub socket : Option ℕ
  pub set_options : Option ℕ → Bool
  pub bind : (port : ℕ) → Option ℕ → Bool
  pub listen : Option ℕ → Bool

-- `socket(…) == 0`
abbrev pub is_zero : Option ℕ → Bool
is_zero none = false
is_zero (some fd) = fd == 0

-- `socket(…) < 0`
abbrev pub is_negative : Option ℕ → Bool
is_negative none = true
is_negative (some fd) = false

-- What a listener does: `perror` or a line of the log, a thread that is started, with what it is
-- given, or `pthread_detach` of a variable that `pthread_create` has not set.
pub data Event {ℓ} (A : Type ℓ) : Type ℓ where
  reported : Bytes → Event A
  started : A → Event A
  detached_unset : Event A

-- what the started threads are given, in order
unfoldable pub started_with {ℓ} : {A : Type ℓ} → List (Event A) → List A
started_with [] = []
started_with (reported text ∷ events) = started_with events
started_with (started a ∷ events) = a ∷ started_with events
started_with (detached_unset ∷ events) = started_with events

pub going_injective {ℓ} : {A : Type ℓ} {a b : A} → going a ≡ going b → a ≡ b
going_injective {A} {a} e = ap (λ (m : Process A). elim m [ exited text ↦ a | going c ↦ c ]) e

-- What goes on behind a step that may end the process: the step has gone on.
pub then-going {ℓ κ} :
    {A : Type ℓ} {B : Type κ} (m : Process A) (n : Process B) {b : B}
    → (m >> n) ≡ going b
    → ((a : A) × (m ≡ going a)) × (n ≡ going b)
then-going (exited text) n h = cc
then-going (going a) n h = ((a, refl), h)

-- A guard that goes on has held.
pub exit_unless-going {ℓ} :
    {A : Type ℓ} (succeeded : Bool) (text : Bytes) (n : Process A) {a : A}
    → (exit_unless succeeded text >> n) ≡ going a
    → (succeeded ≡ true) × (n ≡ going a)
exit_unless-going true text n h = (refl, h)
exit_unless-going false text n h = cc

pub bind-going {ℓ κ} :
    {A : Type ℓ} {B : Type κ} (m : Process A) (f : A → Process B) {b : B}
    → (m >>= f) ≡ going b
    → (a : A) × (m ≡ going a) × (f a ≡ going b)
bind-going (exited text) f h = cc
bind-going (going a) f h = (a, refl, h)

-- The kernel has given a descriptor, bound it to the port, and listens on it.
abbrev pub IsReady : Kernel → (port : ℕ) → Type 0
IsReady k port =
    (fd : ℕ) × (k.socket ≡ some fd) × (k.bind port (some fd) ≡ true) × (k.listen (some fd) ≡ true)

-- A call of `bind` on no descriptor fails, so the descriptor is one that was given.
pub bound-IsReady :
    (k : Kernel) (port : ℕ)
    → k.bind port none ≡ false
    → k.bind port k.socket ≡ true
    → k.listen k.socket ≡ true
    → IsReady k port
bound-IsReady k port bad bound listens = elim (Option-cases k.socket) [
  | inl missing ↦ cc
  | inr (fd, is) ↦ (fd, is, sym (ap (k.bind port) is) ∙ bound, sym (ap k.listen is) ∙ listens)
]
