-- ===== src/Base/Strings.antt =====
-- C strings. A string value is the list of its bytes without the terminator; a `char` array is the
-- list of all its bytes, and the string in it ends before the first NUL.
use Prim.Native.Nat.{ℕ}
use Prim.Native.Char.{code}
use Prim.Native.String.{String}
use mathlib.Core.Path.{◌≡◌, refl, ap, ◌∙◌}
use mathlib.Core.Logic.{◌≢◌, ◌↔◌}
use mathlib.Core.Bool.{Bool, true, false, ◌&&◌}
use mathlib.Core.List.{List, [], ◌∷◌, ◌++◌}
use native.Mathlib.Omega.{arith}
use nfs_mock.Base.Tests.{◌==◌, if◌then◌else◌}
use nfs_mock.Base.Lists.{All, length, drop}

abbrev pub Bytes : Type 0
Bytes = List ℕ

-- The bytes of an ASCII literal.
abbrev pub codes : String → Bytes
codes String.[] = []
codes (String.◌∷◌ c s) = code c ∷ codes s

abbrev pub Lacks : ℕ → Bytes → Type 0
Lacks b = All (λ c. c ≢ b)

-- `strcmp(s, t) == 0`
unfoldable pub str_eq : Bytes → Bytes → Bool
str_eq [] [] = true
str_eq (a ∷ s) (b ∷ t) = (a == b) && str_eq s t
str_eq _ _ = false

-- `strncmp(s, p, strlen(p)) == 0`
unfoldable pub starts_with : Bytes → Bytes → Bool
starts_with s [] = true
starts_with [] (b ∷ p) = false
starts_with (a ∷ s) (b ∷ p) = (a == b) && starts_with s p

-- The string that a `char` array holds.
unfoldable pub c_str : Bytes → Bytes
c_str [] = []
c_str (c ∷ m) = let rest = c_str m in if c == 0 then [] else c ∷ rest

-- `recv` into an array: what it held behind the received bytes stays.
unfoldable pub received_over : (block received : Bytes) → Bytes
received_over block received = received ++ drop (length received) block

pub str_eq_sound : (s t : Bytes) → str_eq s t ≡ true → s ≡ t
unfolding str_eq
str_eq_sound [] [] h = refl
str_eq_sound [] (b ∷ t) h = ground arith
str_eq_sound (a ∷ s) [] h = ground arith
str_eq_sound (a ∷ s) (b ∷ t) h = ground (arith, str_eq_sound s t)

pub str_eq_refl : (s : Bytes) → str_eq s s ≡ true
unfolding str_eq
str_eq_refl [] = refl
str_eq_refl (a ∷ s) = ground (arith, str_eq_refl s)

pub str_eq_iff : (s t : Bytes) → (str_eq s t ≡ true) ↔ (s ≡ t)
str_eq_iff s t = (str_eq_sound s t, λ e. rw e (str_eq_refl t))

pub c_str-append : (s m : Bytes) → Lacks 0 s → c_str (s ++ 0 ∷ m) ≡ s
unfolding c_str
c_str-append [] m h = refl
c_str-append (c ∷ s) m (hc, h) = ground (arith, c_str-append s m h)

-- A string received over an array that has a zero behind it is the string in the array.
pub c_str-received_over :
    (block received rest : Bytes)
    → Lacks 0 received
    → drop (length received) block ≡ 0 ∷ rest
    → c_str (received_over block received) ≡ received
unfolding received_over
c_str-received_over block received rest lacks ended =
    ap (λ l. c_str (received ++ l)) ended ∙ c_str-append received rest lacks

pub starts_with-append : (p s : Bytes) → starts_with (p ++ s) p ≡ true
unfolding starts_with
starts_with-append [] s = refl
starts_with-append (a ∷ p) s = ground (arith, starts_with-append p s)

-- A string that starts with `p` is `p` and the rest.
pub starts_with_split : (s p : Bytes) → starts_with s p ≡ true → s ≡ p ++ drop (length p) s
unfolding starts_with
starts_with_split s [] h = refl
starts_with_split [] (b ∷ p) h = ground arith
starts_with_split (a ∷ s) (b ∷ p) h = ground (arith, starts_with_split s p)
