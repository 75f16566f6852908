-- ===== src/Decimal.antt =====
-- What `printf("%d")` prints for a number that is not negative, and what `atoi` reads.
use nfs_mock.Base.{
  ◌≢◌, ℕ, zero, suc, ◌+◌, ◌-◌, ◌*◌, ◌/◌, ◌%◌, ◌≤◌, ◌<◌, ◌≡◌, refl, ap, ◌∙◌, Bool, false, ◌&&◌, [],
  ◌∷◌, ◌++◌, arith, Bool-cases, inl, inr, sym, Bytes, All, ltb, leb, ◌==◌, if◌then◌else◌,
}
use nfs_mock.Whitespace.{is_space}

-- an `int`: `negsuc n` is -(n + 1)
pub data ℤ : Type 0 where
  pos : ℕ → ℤ
  negsuc : ℕ → ℤ

abbrev pub is_digit : ℕ → Bool
is_digit c = leb b'0' c && leb c b'9'

-- The digits of `n`, in front of those that stand in `out`.
emit : ℕ → ℕ → Bytes → Bytes
emit zero n out = out
emit (suc fuel) n out =
    let rest = emit fuel (n / 10) ((b'0' + n % 10) ∷ out) in
    if ltb n 10 then (b'0' + n) ∷ out else rest

unfoldable pub decimal : ℕ → Bytes
unfolding emit
decimal n = emit (suc n) n []

-- The digits at the front, behind the value `n`.
scan : ℕ → Bytes → ℕ
scan n [] = n
scan n (c ∷ s) = if is_digit c then scan (n * 10 + (c - b'0')) s else n

negate : ℕ → ℤ
negate zero = pos 0
negate (suc n) = negsuc n

signed : Bytes → ℤ
unfolding scan negate
signed [] = pos 0
signed (c ∷ s) =
    if c == b'-'
    then negate (scan 0 s)
    else if c == b'+'
    then pos (scan 0 s)
    else pos (scan 0 (c ∷ s))

-- `int` is not exceeded by what the program reads: ports, counts and reply codes.
unfoldable pub atoi : Bytes → ℤ
unfolding signed
atoi [] = signed []
atoi (c ∷ s) = if is_space c then atoi s else signed (c ∷ s)

abbrev pub IsDigits : Bytes → Type 0
IsDigits = All (λ c. (b'0' ≤ c) × (c ≤ b'9'))

emit-IsDigits : (fuel n : ℕ) (out : Bytes) → IsDigits out → IsDigits (emit fuel n out)
unfolding emit
emit-IsDigits zero n out h = h
emit-IsDigits (suc fuel) n out h =
    ground (arith, emit-IsDigits fuel (n / 10) ((b'0' + n % 10) ∷ out))

pub decimal-IsDigits : (n : ℕ) → IsDigits (decimal n)
unfolding decimal
decimal-IsDigits n = emit-IsDigits (suc n) n [] tt

scan-emit : (fuel n : ℕ) (out : Bytes) → n < fuel → scan 0 (emit fuel n out) ≡ scan n out
unfolding emit scan
scan-emit zero n out h = absurd (omega arith)
scan-emit (suc fuel) n out h = ground (arith, scan-emit fuel (n / 10) ((b'0' + n % 10) ∷ out))

emit-append : (fuel n : ℕ) (out rest : Bytes) → emit fuel n out ++ rest ≡ emit fuel n (out ++ rest)
unfolding emit
emit-append zero n out rest = refl
emit-append (suc fuel) n out rest =
    ground (arith, emit-append fuel (n / 10) ((b'0' + n % 10) ∷ out) rest)

-- what does not begin with a digit
abbrev pub EndsNumber : Bytes → Type 0
EndsNumber [] = Unit
EndsNumber (c ∷ s) = is_digit c ≡ false

emit_cons :
    (fuel n : ℕ) (out : Bytes)
    → n < fuel
    → (d : ℕ) × (s : Bytes) × (emit fuel n out ≡ d ∷ s) × (b'0' ≤ d) × (d ≤ b'9')
unfolding emit
emit_cons zero n out h = absurd (omega arith)
emit_cons (suc fuel) n out h = elim (Bool-cases (ltb n 10)) [
  | inl small ↦ (b'0' + n, out, ground arith, ground arith, ground arith)
  | inr large ↦
      let (d, s, e, lo, hi) = emit_cons fuel (n / 10) ((b'0' + n % 10) ∷ out) (ground arith) in
      (d, s, rw large e, lo, hi)
]

scan_ends : (n : ℕ) (rest : Bytes) → EndsNumber rest → scan n rest ≡ n
unfolding scan
scan_ends n [] h = refl
scan_ends n (c ∷ s) h = rw h

atoi_digit : (d : ℕ) (s : Bytes) → b'0' ≤ d → d ≤ b'9' → atoi (d ∷ s) ≡ pos (scan 0 (d ∷ s))
unfolding atoi
atoi_digit d s lo hi = ground arith

-- `atoi` reads back what `%d` prints, up to the first byte that is no digit.
pub atoi-decimal : (n : ℕ) (rest : Bytes) → EndsNumber rest → atoi (decimal n ++ rest) ≡ pos n
unfolding decimal
atoi-decimal n rest h =
    let (d, s, e, lo, hi) = emit_cons (suc n) n [] (omega arith) in
    let read = ap (λ t. t ++ rest) e in
    ap atoi read
    ∙ atoi_digit d (s ++ rest) lo hi
    ∙ ap pos (
        ap (scan 0) (sym read ∙ emit-append (suc n) n [] rest)
        ∙ scan-emit (suc n) n rest (omega arith)
        ∙ scan_ends n rest h)

pub decimal-nonempty : (n : ℕ) → decimal n ≢ []
unfolding decimal
decimal-nonempty n h = let (d, s, e, lo, hi) = emit_cons (suc n) n [] (omega arith) in cc
