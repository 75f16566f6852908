-- ===== src/Paths/Words.antt =====
-- The words of a request.
use nfs_mock.Base.{
  ℕ, suc, ◌+◌, ◌≡◌, refl, ap, ◌∙◌, sym, none, some, [], ◌∷◌, ◌++◌, append_assoc, append-nil, arith,
  length, length-append, drop, drop_at, take_at, Bytes, Lacks, leb, if◌then◌else◌,
}
use nfs_mock.Paths.{strchr, word_behind, copy_word, extract_path, extract_path_third}

pub strchr-append : (w r : Bytes) (c : ℕ) → Lacks c w → strchr (w ++ c ∷ r) c ≡ some (length w)
unfolding strchr
strchr-append [] r c h = ground arith
strchr-append (x ∷ w) r c (hx, h) = ground (arith, strchr-append w r c h)

pub strchr-none : (w : Bytes) (c : ℕ) → Lacks c w → strchr w c ≡ none
unfolding strchr
strchr-none [] c h = refl
strchr-none (x ∷ w) c (hx, h) = ground (arith, strchr-none w c h)

-- What stands behind the first blank of a request.
behind_blank : (w r : Bytes) → drop (suc (length w)) (w ++ b' ' ∷ r) ≡ r
behind_blank w r =
    ap (drop (suc (length w))) (sym (append_assoc w (b' ' ∷ []) r))
    ∙ drop_at (w ++ b' ' ∷ []) r (suc (length w)) (omega (arith, length-append w (b' ' ∷ [])))

-- the end of the request, or a blank and more
abbrev pub EndsWord : Bytes → Type 0
EndsWord [] = Unit
EndsWord (c ∷ r) = c ≡ b' '

word_at :
    (m w r : Bytes) (from : ℕ)
    → drop (suc from) m ≡ w ++ r
    → Lacks b' ' w
    → EndsWord r
    → word_behind m from (strchr (drop (suc from) m) b' ') ≡ w
unfolding word_behind
word_at m w [] from e lack h =
    let e' = e ∙ append-nil w in rw (e', strchr-none w b' ' lack, word_behind, e')
word_at m w (c ∷ r) from e lack h =
    let e' = e ∙ ap (λ x. w ++ x ∷ r) h in
    rw (e', strchr-append w r b' ' lack, word_behind, e') (take_at w (b' ' ∷ r) (length w) refl)

abbrev pub fitting : Bytes → Bytes → ℕ → Bytes
fitting word path size = if leb size (length word) then path else word

-- The second word of a request.
second_word :
    (command word rest path : Bytes) (size : ℕ)
    → Lacks b' ' command
    → Lacks b' ' word
    → EndsWord rest
    → extract_path (command ++ b' ' ∷ (word ++ rest)) path size ≡ fitting word path size
unfolding extract_path copy_word
second_word command word rest path size lc lw h =
    rw (strchr-append command (word ++ rest) b' ' lc, extract_path)
      (ap (λ w. fitting w path size)
        (word_at _ word rest (length command) (behind_blank command _) lw h))

-- The third word, behind two blanks.
third_word :
    (command first word rest path : Bytes) (size : ℕ)
    → Lacks b' ' command
    → Lacks b' ' first
    → Lacks b' ' word
    → EndsWord rest
    → extract_path_third (command ++ b' ' ∷ (first ++ b' ' ∷ (word ++ rest))) path size
      ≡ fitting word path size
unfolding extract_path_third copy_word
third_word command first word rest path size lc lf lw h =
    let m = command ++ b' ' ∷ (first ++ b' ' ∷ (word ++ rest)) in
    let before = command ++ b' ' ∷ (first ++ b' ' ∷ []) in
    let at_first = strchr-append command (first ++ b' ' ∷ (word ++ rest)) b' ' lc in
    let tail = behind_blank command (first ++ b' ' ∷ (word ++ rest)) in
    let at_second = ap (λ t. strchr t b' ') tail ∙ strchr-append first (word ++ rest) b' ' lf in
    let from = suc (length command) + length first in
    let left : drop (suc from) m ≡ word ++ rest =
      ap (drop (suc from)) (simp append_assoc)
      ∙ drop_at before (word ++ rest) (suc from) (
          omega (
            arith,
            length-append command (b' ' ∷ (first ++ b' ' ∷ [])),
            length-append first (b' ' ∷ []),
          )) in
    rw (at_first, extract_path_third, at_second)
      (ap (λ w. fitting w path size) (word_at m word rest from left lw h))

-- Of a request whose words are separated by single blanks, `extractPath` yields the second word and
-- `extractPathThird` the third, if it is shorter than the buffer; a longer word leaves the buffer as
-- it was, and so does a request that has no such word.
pub extract_words :
    (command first second rest path : Bytes) (size : ℕ)
    → Lacks b' ' command
    → Lacks b' ' first
    → Lacks b' ' second
    → EndsWord rest
    → (extract_path command path size ≡ path)
      × (extract_path (command ++ b' ' ∷ (first ++ rest)) path size ≡ fitting first path size)
      × (extract_path_third (command ++ b' ' ∷ first) path size ≡ path)
      × (extract_path_third (command ++ b' ' ∷ (first ++ b' ' ∷ (second ++ rest))) path size
          ≡ fitting second path size)
unfolding extract_path extract_path_third
extract_words command first second rest path size lc lf ls h =
    let no_blank = strchr-none command b' ' lc in
    let one_blank = strchr-append command first b' ' lc in
    let after = ap (λ t. strchr t b' ') (behind_blank command first) ∙ strchr-none first b' ' lf in
    (
      rw (no_blank, extract_path),
      second_word command first rest path size lc lf h,
      rw (one_blank, extract_path_third, after),
      third_word command first second rest path size lc lf ls h,
    )
