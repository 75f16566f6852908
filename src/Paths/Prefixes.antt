-- ===== src/Paths/Prefixes.antt =====
-- Taking a prefix off a path, and putting another in its place.
use nfs_mock.Base.{
  ◌+◌, ◌≡◌, ◌⊎◌, ap, ◌∙◌, sym, true, false, Bool-cases, inl, inr, none, some, [], ◌∷◌, ◌++◌, arith,
  length, drop, drop_at, Bytes, length-append, append_assoc, starts_with_split, starts_with,
}
use nfs_mock.Paths.{strstr, remove_prefix, replace_prefix}

-- `remove_prefix` takes the prefix off a string that starts with it, and returns any other unchanged.
pub remove_prefix_lem :
    (s p : Bytes)
    → ((starts_with s p ≡ true) × (p ++ remove_prefix s p ≡ s))
      ⊎ ((starts_with s p ≡ false) × (remove_prefix s p ≡ s))
unfolding remove_prefix
remove_prefix_lem s p = elim (Bool-cases (starts_with s p)) [
  | inl is ↦ inl (is, rw is (sym (starts_with_split s p is)))
  | inr not ↦ inr (not, rw not)
]

-- where `strstr` finds its second argument
pub data FoundIn (s p : Bytes) : Type 0 where
  absent : strstr s p ≡ none → FoundIn s p
  present :
      (before after : Bytes)
      → s ≡ before ++ (p ++ after)
      → strstr s p ≡ some (length before)
      → FoundIn s p

pub found_in : (s p : Bytes) → FoundIn s p
unfolding strstr
found_in [] p = elim (Bool-cases (starts_with [] p)) [
  | inl here ↦ present [] (drop (length p) []) (starts_with_split [] p here) (rw here)
  | inr other ↦ absent (rw other)
]
found_in (x ∷ s) p = go (found_in s p)
  where
    go : FoundIn s p → FoundIn (x ∷ s) p
    go later = elim (Bool-cases (starts_with (x ∷ s) p)) [
      | inl here ↦ present [] (drop (length p) (x ∷ s)) (starts_with_split (x ∷ s) p here) (rw here)
      | inr other ↦ elim later [
        | absent e ↦ absent (rw (other, e))
        | present before after e found ↦
            present (x ∷ before) after (ap (λ z. x ∷ z) e) (rw (other, found))
      ]
    ]

-- `replacePrefix` puts the replacement in place of everything up to the end of the first occurrence
-- of the prefix, wherever that stands, and returns a string without one unchanged.
pub replace_prefix_lem :
    (s p r : Bytes)
    → ((strstr s p ≡ none) × (replace_prefix s p r ≡ s))
      ⊎ ((before : Bytes) × (after : Bytes) × (s ≡ before ++ (p ++ after))
          × (strstr s p ≡ some (length before))
          × (replace_prefix s p r ≡ r ++ after))
unfolding replace_prefix
replace_prefix_lem s p r = elim (found_in s p) [
  | absent e ↦ inl (e, rw (e, replace_prefix))
  | present before after e found ↦ inr (
    before,
    after,
    e,
    found,
    rw (found, replace_prefix) (ap (λ t. r ++ t) (rest_behind before after e)),
  )
]
  where
    rest_behind :
        (before after : Bytes)
        → s ≡ before ++ (p ++ after)
        → drop (length before + length p) s ≡ after
    rest_behind before after e =
        ap (drop (length before + length p)) (e ∙ sym (append_assoc before p after))
        ∙ drop_at (before ++ p) after (length before + length p)
            (omega (arith, length-append before p))
