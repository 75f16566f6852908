-- ===== src/Paths/Slashes.antt =====
-- Directory part and file name.
use nfs_mock.Base.{
  ℕ, zero, suc, ◌+◌, ◌<◌, ◌≡◌, ◌≢◌, ◌-◌, Bool-cases, sym, get_or_at, get_or_over, get_or-All,
  lt→ltb, ◌⊎◌, inl, inr, refl, ap, ◌∙◌, none, some, [], ◌∷◌, ◌++◌, append_assoc, arith, length,
  length-append, get_or, take, drop, take_at, drop_at, Bytes, Lacks, ◌==◌, take_of_length-le,
}
use nfs_mock.Paths.{
  strrchr, last_slash_index, get_directory_path, get_file_name, get_substring_before_last_slash,
}

-- `strrchr` finds nothing, or the place behind which the byte does not stand.
pub data LastAt (c : ℕ) (s : Bytes) : Type 0 where
  nowhere : Lacks c s → strrchr s c ≡ none → LastAt c s
  behind :
      (dir file : Bytes)
      → s ≡ dir ++ c ∷ file
      → Lacks c file
      → strrchr s c ≡ some (length dir)
      → LastAt c s

pub last_at : (c : ℕ) (s : Bytes) → LastAt c s
unfolding strrchr
last_at c [] = nowhere tt refl
last_at c (x ∷ s) = go (last_at c s)
  where
    go : LastAt c s → LastAt c (x ∷ s)
    go (behind dir file e lack found) =
        behind (x ∷ dir) file (ap (λ z. x ∷ z) e) lack (rw found refl)
    go (nowhere lack absent) = elim (Bool-cases (x == c)) [
      | inl same ↦ behind [] s (ground arith) lack (rw (absent, same) refl)
      | inr other ↦ nowhere (ground arith, lack) (rw (absent, other) refl)
    ]

-- Above the last slash the downward loop finds nothing.
loop_over :
    (dir file : Bytes) (k i : ℕ)
    → Lacks b'/' file
    → i ≡ suc (length dir) + k
    → last_slash_index i (dir ++ b'/' ∷ file) ≡ some (length dir)
unfolding last_slash_index
loop_over dir file k zero lack e = absurd (omega arith)
loop_over dir file zero (suc i) lack e =
    let here = get_or_at dir b'/' file i 0 (omega arith) in
    let there : i ≡ length dir = omega arith in ground arith
loop_over dir file (suc k) (suc i) lack e =
    let here : get_or (dir ++ b'/' ∷ file) i 0 ≡ get_or file k 0 =
      get_or_over dir (b'/' ∷ file) i (suc k) 0 (omega arith) in
    let other : get_or file k 0 ≢ b'/' = get_or-All (λ c. c ≢ b'/') file k 0 (omega arith) lack in
    ground (arith, loop_over dir file k i lack (omega arith))

loop_none : (s : Bytes) (i : ℕ) → Lacks b'/' s → last_slash_index i s ≡ none
unfolding last_slash_index
loop_none s zero lack = refl
loop_none s (suc i) lack =
    let other : get_or s i 0 ≢ b'/' = get_or-All (λ c. c ≢ b'/') s i 0 (omega arith) lack in
    ground (arith, loop_none s i lack)

pub directory_behind :
    (dir file : Bytes) → Lacks b'/' file → get_directory_path (dir ++ b'/' ∷ file) ≡ dir
unfolding get_directory_path
directory_behind dir file lack =
    rw
      (
        loop_over dir file (length file) (length (dir ++ b'/' ∷ file)) lack
            (omega (arith, length-append dir (b'/' ∷ file))),
        get_directory_path,
      )
      (take_at dir (b'/' ∷ file) (length dir) refl)

pub directory_nowhere : (s : Bytes) → Lacks b'/' s → get_directory_path s ≡ s
unfolding get_directory_path
directory_nowhere s lack = rw (loop_none s (length s) lack, get_directory_path)

file_behind : (dir file : Bytes) → drop (suc (length dir)) (dir ++ b'/' ∷ file) ≡ file
file_behind dir file =
    ap (drop (suc (length dir))) (sym (append_assoc dir (b'/' ∷ []) file))
    ∙ drop_at (dir ++ b'/' ∷ []) file (suc (length dir))
        (omega (arith, length-append dir (b'/' ∷ [])))

-- The directory part and the file name, with the slash between them, spell a path that has a slash,
-- and the file name has none; of a path without one, both are the whole path.
pub directory-file_name :
    (path : Bytes)
    → ((get_directory_path path ++ b'/' ∷ get_file_name path ≡ path)
        × Lacks b'/' (get_file_name path))
      ⊎ (Lacks b'/' path × (get_directory_path path ≡ path) × (get_file_name path ≡ path))
unfolding get_file_name
directory-file_name path = elim (last_at b'/' path) [
  | nowhere lack absent ↦ inr (lack, directory_nowhere path lack, rw (absent, get_file_name))
  | behind dir file e lack found ↦
      let name : get_file_name path ≡ file =
        rw (found, get_file_name) (ap (drop (suc (length dir))) e ∙ file_behind dir file) in
      let parent = ap get_directory_path e ∙ directory_behind dir file lack in
      inl (rw (parent, name) (sym e), rw name lack)
]

-- With a buffer longer than the path, the storage server's `getSubstringBeforeLastSlash` computes what
-- `getDirectoryPath` does.
pub substring-eq-directory :
    (path output : Bytes) (size : ℕ)
    → length path < size
    → get_substring_before_last_slash path output size ≡ get_directory_path path
unfolding get_substring_before_last_slash
substring-eq-directory path output size fits = elim (last_at b'/' path) [
  | nowhere lack absent ↦
      rw (absent, get_substring_before_last_slash, directory_nowhere path lack)
        (take_of_length-le (size - 1) path (omega arith))
  | behind dir file e lack found ↦
      rw
        (
          found,
          get_substring_before_last_slash,
          lt→ltb (length dir) size (omega (arith, ap length e, length-append dir (b'/' ∷ file))),
        )
        (ap (take (length dir)) e
          ∙ take_at dir _ _ refl
          ∙ sym (ap get_directory_path e ∙ directory_behind dir file lack))
]
