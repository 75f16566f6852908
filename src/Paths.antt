-- ===== src/Paths.antt =====
-- The path and request helpers of the naming server (NamingServerModule.c: `getDirectoryPath`,
-- `getFileName`, `remove_prefix`, `extractPath`, `extractPathThird`) and of the storage server
-- (StorageServerModule.c: `getDirectoryPath`, `getSubstringBeforeLastSlash`, `replacePrefix`), over C
-- strings. A function that fills a buffer returns the string in it; where it leaves the buffer alone
-- it returns the string that was there.
pub mod Slashes
pub mod Words
pub mod Prefixes
use nfs_mock.Base.{
  ℕ, zero, suc, ◌+◌, ◌-◌, Bool, true, false, Option, none, some, List, [], ◌∷◌, ◌++◌, ltb, leb,
  ◌==◌, if◌then◌else◌, length, get_or, take, drop, Bytes, starts_with,
}
use mathlib.Core.Option

-- `strchr(s, c) - s`
unfoldable pub strchr : Bytes → ℕ → Option ℕ
strchr [] c = none
strchr (x ∷ s) c = let rest = Option.map suc (strchr s c) in if x == c then some 0 else rest

-- `strrchr(s, c) - s`
unfoldable pub strrchr : Bytes → ℕ → Option ℕ
strrchr [] c = none
strrchr (x ∷ s) c = elim (strrchr s c) [
  | some i ↦ some (suc i)
  | none ↦ if x == c then some 0 else none
]

-- `strstr(s, p) - s`
unfoldable pub strstr : Bytes → Bytes → Option ℕ
strstr [] p = if starts_with [] p then some 0 else none
strstr (x ∷ s) p =
    let rest = Option.map suc (strstr s p) in if starts_with (x ∷ s) p then some 0 else rest

-- The loop of `getDirectoryPath`, for the indices below the given one, from the largest down.
last_slash_index : ℕ → Bytes → Option ℕ
last_slash_index zero path = none
last_slash_index (suc i) path =
    let rest = last_slash_index i path in if get_or path i 0 == b'/' then some i else rest

pub get_directory_path : Bytes → Bytes
unfolding last_slash_index
get_directory_path path = elim (last_slash_index (length path) path) [
  | some i ↦ take i path
  | none ↦ path
]

unfoldable pub get_file_name : Bytes → Bytes
get_file_name path = elim (strrchr path b'/') [ some i ↦ drop (suc i) path | none ↦ path ]

-- `output` is the string in the buffer before, and `size` the size of the buffer.
pub get_substring_before_last_slash : Bytes → Bytes → ℕ → Bytes
get_substring_before_last_slash input output size = elim (strrchr input b'/') [
  | some i ↦ if ltb i size then take i input else output
  | none ↦ take (size - 1) input
]

unfoldable pub remove_prefix : Bytes → Bytes → Bytes
remove_prefix s prefix = if starts_with s prefix then drop (length prefix) s else s

unfoldable pub replace_prefix : Bytes → Bytes → Bytes → Bytes
replace_prefix original prefix replacement = elim (strstr original prefix) [
  | some i ↦ replacement ++ drop (i + length prefix) original
  | none ↦ original
]

-- What stands behind the blank at `from`, up to the blank `to` bytes further on or to the end.
word_behind : Bytes → ℕ → Option ℕ → Bytes
word_behind input from (some n) = take n (drop (suc from) input)
word_behind input from none = drop (suc from) input

-- `pathLength >= pathSize`
copy_word : Bytes → Bytes → ℕ → Bytes
copy_word word path size = if leb size (length word) then path else word

pub extract_path : Bytes → Bytes → ℕ → Bytes
unfolding word_behind copy_word
extract_path input path size = elim (strchr input b' ') [
  | none ↦ path
  | some first ↦
      copy_word (word_behind input first (strchr (drop (suc first) input) b' ')) path size
]

pub extract_path_third : Bytes → Bytes → ℕ → Bytes
unfolding word_behind copy_word
extract_path_third input path size = elim (strchr input b' ') [
  | none ↦ path
  | some first ↦ elim (strchr (drop (suc first) input) b' ') [
    | none ↦ path
    | some n ↦
        let second = suc first + n in
        copy_word (word_behind input second (strchr (drop (suc second) input) b' ')) path size
  ]
]
