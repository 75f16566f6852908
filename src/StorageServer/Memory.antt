-- ===== src/StorageServer/Memory.antt =====
-- A disk in memory, which meets the laws of a file system: for each path `none` for a directory, or the
-- bytes of the file.
use nfs_mock.Base.{
  ◌≡◌, refl, Bool, true, false, Bool-cases, inl, inr, Option, none, some, List, [], ◌∷◌, ◌++◌,
  append-nil, drop, drop-nil, length, ap, ◌∙◌, Bytes, str_eq, str_eq_refl, if◌then◌else◌,
}
use nfs_mock.StorageServer.FileSystem.{FileSystem}
use nfs_mock.StorageServer.Archive.{Shell}

abbrev pub MemoryDisk : Type 0
MemoryDisk = List (Bytes × Option Bytes)

unfoldable pub look : Bytes → MemoryDisk → Option (Option Bytes)
look p [] = none
look p ((q, f) ∷ d) = if str_eq q p then some f else look p d

unfoldable pub is_there : Bytes → MemoryDisk → Bool
is_there p [] = false
is_there p ((q, f) ∷ d) = if str_eq q p then true else is_there p d

-- a folder is made where nothing is, and its name must not be empty
unfoldable pub make_folder : Bytes → MemoryDisk → Bool × MemoryDisk
unfolding is_there
make_folder [] d = (false, d)
make_folder (c ∷ p) d = (true, (c ∷ p, none) ∷ d)

unfoldable pub file_of : Option (Option Bytes) → Option (Option Bytes)
file_of (some (some b)) = some (some b)
file_of _ = none

pub make_folder_empty : (d : MemoryDisk) → (make_folder [] d).0 ≡ false
unfolding make_folder
make_folder_empty d = refl

pub make_folder-there :
    (p : Bytes) (d : MemoryDisk)
    → (make_folder p d).0 ≡ true
    → is_there p (make_folder p d).1 ≡ true
unfolding make_folder is_there
make_folder-there [] d h = cc
make_folder-there (c ∷ p) d h = rw (str_eq_refl (c ∷ p)) refl

pub there-make_folder :
    (p q : Bytes) (d : MemoryDisk) → is_there q d ≡ true → is_there q (make_folder p d).1 ≡ true
unfolding make_folder is_there
there-make_folder [] q d h = h
there-make_folder (c ∷ p) q d h = elim (Bool-cases (str_eq (c ∷ p) q)) [
  | inl same ↦ rw same refl
  | inr other ↦ rw other h
]

pub look-write :
    (p b c : Bytes) (d d' : MemoryDisk)
    → ◌≡◌ {A = Option (Bool × MemoryDisk)} (some (true, (p, some b) ∷ d)) (some (true, d'))
    → file_of (look p d') ≡ some (some c)
    → c ≡ b
unfolding look file_of
look-write p b c d d' e h =
    let there : file_of (look p ((p, some b) ∷ d)) ≡ some (some b) = rw (str_eq_refl p) refl in cc

abbrev pub memory : FileSystem
memory = record {
  Disk = MemoryDisk;
  exists = is_there;
  stat = λ p d. none;
  mkdir = make_folder;
  create = λ p d. (true, (p, some []) ∷ d);
  unlink = λ p d. (false, d);
  rmdir = λ p d. (false, d);
  entries = λ p d. none;
  read = λ p d. file_of (look p d);
  write = λ p b d. some (true, (p, some b) ∷ d);
  mkdir_empty = make_folder_empty;
  mkdir-exists = make_folder-there;
  exists-mkdir = there-make_folder;
  read-write = look-write;
}

-- what the front of is overwritten
abbrev pub old_content : Option (Option Bytes) → Bytes
old_content none = []
old_content (some none) = []
old_content (some (some b)) = b

abbrev pub overwrite_front : Bytes → Bytes → MemoryDisk → Option MemoryDisk
overwrite_front p b d =
    some ((p, some (b ++ drop (length b) (old_content (file_of (look p d))))) ∷ d)

pub overwrite_new :
    (p b c : Bytes) (d d' : MemoryDisk)
    → file_of (look p d) ≡ none
    → overwrite_front p b d ≡ some d'
    → file_of (look p d') ≡ some (some c)
    → c ≡ b
unfolding look file_of
overwrite_new p b c d d' new e got =
    let there : file_of
          (look p ((p, some (b ++ drop (length b) (old_content (file_of (look p d))))) ∷ d))
        ≡ some (some (b ++ drop (length b) (old_content (file_of (look p d))))) =
      rw (str_eq_refl p) refl in
    let plain : b ++ drop (length b) (old_content (file_of (look p d))) ≡ b =
      ap (λ o. b ++ drop (length b) (old_content o)) new
      ∙ ap (λ t. b ++ t) (drop-nil (length b))
      ∙ append-nil b in
    cc

-- a shell whose commands succeed and do nothing
abbrev pub memory_shell : Shell memory
memory_shell = record {
  system = λ command d. (0, d);
  overwrite = overwrite_front;
  read-overwrite_new = overwrite_new;
}
