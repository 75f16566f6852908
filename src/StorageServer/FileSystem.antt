-- ===== src/StorageServer/FileSystem.antt =====
-- The system calls that the storage server makes, as an interface over a disk.
use nfs_mock.Base.{ℕ, ◌≡◌, Bool, true, false, Option, some, List, [], Bytes}

-- `struct stat`: the mode, the size, and the two times as `strftime` prints them
pub record Stat : Type 0 where
  pub st_mode : ℕ
  pub st_size : ℕ
  pub modified : Bytes
  pub accessed : Bytes

-- A name in a directory, and whether its `d_type` is DT_DIR.
pub record Entry : Type 0 where
  pub d_name : Bytes
  pub is_folder : Bool

-- `mkdir` counts as done when it succeeds or when its error is EEXIST. `read` has `none` for a file
-- that is not opened, and `some none` for an error of the stream; `write` opens with "w", and says
-- whether the stream has no error. The laws are those of the manual pages: an empty path is ENOENT,
-- what `mkdir` makes or finds exists, nothing else goes away, and what can be read after a write is
-- what was written.
pub record FileSystem : Type 1 where
  pub Disk : Type 0
  pub exists : Bytes → Disk → Bool
  pub stat : Bytes → Disk → Option Stat
  pub mkdir : Bytes → Disk → Bool × Disk
  pub create : Bytes → Disk → Bool × Disk
  pub unlink : Bytes → Disk → Bool × Disk
  pub rmdir : Bytes → Disk → Bool × Disk
  pub entries : Bytes → Disk → Option (List Entry)
  pub read : Bytes → Disk → Option (Option Bytes)
  pub write : Bytes → Bytes → Disk → Option (Bool × Disk)
  pub mkdir_empty : (d : Disk) → (mkdir [] d).0 ≡ false
  pub mkdir-exists : (p : Bytes) (d : Disk) → (mkdir p d).0 ≡ true → exists p (mkdir p d).1 ≡ true
  pub exists-mkdir : (p q : Bytes) (d : Disk) → exists q d ≡ true → exists q (mkdir p d).1 ≡ true
  pub read-write :
      (p b c : Bytes) (d d' : Disk)
      → write p b d ≡ some (true, d')
      → read p d' ≡ some (some c)
      → c ≡ b
