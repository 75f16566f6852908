-- ===== src/StorageServer/Folders.antt =====
-- `mkdir_p` and the CREATE branch of `executeNMRequest` (StorageServerModule.c).
use nfs_mock.Base.{
  ℕ, Bool, true, Option, none, some, [], ◌∷◌, ◌++◌, Bytes, codes, ◌==◌, if◌then◌else◌,
}
use nfs_mock.Run.{Run, done, fault}
use nfs_mock.Paths.{get_substring_before_last_slash}
use nfs_mock.StorageServer.FileSystem.{FileSystem}

module _ (fs : FileSystem) where
  open fs use {Disk, mkdir, create}

  -- The loop of `mkdir_p` over what is left of the path; `before` is what it has passed.
  unfoldable pub mkdir_loop : (before rest : Bytes) → Disk → Bool × Disk
  mkdir_loop before [] d = mkdir before d
  mkdir_loop before (c ∷ rest) d =
      let tried : Bool × Disk = if c == b'/' then mkdir before d else (true, d) in
      let more = mkdir_loop (before ++ c ∷ []) rest tried.1 in if tried.0 then more else tried

  -- 0 is `true`, and -1 is `false`.
  unfoldable pub mkdir_p : Bytes → Disk → Bool × Disk
  unfolding mkdir_loop
  mkdir_p path d = mkdir_loop [] path d

  -- A directory is made with all that its path names.
  unfoldable pub create_folder : Bytes → Disk → Bytes × Disk
  unfolding mkdir_p
  create_folder path d =
      let (made, d') = mkdir_p path d in (if made then codes "1" else codes "2", d')

  -- A file is opened for writing even if its directory has not been made.
  unfoldable pub create_file : Bytes → Disk → Bytes × Disk
  unfolding mkdir_p
  create_file path d =
      let (_, d') = mkdir_p (get_substring_before_last_slash path [] 1000) d in
      let (made, d'') = create path d' in (if made then codes "4" else codes "3", d'')

  unfoldable pub last_byte : Bytes → Option ℕ
  last_byte [] = none
  last_byte (c ∷ []) = some c
  last_byte (c ∷ d ∷ s) = last_byte (d ∷ s)

  unfoldable pub create_by : Option ℕ → Bytes → Disk → Run (Bytes × Disk)
  unfolding create_folder create_file
  create_by none path d = fault
  create_by (some c) path d = done (if c == b'/' then create_folder path d else create_file path d)

  -- The CREATE branch: the answer. An empty path reads the byte before its buffer.
  unfoldable pub execute_create : Bytes → Disk → Run (Bytes × Disk)
  unfolding create_by last_byte
  execute_create path d = create_by (last_byte path) path d
