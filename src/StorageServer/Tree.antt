-- ===== src/StorageServer/Tree.antt =====
-- The directories and the files below a path (StorageServerModule.c: `isDirectory`,
-- `listDirectoriesRecursively`, `listFilesRecursively`).
use nfs_mock.Base.{
  ℕ, zero, suc, ◌/◌, ◌%◌, Bool, false, ◌&&◌, Option, none, some, List, [], ◌∷◌, ◌++◌, Bytes, length,
  take, ltb, leb, ◌==◌, if◌then◌else◌,
}
use nfs_mock.Run.{Run, done, fault, timeout, ◌>>=◌}
use nfs_mock.StorageServer.FileSystem.{FileSystem, Entry, Stat}
use nfs_mock.StorageServer.Deletion.{dot_entry, full_path, is_dir_mode}

-- `MAX_DIRECTORIES` and `MAX_FILES`
abbrev pub max_listed : ℕ
max_listed = 1000

-- `S_ISREG`
abbrev pub is_reg_mode : ℕ → Bool
is_reg_mode mode = (mode / 4096) % 16 == 8

-- `strncpy` into the next of the thousand slots of the array, each of a thousand bytes; a slot behind
-- the last is a fault.
unfoldable pub store : Bytes → List Bytes → Run (List Bytes)
store path stored =
    if ltb (length stored) max_listed then done (stored ++ take 999 path ∷ []) else fault

-- `snprintf(fullpath, PATH_MAX, "%s/%s", …)`
abbrev pub entry_path : Bytes → Entry → Bytes
entry_path path e = take 4095 (full_path path e.d_name)

abbrev pub Listing : Type 0
Listing = Bytes → List Bytes → Run (List Bytes)

-- `stat(fullpath, &statbuf) == 0 && S_ISDIR(statbuf.st_mode)`
abbrev pub is_dir_stat : Option Stat → Bool
is_dir_stat none = false
is_dir_stat (some s) = is_dir_mode s.st_mode

module _ (fs : FileSystem) where
  open fs use {Disk, stat, entries}

  -- 1, 0, and -1 where `stat` fails; the callers ask for 1.
  unfoldable pub is_directory : Bytes → Disk → Bool
  is_directory path d = is_dir_stat (stat path d)

  -- The loop over the entries; `inner` is the function for the directories in this one.
  unfoldable pub list_directories_in :
      (inner : Listing) (path : Bytes) → Disk → List Entry → List Bytes → Run (List Bytes)
  list_directories_in inner path d [] stored = done stored
  list_directories_in inner path d (e ∷ rest) stored =
      let go : List Bytes → Run (List Bytes) = λ s. list_directories_in inner path d rest s in
      if dot_entry e
      then go stored
      else if is_dir_stat (stat (entry_path path e) d)
      then (do
        more ← inner (entry_path path e) stored
        if leb max_listed (length more) then done more else go more)
      else go stored

  unfoldable pub list_opened :
      (loop : List Entry → List Bytes → Run (List Bytes))
      → Option (List Entry)
      → List Bytes
      → Run (List Bytes)
  list_opened loop none stored = done stored
  list_opened loop (some es) stored = loop es stored

  -- `listDirectoriesRecursively`, for directories nested at most so deep: the array before and after
  unfoldable pub list_directories : (depth : ℕ) → Disk → Listing
  unfolding store list_directories_in list_opened
  list_directories zero d path stored = timeout
  list_directories (suc depth) d path stored = do
    more ← store path stored
    list_opened (list_directories_in (list_directories depth d) path d) (entries path d) more

  -- What becomes of an entry with that `stat`; a failed `stat` leaves the mode of no entry to be
  -- tested.
  unfoldable pub list_file_entry :
      (inner : Listing) → Bytes → Option Stat → List Bytes → Run (List Bytes)
  unfolding store
  list_file_entry inner path none stored = fault
  list_file_entry inner path (some s) stored =
      if is_reg_mode s.st_mode
      then store path stored
      else if is_dir_mode s.st_mode
      then inner path stored
      else done stored

  abbrev pub is_reg_stat : Option Stat → Bool
  is_reg_stat none = false
  is_reg_stat (some s) = is_reg_mode s.st_mode

  -- Behind a file that is stored the loop ends if the array is full; behind a directory it goes on.
  unfoldable pub list_files_in :
      (inner : Listing) (path : Bytes) → Disk → List Entry → List Bytes → Run (List Bytes)
  unfolding list_file_entry
  list_files_in inner path d [] stored = done stored
  list_files_in inner path d (e ∷ rest) stored =
      let go : List Bytes → Run (List Bytes) = λ s. list_files_in inner path d rest s in
      let found = stat (entry_path path e) d in
      if dot_entry e then go stored else (do
        more ← list_file_entry inner (entry_path path e) found stored
        if is_reg_stat found && leb max_listed (length more) then done more else go more)

  -- `listFilesRecursively`
  unfoldable pub list_files : (depth : ℕ) → Disk → Listing
  unfolding list_files_in list_opened
  list_files zero d path stored = timeout
  list_files (suc depth) d path stored =
      list_opened (list_files_in (list_files depth d) path d) (entries path d) stored
