-- ===== src/StorageServer/Deletion.antt =====
-- `deleteDirectory` and the DELETE branch of `executeNMRequest` (StorageServerModule.c).
use nfs_mock.Base.{
  ℕ, ◌/◌, ◌%◌, ◌==◌, zero, suc, ◌||◌, Bool, true, false, Option, none, some, List, [], ◌∷◌, ◌++◌,
  Bytes, codes, str_eq, if◌then◌else◌,
}
use nfs_mock.Run.{Run, done, fault, timeout, ◌>>=◌}
use nfs_mock.StorageServer.FileSystem.{FileSystem, Entry, Stat}

abbrev pub dot_entry : Entry → Bool
dot_entry e = str_eq e.d_name (codes ".") || str_eq e.d_name (codes "..")

abbrev pub full_path : Bytes → Bytes → Bytes
full_path path name = path ++ b'/' ∷ name

-- How a call of `deleteDirectory` ends: it returns -1, or it ends without `return`.
pub data Ending : Type 0 where
  minus_one no_value : Ending

-- `ret == -1` for the value of a call; a call without a value has none to compare.
unfoldable pub is_minus_one : Ending → Run Bool
is_minus_one minus_one = done true
is_minus_one no_value = fault

-- `S_ISDIR`
abbrev pub is_dir_mode : ℕ → Bool
is_dir_mode mode = (mode / 4096) % 16 == 4

module _ (fs : FileSystem) where
  open fs use {Disk, stat, entries, unlink, rmdir}

  -- What is left of the loop, and the end, once an entry has been dealt with: `failed` leaves with -1.
  abbrev pub unless_failed :
      (failed : Bool) → Disk → (Disk → Run (Ending × Disk)) → Run (Ending × Disk)
  unless_failed failed d go = if failed then done (minus_one, d) else go d

  -- The loop over the entries. `inner` is `deleteDirectory` for the directories in this one.
  unfoldable pub delete_entries :
      (inner : Bytes → Disk → Run (Ending × Disk)) (path : Bytes)
      → List Entry
      → Disk
      → Run (Ending × Disk)
  unfolding is_minus_one
  delete_entries inner path [] d =
      let (removed, d') = rmdir path d in done (if removed then no_value else minus_one, d')
  delete_entries inner path (e ∷ rest) d =
      let go : Disk → Run (Ending × Disk) = λ d'. delete_entries inner path rest d' in
      if dot_entry e
      then go d
      else if e.is_folder
      then (do
        (ending, d') ← inner (full_path path e.d_name) d
        failed ← is_minus_one ending
        unless_failed failed d' go)
      else (let (removed, d') = unlink (full_path path e.d_name) d in
          unless_failed (if removed then false else true) d' go)

  unfoldable pub delete_listed :
      (inner : Bytes → Disk → Run (Ending × Disk)) (path : Bytes)
      → Option (List Entry)
      → Disk
      → Run (Ending × Disk)
  unfolding delete_entries
  delete_listed inner path none d = done (minus_one, d)
  delete_listed inner path (some es) d = delete_entries inner path es d

  -- `deleteDirectory`, for directories nested at most so deep.
  unfoldable pub delete_directory : (depth : ℕ) → Bytes → Disk → Run (Ending × Disk)
  unfolding delete_listed
  delete_directory zero path d = timeout
  delete_directory (suc depth) path d =
      delete_listed (delete_directory depth) path (entries path d) d

  unfoldable pub delete_folder : (depth : ℕ) → Bytes → Disk → Run (Bytes × Disk)
  unfolding delete_directory is_minus_one
  delete_folder depth path d = do
    (ending, d') ← delete_directory depth path d
    failed ← is_minus_one ending
    done (if failed then codes "-1" else codes "2", d')

  unfoldable pub delete_file : Bytes → Disk → Bytes × Disk
  delete_file path d =
      let (removed, d') = unlink path d in (if removed then codes "3" else codes "-1", d')

  -- If `stat` fails, the mode is read from a buffer that nothing has been written to.
  unfoldable pub delete_by : Option Stat → (depth : ℕ) → Bytes → Disk → Run (Bytes × Disk)
  unfolding delete_folder delete_file
  delete_by none depth path d = fault
  delete_by (some s) depth path d =
      if is_dir_mode s.st_mode then delete_folder depth path d else done (delete_file path d)

  -- The DELETE branch: the answer.
  unfoldable pub execute_delete : (depth : ℕ) → Bytes → Disk → Run (Bytes × Disk)
  unfolding delete_by
  execute_delete depth path d = delete_by (stat path d) depth path d
