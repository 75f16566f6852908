-- ===== src/StorageServer/Files.antt =====
-- `executeClientRequest` (StorageServerModule.c): READ, WRITE and GETSIZE of a client.
use nfs_mock.Base.{
  ℕ, ◌/◌, ◌%◌, ◌^◌, ◌||◌, Bool, Option, none, some, [], ◌∷◌, ◌++◌, Bytes, codes, length, take, ◌==◌,
  str_eq, if◌then◌else◌,
}
use nfs_mock.Decimal.{decimal}
use nfs_mock.Scanf.{skip_space, token, scan_two}
use nfs_mock.StorageServer.FileSystem.{FileSystem, Stat}
use nfs_mock.StorageServer.Deletion.{is_dir_mode}

-- the bytes of a file that the buffer holds
abbrev pub content_size : ℕ
content_size = 4095

unfoldable pub read_content : Bytes → Bytes
read_content [] = codes "No content"
read_content (c ∷ s) = c ∷ s

unfoldable pub read_reply : Option (Option Bytes) → Bytes
unfolding read_content
read_reply none = codes "Failed to open file"
read_reply (some none) = codes "Read error"
read_reply (some (some file)) = read_content (take content_size file)

-- `statbuf.st_mode & bit`, for the bit of so many halvings
unfoldable pub letter : (mode bit c : ℕ) → ℕ
letter mode bit c = if (mode / 2 ^ bit) % 2 == 1 then c else b'-'

unfoldable pub permissions : ℕ → Bytes
unfolding letter
permissions mode =
    (if is_dir_mode mode then b'd' else b'-')
    ∷ letter mode 8 b'r'
    ∷ letter mode 7 b'w'
    ∷ letter mode 6 b'x'
    ∷ letter mode 5 b'r'
    ∷ letter mode 4 b'w'
    ∷ letter mode 3 b'x'
    ∷ letter mode 2 b'r'
    ∷ letter mode 1 b'w'
    ∷ letter mode 0 b'x'
    ∷ []

-- `snprintf` into `PATH_MAX` bytes
unfoldable pub size_reply : (path : Bytes) → Option Stat → Bytes
unfolding permissions
size_reply path none = codes "Error getting file size"
size_reply path (some s) = take 4095 (
    codes "Size of "
    ++ (path
        ++ (codes ": "
            ++ (decimal s.st_size
                ++ (codes " bytes, Permissions: "
                    ++ (permissions s.st_mode
                        ++ (codes ", Last Modified: "
                            ++ (s.modified ++ (codes ", Last Accessed: " ++ s.accessed)))))))))

-- `sscanf(request, "%*s %*s %[^\t\n]", content)`: up to a tab or the end of the line
unfoldable pub until_tab : Bytes → Bytes
until_tab [] = []
until_tab (c ∷ s) = let rest = until_tab s in if c == 9 || c == 10 then [] else c ∷ rest

unfoldable pub write_content : Bytes → Bytes
unfolding skip_space token until_tab
write_content request =
    let (_, rest) = token (skip_space request) in
    let (_, rest') = token (skip_space rest) in until_tab (skip_space rest')

module _ (fs : FileSystem) where
  open fs use {Disk, stat, read, write}

  unfoldable pub write_outcome : (path content : Bytes) → Disk → Option (Bool × Disk) → Bytes × Disk
  write_outcome path content d none = (codes "Error opening file for writing", d)
  write_outcome path content d (some (ok, d')) = (
    if ok
        then take 1023
            (codes "Written " ++ (decimal (length content) ++ (codes " bytes to " ++ path)))
        else codes "Write error",
    d',
  )

  unfoldable pub serve_read : Bytes → Disk → Bytes × Disk
  unfolding read_reply
  serve_read path d = (read_reply (read path d), d)

  unfoldable pub serve_size : Bytes → Disk → Bytes × Disk
  unfolding size_reply
  serve_size path d = (size_reply path (stat path d), d)

  unfoldable pub serve_write : (path request : Bytes) → Disk → Bytes × Disk
  serve_write path request d =
      let content = write_content request in write_outcome path content d (write path content d)

  unfoldable pub serve : (command path request : Bytes) → Disk → Option Bytes × Disk
  serve command path request d =
      let answered : Bytes × Disk → Option Bytes × Disk = λ r. (some r.0, r.1) in
      if str_eq command (codes "READ")
      then answered (serve_read path d)
      else if str_eq command (codes "GETSIZE")
      then answered (serve_size path d)
      else if str_eq command (codes "WRITE")
      then answered (serve_write path request d)
      else (none, d)

  -- The answer, if there is one, and the disk.
  unfoldable pub execute_client_request : Bytes → Disk → Option Bytes × Disk
  execute_client_request request d =
      let (command, path) = scan_two request in serve command path request d
