-- ===== src/StorageServer/Copied.antt =====
-- What the naming server is told of a COPY, and what has been sent then (StorageServerModule.c: the
-- COPY branch of `executeNMRequest`).
use nfs_mock.Base.{
  ℕ, ◌≡◌, refl, sym, ◌∙◌, Bool-cases, inl, inr, Option, none, some, List, [], ◌∷◌, ◌++◌, map, Bytes,
  codes, length, arith, starts_with, str_eq, if◌then◌else◌,
}
use mathlib.Core.Path.{subst}
use nfs_mock.Decimal.{decimal}
use nfs_mock.Run.{Run, done, After}
use nfs_mock.StorageServer.Paths.{get_directory_path}
use nfs_mock.StorageServer.FileSystem.{FileSystem}
use nfs_mock.StorageServer.Tree.{is_directory, list_directories, list_files}
use nfs_mock.StorageServer.Transfer.{
  Reply, Connection, no_socket, refused, connected, Log, exits, returns, send_content, send_files,
  copy_files, copy_directories, copy_directory, copy_content, copy_file, copy_path,
}
use nfs_mock.StorageServer.Reports.{
  IsReport, other_code, exits-IsReport, say-IsReport, by_test, replaced, send_directories-IsReport,
  send_count-IsReport, content_of,
}

module _ (fs : FileSystem) where
  open fs use {Disk, read}

  -- for each file its path and its content
  abbrev pub file_messages : (parent path2 : Bytes) → Disk → List Bytes → List Bytes
  file_messages parent path2 d [] = []
  file_messages parent path2 d (p ∷ paths) =
      replaced parent path2 p ∷ content_of (read p d) ∷ file_messages parent path2 d paths

  send_content-IsReport :
      (content : Option (Option Bytes)) (messages : List Bytes) (replies : List Reply)
      (go : List Reply → Run Log)
      → ((rest : List Reply) → After (go rest) (IsReport messages))
      → After (send_content content replies go) (IsReport (content_of content ∷ messages))
  unfolding send_content str_eq
  send_content-IsReport none messages replies go h = other_code (codes "1") _ refl
  send_content-IsReport (some content) messages replies go h =
      say-IsReport _ _ exits replies _ (exits-IsReport _) λ reply rest.
        by_test (starts_with reply (codes "1")) _ _ _ (other_code (codes "7") _ refl) (h rest)

  send_files-IsReport :
      (parent path2 : Bytes) (d : Disk) (paths : List Bytes) (replies : List Reply)
      → After
          (send_files fs parent path2 d paths replies)
          (IsReport (file_messages parent path2 d paths))
  unfolding send_files
  send_files-IsReport parent path2 d [] replies = (omega arith, λ told. refl)
  send_files-IsReport parent path2 d (p ∷ paths) replies =
      say-IsReport _ _ exits replies _ (exits-IsReport _) λ reply rest.
        by_test (starts_with reply (codes "OK")) _ _ _
          (send_content-IsReport (read p d) _ rest _
            λ left. send_files-IsReport parent path2 d paths left)
          (exits-IsReport _)

  -- The messages of a directory with these directories and these files: the mark of a directory, the
  -- number of directories and their paths, the number of files, and their paths and contents.
  abbrev pub directory_messages :
      (path path2 : Bytes) → Disk → (directories files : List Bytes) → List Bytes
  directory_messages path path2 d directories files =
      let parent = get_directory_path path in
      codes "1"
      ∷ decimal (length directories)
      ∷ (map (replaced parent path2) directories
          ++ decimal (length files) ∷ file_messages parent path2 d files)

  module _ (depth : ℕ) (path path2 : Bytes) (d : Disk) (directories files : List Bytes)
      (listed_directories : list_directories fs depth d path [] ≡ done directories)
      (listed_files : list_files fs depth d path [] ≡ done files) where
    copy_files-IsReport :
        (replies : List Reply)
        → After (copy_files fs depth path path2 d replies) (
            IsReport
              (decimal (length files) ∷ file_messages (get_directory_path path) path2 d files))
    unfolding copy_files
    copy_files-IsReport replies = rw listed_files (
        send_count-IsReport (length files) _ _ replies _ (omega arith, λ told. cc)
          (λ rest. send_files-IsReport (get_directory_path path) path2 d files rest))

    copy_directory-IsReport :
        (connection : Connection) (replies : List Reply)
        → After
            (copy_directory fs depth path path2 d connection replies)
            (IsReport (directory_messages path path2 d directories files))
    unfolding copy_directory copy_directories str_eq
    copy_directory-IsReport no_socket replies = other_code (codes "19") _ refl
    copy_directory-IsReport refused replies = other_code (codes "2") _ refl
    copy_directory-IsReport connected replies =
        say-IsReport _ _ returns replies _ (omega arith, λ told. cc)
          λ reply rest.
            by_test (starts_with reply (codes "FOLDER")) _ _ _
              (rw listed_directories (
                send_count-IsReport (length directories) _ _ rest _ (other_code (codes "4") _ refl)
                  (λ left.
                    send_directories-IsReport (get_directory_path path) path2 directories _ left _
                      copy_files-IsReport)))
              (other_code (codes "3") _ refl)

  copy_file-IsReport :
      (path2 : Bytes) (content : Option (Option Bytes)) (connection : Connection)
      (replies : List Reply)
      → After
          (copy_file fs path2 content connection replies)
          (IsReport (codes "0" ∷ path2 ∷ content_of content ∷ []))
  unfolding copy_file copy_content str_eq
  copy_file-IsReport path2 none connection replies = other_code (codes "8") _ refl
  copy_file-IsReport path2 (some content) no_socket replies = (omega arith, λ told. cc)
  copy_file-IsReport path2 (some content) refused replies = other_code (codes "2") _ refl
  copy_file-IsReport path2 (some content) connected replies =
      say-IsReport _ _ exits replies _ (exits-IsReport _) λ _ rest.
        say-IsReport _ _ exits rest _ (exits-IsReport _) λ reply rest'.
          by_test (starts_with reply (codes "OK")) _ _ _
            (say-IsReport _ _ exits rest' _ (exits-IsReport _) λ _ _. (omega arith, λ told. refl))
            (other_code (codes "6") _ refl)

  -- what is to be sent for a path
  abbrev pub messages_of :
      (path path2 : Bytes) → Disk → (directories files : List Bytes) → List Bytes
  messages_of path path2 d directories files =
      if is_directory fs path d
      then directory_messages path path2 d directories files
      else codes "0" ∷ path2 ∷ content_of (read path d) ∷ []

  reported :
      (depth : ℕ) (path path2 : Bytes) (d : Disk) (directories files : List Bytes)
      (connection : Connection) (replies : List Reply) (log : Log)
      → list_directories fs depth d path [] ≡ done directories
      → list_files fs depth d path [] ≡ done files
      → copy_path fs depth path path2 d connection replies ≡ done log
      → IsReport (messages_of path path2 d directories files) log
  unfolding copy_path
  reported depth path path2 d directories files connection replies log dirs fls run =
      elim (Bool-cases (is_directory fs path d)) [
        | inl folder ↦ rw folder (
            subst (λ m. After m (IsReport (directory_messages path path2 d directories files)))
              (sym (rw folder refl) ∙ run)
              (copy_directory-IsReport depth path path2 d directories files dirs fls connection
                replies))
        | inr file ↦ rw file (
            subst (λ m. After m (IsReport (codes "0" ∷ path2 ∷ content_of (read path d) ∷ [])))
              (sym (rw file refl) ∙ run)
              (copy_file-IsReport path2 (read path d) connection replies))
      ]

  -- Whatever the other server answers, if the naming server is told of a success, then everything
  -- has been sent: of a file its new path and what a buffer holds of its content; of a directory
  -- the number and the paths of the directories that have been listed, moved to the new place, the
  -- number of the files, and of each file its path, moved, and what a buffer holds of its content.
  pub copied-whole :
      (depth : ℕ) (path path2 : Bytes) (d : Disk) (directories files : List Bytes)
      (connection : Connection) (replies : List Reply) (log : Log)
      → list_directories fs depth d path [] ≡ done directories
      → list_files fs depth d path [] ≡ done files
      → copy_path fs depth path path2 d connection replies ≡ done log
      → log.told ≡ codes "11" ∷ []
      → log.sent ≡ messages_of path path2 d directories files
  copied-whole depth path path2 d directories files connection replies log dirs fls run success =
      (reported depth path path2 d directories files connection replies log dirs fls run).1 success
