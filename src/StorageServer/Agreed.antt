-- ===== src/StorageServer/Agreed.antt =====
-- A COPY to a storage server that answers each message as the source expects
-- (StorageServerModule.c: the COPY branch of `executeNMRequest`).
use nfs_mock.Base.{◌≡◌, Bool, true, false, Option, some, List, [], ◌∷◌, Bytes, codes, length, All}
use nfs_mock.Decimal.{decimal}
use nfs_mock.Run.{Run, done}
use nfs_mock.StorageServer.FileSystem.{FileSystem}
use nfs_mock.StorageServer.Transfer.{Reply, heard, Log}

abbrev pub succeeded : List Bytes → Run Log
succeeded messages = done (record { sent = messages; told = codes "11" ∷ []; alive = true })

-- the replies to directories, and to the paths and contents of files
abbrev pub directory_replies : List Bytes → List Reply → List Reply
directory_replies [] rest = rest
directory_replies (p ∷ paths) rest = heard (codes "OK") ∷ directory_replies paths rest

abbrev pub file_replies : List Bytes → List Reply
file_replies [] = []
file_replies (p ∷ paths) = heard (codes "OK") ∷ heard (codes "0") ∷ file_replies paths

abbrev pub agreeing : (folder : Bool) (directories files : List Bytes) → List Reply
agreeing true directories files =
    heard (codes "FOLDER")
    ∷ heard (decimal (length directories))
    ∷ directory_replies directories (heard (decimal (length files)) ∷ file_replies files)
agreeing false directories files = heard (codes "OK") ∷ heard (codes "OK") ∷ heard (codes "OK") ∷ []

module _ (fs : FileSystem) where
  open fs use {Disk, read}

  -- the files can be opened
  abbrev pub AreReadable : Disk → List Bytes → Type 0
  AreReadable d paths = All (λ p. (content : Option Bytes) × (read p d ≡ some content)) paths
