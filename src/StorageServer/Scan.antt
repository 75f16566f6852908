-- ===== src/StorageServer/Scan.antt =====
-- `update_accessible_paths_recursive` and the GETPATHS branch of `executeNMRequest`
-- (StorageServerModule.c).
use nfs_mock.Base.{
  ℕ, zero, suc, Option, none, some, List, [], ◌∷◌, ◌++◌, Bytes, codes, length, str_eq,
  if◌then◌else◌,
}
use nfs_mock.Decimal.{decimal}
use nfs_mock.StorageServer.FileSystem.{FileSystem, Entry}
use nfs_mock.StorageServer.Deletion.{dot_entry, full_path}

module _ (fs : FileSystem) where
  open fs use {Disk, entries}

  -- The loop over the entries: the paths that are added. `inner` is the scan of a directory in it.
  unfoldable pub scan_entries :
      (inner : Bytes → List Bytes) (path : Bytes) → List Entry → List Bytes
  scan_entries inner path [] = []
  scan_entries inner path (e ∷ rest) =
      let more = scan_entries inner path rest in
      let found = full_path path e.d_name in
      if dot_entry e
      then more
      else if e.is_folder
      then found ∷ (inner found ++ more)
      else found ∷ more

  unfoldable pub scan_listed :
      (inner : Bytes → List Bytes) (path : Bytes) → Option (List Entry) → List Bytes
  unfolding scan_entries
  scan_listed inner path none = []
  scan_listed inner path (some es) = scan_entries inner path es

  -- Directories nested deeper than `depth` are not looked into.
  unfoldable pub scan_paths : (depth : ℕ) → Disk → Bytes → List Bytes
  unfolding scan_listed
  scan_paths zero d path = []
  scan_paths (suc depth) d path = scan_listed (scan_paths depth d) path (entries path d)

  -- `ss.accessiblePaths`, of which `ss.numPaths` count: the mount, and all below it.
  unfoldable pub accessible_paths : (depth : ℕ) → (mount : Bytes) → Disk → List Bytes
  unfolding scan_paths
  accessible_paths depth mount d = mount ∷ scan_paths depth d mount

-- The sending of the paths, for the replies of the naming server: after a reply that is not OK, or
-- none, no further path is sent.
unfoldable pub send_paths : List Bytes → List Bytes → List Bytes
send_paths [] replies = []
send_paths (p ∷ paths) [] = p ∷ []
send_paths (p ∷ paths) (reply ∷ replies) =
    let more = send_paths paths replies in if str_eq (codes "OK") reply then p ∷ more else p ∷ []

unfoldable pub after_count : (count : Bytes) → List Bytes → List Bytes → List Bytes
unfolding send_paths
after_count count paths [] = []
after_count count paths (echo ∷ replies) =
    let more = send_paths paths replies in
    if str_eq count echo then codes "OK" ∷ more else codes "1" ∷ []

-- The GETPATHS branch: the messages that are sent, for the replies that are received.
unfoldable pub get_paths : List Bytes → (replies : List Bytes) → List Bytes
unfolding after_count
get_paths paths replies =
    let count = decimal (length paths) in count ∷ after_count count paths replies
