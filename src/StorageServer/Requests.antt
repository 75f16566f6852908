-- ===== src/StorageServer/Requests.antt =====
-- `executeNMRequest` (StorageServerModule.c): one request of the naming server, or of another storage
-- server that copies.
use nfs_mock.Base.{ℕ, Bool, true, List, [], ◌∷◌, Bytes, codes, starts_with, str_eq, if◌then◌else◌}
use nfs_mock.Decimal.{atoi}
use nfs_mock.Run.{Run, done, ◌>>=◌}
use nfs_mock.Scanf.{skip_space, token, scan_two}
use nfs_mock.Client.Locate.{short_of}
use nfs_mock.StorageServer.FileSystem.{FileSystem}
use nfs_mock.StorageServer.Folders.{execute_create}
use nfs_mock.StorageServer.Deletion.{execute_delete}
use nfs_mock.StorageServer.Scan.{accessible_paths, get_paths}
use nfs_mock.StorageServer.Registration.{mount}
use nfs_mock.StorageServer.Transfer.{Reply, Connection, Log, copy_path}

-- what the rest of the world does during a request: what the naming server answers, which addresses
-- can be reached, and what the server there answers
pub record Peers : Type 0 where
  pub naming_server : List Bytes
  pub connect : (ip : Bytes) (port : ℕ) → Connection
  pub destination : List Reply

-- the words of a COPY
pub record CopyWords : Type 0 where
  pub destination_ip : Bytes
  pub destination_port : Bytes
  pub path : Bytes
  pub path2 : Bytes

abbrev pub next_word : Bytes → Bytes × Bytes
next_word s = token (skip_space s)

-- `sscanf(request, "%s %s %s %s %s", …)`, for a request whose first word is COPY
unfoldable pub scan_five : Bytes → CopyWords
scan_five request =
    let (command, rest) = next_word request in
    let (ip, rest₁) = next_word rest in
    let (port, rest₂) = next_word rest₁ in
    let (path, rest₃) = next_word rest₂ in
    let (path2, _) = next_word rest₃ in
    record { destination_ip = ip; destination_port = port; path = path; path2 = path2 }

-- A longer first word that begins so leaves the other buffers empty.
unfoldable pub copy_words : (command path request : Bytes) → CopyWords
unfolding scan_five
copy_words command path request =
    if str_eq command (codes "COPY")
    then scan_five request
    else record { destination_ip = []; destination_port = []; path = path; path2 = [] }

module _ (fs : FileSystem) where
  open fs use {Disk}

  -- what the naming server is sent, what another storage server is sent, the disk, and whether the
  -- process goes on
  pub record NmOutcome : Type 0 where
    pub told : List Bytes
    pub sent : List Bytes
    pub disk : Disk
    pub alive : Bool

  abbrev pub answered : Bytes × Disk → Run NmOutcome
  answered (reply, d) = done (record { told = reply ∷ []; sent = []; disk = d; alive = true })

  abbrev pub logged : Disk → Log → Run NmOutcome
  logged d log = done (record { told = log.told; sent = log.sent; disk = d; alive = log.alive })

  -- The branches by the first word; any other is not answered. The scans and deletions are given
  -- `depth`.
  unfoldable pub execute_command :
      (depth : ℕ) → Peers → (command path request : Bytes) → Disk → Run NmOutcome
  unfolding execute_create execute_delete accessible_paths get_paths copy_words copy_path
  execute_command depth peers command path request d =
      if str_eq command (codes "GETPATHS")
      then done (record {
        told = get_paths (accessible_paths fs depth mount d) peers.naming_server;
        sent = [];
        disk = d;
        alive = true;
      })
      else if str_eq command (codes "CREATE")
      then (execute_create fs path d >>= answered)
      else if str_eq command (codes "DELETE")
      then (execute_delete fs depth path d >>= answered)
      else if starts_with command (codes "COPY")
      then (let words = copy_words command path request in
          copy_path fs depth words.path words.path2 d
            (peers.connect words.destination_ip (short_of (atoi words.destination_port)))
            peers.destination
          >>= logged d)
      else done (record { told = []; sent = []; disk = d; alive = true })

  unfoldable pub execute_nm_request : (depth : ℕ) → Peers → (request : Bytes) → Disk → Run NmOutcome
  unfolding execute_command
  execute_nm_request depth peers request d =
      let (command, path) = scan_two request in execute_command depth peers command path request d
