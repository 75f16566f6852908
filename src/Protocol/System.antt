-- ===== src/Protocol/System.antt =====
-- The parts put together: a line that a user types, the naming server's answer to it, and what the
-- storage servers make of it (clientfunctions.c, NamingServerModule.c, StorageServerModule.c).
use nfs_mock.Base.{
  ℕ, ◌&&◌, Option, none, some, List, [], ◌∷◌, ◌++◌, Bytes, ◌==◌, str_eq, c_str, if◌then◌else◌,
}
use nfs_mock.Run.{Run, done, ◌>>=◌}
use nfs_mock.NamingServer.Index.{PathIndex}
use nfs_mock.NamingServer.State.{State, Action, to_client, to_server}
use nfs_mock.NamingServer.Dispatch.{World, handle_client_input}
use nfs_mock.Whitespace.{client_strip}
use nfs_mock.Client.Session.{
  Event, to_naming_server, to_storage_server, printed, exited, Peer, received,
}
use nfs_mock.Client.Commands.{client_round}
use nfs_mock.StorageServer.FileSystem.{FileSystem}
use nfs_mock.StorageServer.Files.{execute_client_request}

-- What a client has in its cleared buffer when the naming server's acknowledgement has been taken out.
abbrev pub second_message : List Action → Bytes
second_message (ack ∷ to_client m ∷ sent) = m ++ 0 ∷ []
second_message (ack ∷ to_server ip port m ∷ sent) = 0 ∷ []
second_message _ = 0 ∷ []

module _ (fs : FileSystem) where
  open fs use {Disk}

  -- the disks of the storage servers that listen, by the address that their clients use
  abbrev pub Disks : Type 0
  Disks = (ip : Bytes) (port : ℕ) → Option Disk

  abbrev pub in_buffer : Option Bytes → Bytes
  in_buffer none = 0 ∷ []
  in_buffer (some answer) = answer ++ 0 ∷ []

  abbrev pub answer_from : Option Disk → (request : Bytes) → Option Bytes
  answer_from none request = none
  answer_from (some d) request = some (in_buffer (execute_client_request fs request d).0)

  abbrev pub disk_from : Option Disk → (request : Bytes) → Option Disk
  disk_from none request = none
  disk_from (some d) request = some (execute_client_request fs request d).1

  unfoldable pub answer_at : Disks → (ip : Bytes) (port : ℕ) (request : Bytes) → Option Bytes
  answer_at disks ip port request = answer_from (disks ip port) request

  unfoldable pub disk_after : Disks → (ip : Bytes) (port : ℕ) (request : Bytes) → Disks
  disk_after disks ip port request = λ ip' port'.
      if str_eq ip' ip && (port' == port)
      then disk_from (disks ip port) request
      else disks ip' port'

  -- the disks after what a client has sent
  unfoldable pub disks_after : List Event → Disks → Disks
  unfolding disk_after
  disks_after [] disks = disks
  disks_after (to_storage_server ip port request ∷ events) disks =
      disks_after events (disk_after disks ip port request)
  disks_after (to_naming_server request ∷ events) disks = disks_after events disks
  disks_after (printed text ∷ events) disks = disks_after events disks
  disks_after (exited ∷ events) disks = disks_after events disks

  module _ (ix : PathIndex) where
    -- One round of a client; the acknowledgement takes so many seconds. The line is the array that
    -- `fgets` has filled.
    unfoldable pub session :
        (seconds rounds : ℕ)
        → World
        → (line : Bytes) → State ix × Disks
        → Run (List Event × (State ix × Disks))
    unfolding handle_client_input client_round disks_after answer_at
    session seconds rounds w line (st, disks) = do
      r ← handle_client_input ix w st (c_str (client_strip line) ++ 0 ∷ [])
      let peer : Peer = record {
        ack = received seconds;
        response = second_message r.sent;
        storage = answer_at disks;
      }
      events ← client_round rounds peer line
      done (events, (r.state, disks_after events disks))
