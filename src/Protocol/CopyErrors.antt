-- ===== src/Protocol/CopyErrors.antt =====
-- A COPY that the naming server refuses, as the client shows it (NamingServerModule.c,
-- clientfunctions.c).
use nfs_mock.Base.{ℕ, ◌≡◌, refl, true, none, some, [], ◌∷◌, Bytes, codes, take}
use nfs_mock.Decimal.{atoi}
use nfs_mock.Run.{done}
use nfs_mock.NamingServer.{StorageServer, listed}
use nfs_mock.NamingServer.Index.{PathIndex}
use nfs_mock.NamingServer.State.{State, to_client}
use nfs_mock.NamingServer.Registration.{has_path}
use nfs_mock.NamingServer.Tasks.{server_at}
use nfs_mock.NamingServer.Delete.{server_index}
use nfs_mock.NamingServer.Copy
use nfs_mock.NamingServer.Copy.{Transfer, new_path, copy_to, copy_reaction, handle_copy}
use nfs_mock.Client.Session.{printed}
use nfs_mock.Client.Replies.{message_of, copy_lines}

module _ (ix : PathIndex) where
  open ix use {find}

  -- Why a COPY is refused, and the line of the client for it.
  pub data Refused (st : State ix) (path path_third : Bytes) : Bytes → Type 0 where
    no_source :
        find path st.servers_by_path ≡ none
        → Refused st path path_third (codes "Cannot open file\n")
    no_destination :
        (source : StorageServer)
        → find path st.servers_by_path ≡ some source
        → find path_third st.servers_by_path ≡ none
        → Refused st path path_third (codes "No such folder in destination\n")
    taken :
        (source destination : StorageServer) (i : ℕ)
        → find path st.servers_by_path ≡ some source
        → find path_third st.servers_by_path ≡ some destination
        → server_index
            (λ s. s.ss_port_recv)
            0
            (take st.storage_server_count st.storage_servers)
            destination.ip_address
            destination.ss_port_recv
          ≡ some i
        → has_path
            (new_path path path_third)
            (listed (server_at ix st i).num_paths (server_at ix st i).accessible_paths)
          ≡ true
        → Refused st path path_third (codes "folder conflict \n")

  -- A COPY of a path without a server, into a path without a server, or onto a path that the
  -- destination's server lists, changes nothing, and its one message to the client is a number for
  -- which the client has the line that says so.
  pub refusal-shown :
      (t : Transfer) (st : State ix) (path path_third line : Bytes)
      → Refused st path path_third line
      → (reply : Bytes) × (handle_copy ix t st path path_third
          ≡ done (record { state = st; sent = to_client reply ∷ []; alive = true }))
        × (message_of copy_lines (atoi reply) ≡ printed line ∷ [])
  unfolding handle_copy Copy.copy copy_to copy_reaction message_of atoi
  refusal-shown t st path path_third _ (no_source h) = (codes "8", rw (h, Copy.copy) refl, refl)
  refusal-shown t st path path_third _ (no_destination s h k) =
      (codes "2", rw (h, k, Copy.copy) refl, refl)
  refusal-shown t st path path_third _ (taken s d i h k at there) =
      (codes "5", rw (h, k, at, there, Copy.copy, copy_to) refl, refl)
