-- ===== src/NamingServer/Copy.antt =====
-- The COPY branch of `handleClientInput` (NamingServerModule.c): the naming server reads an archive
-- from the source's server and passes it on to the destination's.
use nfs_mock.Base.{
  Bool, true, false, none, some, List, [], ◌∷◌, ◌++◌, Bytes, codes, take, if◌then◌else◌,
}
use nfs_mock.Run.{Run, done, fault, ◌>>=◌}
use nfs_mock.Paths.{get_file_name}
use nfs_mock.NamingServer.{StorageServer, listed}
use nfs_mock.NamingServer.Index.{PathIndex}
use nfs_mock.NamingServer.State.{State, Reaction, Action, to_client, to_server}
use nfs_mock.NamingServer.Registration.{has_path}
use nfs_mock.NamingServer.Delete.{server_index}
use nfs_mock.NamingServer.Tasks.{server_at}

-- what `recv` on the source's connection yields
pub data Received : Type 0 where
  chunk : Bytes → Received
  closed failed : Received

-- The loop "Transfer data from S1 to S2 through NM": each `recv` of the source, with whether the
-- `send` to the destination succeeds. The result is the chunks that are sent.
unfoldable pub relay : List (Received × Bool) → List Bytes
relay [] = []
relay ((chunk b, true) ∷ rest) = b ∷ relay rest
relay ((chunk b, false) ∷ rest) = []
relay ((closed, _) ∷ rest) = []
relay ((failed, _) ∷ rest) = []

-- The bytes of the `int` 11, on a machine with the least byte first.
abbrev pub eleven : Bytes
eleven = 11 ∷ 0 ∷ 0 ∷ 0 ∷ []

-- Whether the two connections are made, and what the source sends.
pub record Transfer : Type 0 where
  pub source_connects : Bool
  pub destination_connects : Bool
  pub stream : List (Received × Bool)

-- A branch ends the request, or the whole process (`exit`), or reads an index that no loop has set.
pub data CopyResult : Type 0 where
  replied : Bytes → CopyResult
  exited : CopyResult
  copied :
      (source destination : StorageServer) → (requests : Bytes × Bytes) → List Bytes → CopyResult

abbrev pub new_path : Bytes → Bytes → Bytes
new_path path path_third = path_third ++ b'/' ∷ get_file_name path

module _ (ix : PathIndex) where
  open ix use {find}

  unfoldable pub transfer :
      Transfer → (source destination : StorageServer) → (path path_third : Bytes) → CopyResult
  unfolding relay
  transfer t source destination path path_third =
      if t.source_connects
      then (if t.destination_connects
          then copied source destination (path, path_third) (relay t.stream)
          else exited)
      else exited

  -- The destination's server is looked up by address and receiving port, and must not list the path.
  unfoldable pub copy_to :
      Transfer
      → State ix
      → (source destination : StorageServer) → (path path_third : Bytes) → Run CopyResult
  unfolding server_index transfer
  copy_to t st source destination path path_third =
      elim (server_index (λ s. s.ss_port_recv) 0 (take st.storage_server_count st.storage_servers)
        destination.ip_address destination.ss_port_recv) [
          | none ↦ fault
          | some i ↦
              let s = server_at ix st i in
              done (
                if has_path (new_path path path_third) (listed s.num_paths s.accessible_paths)
                then replied (codes "5")
                else transfer t source destination path path_third)
        ]

  unfoldable pub copy : Transfer → State ix → (path path_third : Bytes) → Run CopyResult
  unfolding copy_to
  copy t st path path_third = elim (find path st.servers_by_path) [
    | none ↦ done (replied (codes "8"))
    | some source ↦ elim (find path_third st.servers_by_path) [
      | none ↦ done (replied (codes "2"))
      | some destination ↦ copy_to t st source destination path path_third
    ]
  ]

  abbrev pub stream_to : StorageServer → List Bytes → List Action
  stream_to s [] = []
  stream_to s (b ∷ bs) = to_server s.ip_address s.ss_port_recv b ∷ stream_to s bs

  -- Nothing that the naming server keeps changes; after an `exit` there is no thread to go on.
  unfoldable pub copy_reaction : State ix → CopyResult → Reaction ix
  copy_reaction st (replied b) = record { state = st; sent = to_client b ∷ []; alive = true }
  copy_reaction st exited = record { state = st; sent = []; alive = false }
  copy_reaction st (copied s d requests chunks) = record {
    state = st;
    sent =
        to_server s.ip_address s.ss_port_send requests.0
        ∷ to_server d.ip_address d.ss_port_recv requests.1
        ∷ (stream_to d chunks ++ to_client eleven ∷ []);
    alive = true;
  }

  unfoldable pub handle_copy : Transfer → State ix → (path path_third : Bytes) → Run (Reaction ix)
  unfolding copy copy_reaction
  handle_copy t st path path_third = do r ← copy t st path path_third; done (copy_reaction st r)
