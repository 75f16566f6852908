-- ===== src/NamingServer/Tasks.antt =====
-- `send_request_async` (NamingServerModule.c): one of the threads that pass a request on to a storage
-- server. A thread that has its answer updates the shared records in one step here; the order of
-- several threads is the order of a list.
use nfs_mock.Base.{
  ℕ, ◌+◌, Bool, false, not, List, [], ◌∷◌, ◌++◌, Bytes, codes, str_eq, get_or, set, if◌then◌else◌,
}
use nfs_mock.Scanf.{scan_two}
use nfs_mock.NamingServer.{StorageServer}
use nfs_mock.NamingServer.Index.{PathIndex}
use nfs_mock.NamingServer.State.{
  State, Action, to_client, to_server, Outcome, refused, unsent, answered, Net, blank_server,
}

-- `task`: 0 is WRITE, 1 is CREATE, 2 is DELETE
pub data Task : Type 0 where
  write_task create_task delete_task : Task

-- `struct ThreadArgs`, without the client's socket
pub record ThreadArgs : Type 0 where
  pub ip_address : Bytes
  pub port : ℕ
  pub buffer : Bytes
  pub is_original : Bool
  pub storage_server_index : ℕ
  pub task : Task

-- `strcmp(storageserverreply, "-1") != 0`
abbrev pub accepted : Bytes → Bool
accepted reply = not (str_eq reply (codes "-1"))

-- an answer, and a success
unfoldable pub answered_well : Outcome → Bool
answered_well refused = false
answered_well unsent = false
answered_well (answered reply) = accepted reply

-- `storageServers[i].accessiblePaths[slot] = path; storageServers[i].numPaths++`
unfoldable pub put_path : StorageServer → ℕ → Bytes → StorageServer
put_path s slot path = record s {
  accessible_paths = set s.accessible_paths slot path;
  num_paths = s.num_paths + 1;
}

abbrev pub if_original : Bool → Bytes → List Action
if_original is_original reply = if is_original then to_client reply ∷ [] else []

module _ (ix : PathIndex) where
  open ix use {add}

  abbrev pub server_at : State ix → ℕ → StorageServer
  server_at st i = get_or st.storage_servers i blank_server

  -- The CREATE task's update: the path goes into the slot that has the server's own index.
  unfoldable pub add_created : State ix → ℕ → (slot : ℕ) → Bytes → State ix
  unfolding put_path
  add_created st i slot path =
      let server = put_path (server_at st i) slot path in
      record st {
        storage_servers = set st.storage_servers i server;
        servers_by_path = add path server st.servers_by_path;
      }

  unfoldable pub finish_task : Task → ThreadArgs → State ix → Bytes → State ix × List Action
  unfolding scan_two add_created
  finish_task write_task args st reply = (st, [])
  finish_task create_task args st reply =
      if accepted reply
      then (
        add_created st args.storage_server_index args.storage_server_index (scan_two args.buffer).1,
        if_original args.is_original reply,
      )
      else (st, [])
  finish_task delete_task args st reply =
      if accepted reply then (st, if_original args.is_original reply) else (st, [])

  -- The thread's request is the first action; then what its answer brings.
  unfoldable pub after_outcome : ThreadArgs → State ix → Outcome → State ix × List Action
  unfolding finish_task
  after_outcome args st refused = (st, [])
  after_outcome args st unsent = (st, [])
  after_outcome args st (answered reply) =
      let (st', sent) = finish_task args.task args st reply in
      (st', to_server args.ip_address args.port args.buffer ∷ sent)

  unfoldable pub send_request_async : Net → State ix → ThreadArgs → State ix × List Action
  unfolding after_outcome
  send_request_async net st args = after_outcome args st (net args.ip_address args.port args.buffer)

  unfoldable pub run_tasks : Net → State ix → List ThreadArgs → State ix × List Action
  unfolding send_request_async
  run_tasks net st [] = (st, [])
  run_tasks net st (args ∷ rest) =
      let (st', sent) = send_request_async net st args in
      let (st'', more) = run_tasks net st' rest in (st'', sent ++ more)
