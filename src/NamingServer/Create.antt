-- ===== src/NamingServer/Create.antt =====
-- The CREATE branch of `handleClientInput` (NamingServerModule.c).
pub mod Direct
pub mod Replicated
pub mod Effects
pub mod Orders
use nfs_mock.Base.{
  ℕ, Bool, true, false, Option, none, some, List, [], ◌∷◌, ◌++◌, Bytes, codes, leb, if◌then◌else◌,
  str_eq, ◌&&◌,
}
use nfs_mock.Run.{Run, done, fault, ◌>>=◌}
use nfs_mock.Scanf.{scan_two}
use nfs_mock.Paths.{remove_prefix}
use nfs_mock.NamingServer.{StorageServer}
use nfs_mock.NamingServer.Index.{PathIndex}
use nfs_mock.NamingServer.State.{
  State, Reaction, Action, to_client, to_server, Outcome, refused, unsent, answered, Net,
}
use nfs_mock.NamingServer.Locate.{find_server}
use nfs_mock.NamingServer.Tasks.{
  ThreadArgs, create_task, accepted, answered_well, server_at, add_created, run_tasks,
}

-- "CREATE %s"
abbrev pub create_request : Bytes → Bytes
create_request path = codes "CREATE " ++ path

-- The paths of the copies: "./Backup0%s" and "./Backup1%s" of the path without its first dot.
unfoldable pub backup_path : Bytes → Bytes → Bytes
backup_path folder path = folder ++ remove_prefix path (codes ".")

module _ (ix : PathIndex) where
  unfoldable pub create_args : State ix → ℕ → Bool → Bytes → ThreadArgs
  create_args st i is_original path = record {
    ip_address = (server_at ix st i).ip_address;
    port = (server_at ix st i).nm_port;
    buffer = create_request path;
    is_original = is_original;
    storage_server_index = i;
    task = create_task;
  }

  -- The three threads, in the order in which they are started.
  unfoldable pub create_tasks : State ix → Bytes → List ThreadArgs
  unfolding create_args backup_path
  create_tasks st path =
      create_args st 1 false (backup_path (codes "./Backup0") path)
      ∷ create_args st 2 false (backup_path (codes "./Backup1") path)
      ∷ create_args st 0 true path
      ∷ []

  -- With fewer than three servers: what the answer of the first one brings.
  unfoldable pub after_create : State ix → (request path : Bytes) → Outcome → Reaction ix
  unfolding add_created
  after_create st request path refused = record { state = st; sent = []; alive = false }
  after_create st request path unsent = record { state = st; sent = []; alive = false }
  after_create st request path (answered reply) =
      let s = server_at ix st 0 in
      record {
        state = if accepted reply then add_created ix st 0 s.num_paths path else st;
        sent = to_server s.ip_address s.nm_port request ∷ to_client reply ∷ [];
        alive = true;
      }

  unfoldable pub create_direct : Net → State ix → (request path : Bytes) → Reaction ix
  unfolding after_create
  create_direct net st request path =
      after_create st request path
        (net (server_at ix st 0).ip_address (server_at ix st 0).nm_port request)

  -- `order` puts the three threads in the order in which they finish.
  unfoldable pub create_replicated :
      (order : List ThreadArgs → List ThreadArgs) → Net → State ix → Bytes → Reaction ix
  unfolding create_tasks run_tasks
  create_replicated order net st path =
      let (st', sent) = run_tasks ix net st (order (create_tasks st path)) in
      record { state = st'; sent = sent; alive = true }

  -- A path that has a server gets no answer.
  unfoldable pub create_unless_found :
      (order : List ThreadArgs → List ThreadArgs)
      → Net
      → State ix
      → (request path : Bytes) → Option StorageServer
      → Reaction ix
  unfolding create_direct create_replicated
  create_unless_found order net st request path (some s) = record {
    state = st;
    sent = [];
    alive = true;
  }
  create_unless_found order net st request path none =
      if leb 3 st.storage_server_count
      then create_replicated order net st path
      else create_direct net st request path

  -- A thread whose request has no second word is left with what its array `path` held, which it
  -- uses if its server answers, and not with "-1".
  unfoldable pub uses_unset : Net → ThreadArgs → Bool
  unfolding scan_two
  uses_unset net args =
      str_eq (scan_two args.buffer).1 []
      && answered_well (net args.ip_address args.port args.buffer)

  -- The requests for the copies have a second word, since it begins with the folder of the copy.
  unfoldable pub create_if_set :
      (order : List ThreadArgs → List ThreadArgs)
      → Net
      → State ix
      → (request path : Bytes) → Option StorageServer
      → Run (Reaction ix)
  unfolding create_unless_found uses_unset
  create_if_set order net st request path (some s) =
      done (create_unless_found order net st request path (some s))
  create_if_set order net st request path none =
      if leb 3 st.storage_server_count && uses_unset net (create_args st 0 true path)
      then fault
      else done (create_unless_found order net st request path none)

  -- `request` is the stripped request, and `path` the path in it.
  unfoldable pub handle_create :
      (order : List ThreadArgs → List ThreadArgs)
      → Net
      → State ix
      → (request path : Bytes) → Run (Reaction ix)
  unfolding find_server create_if_set
  handle_create order net st request path = do
    (found, st') ← find_server ix st path
    create_if_set order net st' request path found
