-- ===== src/Examples/Listeners.antt =====
-- Listeners of both servers, with some connections.
use nfs_mock.Base.{
  ℕ, ◌≡◌, refl, true, false, not, none, some, List, [], ◌∷◌, ◌++◌, map, arith, Bytes, codes, drop,
  length, replicate, if◌then◌else◌, str_eq,
}
use Prim.Native.Nat.{min}
use mathlib.Core.List.Perm
use nfs_mock.Checks.{every-Lacks}
use nfs_mock.Sockets.{Kernel, started, started_with, is_negative, IsReady}
use nfs_mock.NamingServer.Index.{assoc_index, assoc_find}
use nfs_mock.NamingServer.State.{max_storage_servers, initialize_naming_server}
use nfs_mock.NamingServer.Registration.{has_path, handle_storage_server}
use nfs_mock.NamingServer.Listeners as Naming
use nfs_mock.NamingServer.Listeners.{
  start_handler, accept_storage_servers, start_storage_server_listener,
}
use nfs_mock.NamingServer.Accepted.{register_servers, slots, told, served, registered_slots}
use nfs_mock.StorageServer.Scan.{accessible_paths}
use nfs_mock.StorageServer.Memory.{memory}
use nfs_mock.StorageServer.Registration.{initialize_storage_server}
use nfs_mock.StorageServer.Listeners.{
  Arrival, unaccepted, accepted, ThreadArg, request_text, accept_clients, accept_naming_server,
  accept_storage_server, handle_client_connections,
}
use nfs_mock.StorageServer.Received.{texts, plain_requests, leftover_request, ended_by_recv}
use nfs_mock.StorageServer.Startup.{PortCalls, ReportCalls, Threads, run_storage_server}
use nfs_mock.Protocol.Started.{located_and_bound}
use nfs_mock.Examples.Servers.{server_a, start}
use nfs_mock.Examples.Transfers.{one_file, ports}

-- calls that succeed on any descriptor
abbrev kernel : Kernel
kernel = record {
  socket = some 3;
  set_options = λ fd. not (is_negative fd);
  bind = λ port fd. not (is_negative fd);
  listen = λ fd. not (is_negative fd);
}

-- two servers, and an `accept` that fails in between
abbrev two_servers : List Naming.Arrival
two_servers = Naming.accepted 4 0 ∷ Naming.unaccepted ∷ Naming.accepted 5 0 ∷ []

registered_slots_example :
    let r = register_servers assoc_index start (server_a ∷ server_a ∷ []) in
    (r.0.storage_servers ≡ slots max_storage_servers (server_a ∷ server_a ∷ []))
    × (r.0.storage_server_count ≡ min max_storage_servers (length (served two_servers)))
    × (r.1 ≡ told max_storage_servers (server_a ∷ server_a ∷ []))
unfolding start_storage_server_listener start_handler started_with
registered_slots_example =
    registered_slots assoc_index kernel two_servers (accept_storage_servers two_servers)
      (λ socket. server_a) (5 ∷ 4 ∷ []) refl (Perm.swap 4 5 [])

-- the block of an older request, and two texts that arrive
abbrev block : Bytes
block = codes "CREATE ./b/cde" ++ replicate 10 0

abbrev two_clients : List Arrival
two_clients =
    accepted 7 block (some (codes "READ ./a")) 0
    ∷ unaccepted
    ∷ accepted 8 block (some (codes "GETSIZE ./a")) 0
    ∷ []

plain_requests_example :
    (map request_text (started_with (accept_clients two_clients)) ≡ texts two_clients)
    × (map request_text (started_with (accept_storage_server two_clients).events)
        ≡ texts two_clients)
    × ((accept_storage_server two_clients).alive ≡ true)
plain_requests_example = plain_requests two_clients (
  (every-Lacks 0 (codes "READ ./a") refl, omega arith, refl),
  (tt, ((every-Lacks 0 (codes "GETSIZE ./a") refl, omega arith, refl), tt)),
)

-- "CREATE ./a" becomes "CREATE ./a/cde".
leftover_request_example :
    (arg : ThreadArg) × (started_with
        (accept_naming_server
          (accepted 7 (codes "CREATE ./b/cde" ++ 0 ∷ []) (some (codes "CREATE ./a")) 0 ∷ [])).events
      ≡ arg ∷ started_with (accept_naming_server []).events)
    × (request_text arg ≡ codes "CREATE ./a" ++ drop 10 (codes "CREATE ./b/cde"))
leftover_request_example =
    leftover_request (codes "CREATE ./a") (codes "CREATE ./b/cde") [] 7 []
      (every-Lacks 0 (codes "CREATE ./a") refl) (every-Lacks 0 (codes "CREATE ./b/cde") refl)
      (omega arith)

ended_by_recv_example :
    let failing = accepted 9 block none 0 in
    (accept_naming_server (two_clients ++ failing ∷ two_clients)
      ≡ accept_naming_server (two_clients ++ failing ∷ []))
    × (accept_storage_server (two_clients ++ failing ∷ two_clients)
        ≡ accept_storage_server (two_clients ++ failing ∷ []))
    × ((accept_naming_server (two_clients ++ failing ∷ two_clients)).alive ≡ false)
    × ((accept_storage_server (two_clients ++ failing ∷ two_clients)).alive ≡ false)
ended_by_recv_example = ended_by_recv two_clients two_clients 9 0 block

abbrev port_of : ℕ → PortCalls
port_of n = record { opened = true; bound = true; named = true; port = n }

abbrev report : ReportCalls
report = record { opened = true; connected = true; sent = true }

abbrev threads : Threads
threads = record { client = 0; naming_server = 0; sender = 0; receiver = 0 }

located_and_bound_example :
    let server = initialize_storage_server memory 1 ports one_file in
    (started_with (started server ∷ []) ≡ (if true then server ∷ [] else []))
    × (assoc_find (codes ".") (handle_storage_server assoc_index start server).state.servers_by_path
        ≡ some server)
    × IsReady kernel server.client_port
unfolding run_storage_server handle_client_connections initialize_naming_server accessible_paths
    has_path str_eq assoc_find
located_and_bound_example =
    located_and_bound assoc_index memory 1 (port_of 9102) (port_of 9101) (port_of 9103)
      (port_of 9104) report threads one_file ports
      (initialize_storage_server memory 1 ports one_file)
      (started (initialize_storage_server memory 1 ports one_file) ∷ []) kernel two_clients
      (accept_clients two_clients) start (codes ".") refl refl refl (omega arith) (omega arith) refl
      refl
