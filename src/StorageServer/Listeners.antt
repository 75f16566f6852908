-- ===== src/StorageServer/Listeners.antt =====
-- The four listeners of a storage server (StorageServerModule.c): `handleClientConnections`,
-- `handleNamingServerConnections`, `handleStorageServerConnections`,
-- `handleStorageServerConnectionsRecv`.
use nfs_mock.Base.{
  ℕ, Bool, true, false, not, Option, none, some, List, [], ◌∷◌, ◌++◌, Bytes, codes, c_str,
  received_over, length, replicate, ◌==◌, if◌then◌else◌,
}
use nfs_mock.Struct.{int_bytes}
use nfs_mock.StorageServer.Registration.{Ports}
use nfs_mock.Sockets.{
  Process, ◌>>◌, going, exit_unless, Kernel, is_zero, Event, reported, started, detached_unset,
}

-- `struct ThreadArg`: 4096 bytes of the request, and the socket
pub record ThreadArg : Type 0 where
  pub request : Bytes
  pub socket : ℕ

-- What an `accept` gives: -1, or a socket, with what the block of `malloc` holds where the request
-- will stand, what is received, if `recv` does not fail, and what `pthread_create` returns.
pub data Arrival : Type 0 where
  unaccepted : Arrival
  accepted : (socket : ℕ) (block : Bytes) (received : Option Bytes) (created : ℕ) → Arrival

-- The four listeners set their sockets up by the same text, each for its port.
unfoldable pub open_listener : (port : ℕ) → Kernel → Process (Option ℕ)
open_listener port k = do
  exit_unless (not (is_zero k.socket)) (codes "socket failed")
  exit_unless (k.set_options k.socket) (codes "setsockopt")
  exit_unless (k.bind port k.socket) (codes "bind failed")
  exit_unless (k.listen k.socket) (codes "listen")
  going k.socket

-- `memset(arg->request, '\0', sizeof(arg->request))`
abbrev pub cleared : Bytes → Bytes
cleared block = replicate (length block) 0

-- The string that starts at `request`; behind the array stands the socket.
unfoldable pub request_text : ThreadArg → Bytes
request_text arg = c_str (arg.request ++ int_bytes arg.socket)

-- `pthread_create` with the message for its failure, and `pthread_detach`
unfoldable pub start_detached : ThreadArg → (created : ℕ) → List (Event ThreadArg)
start_detached arg created =
    if created == 0
    then started arg ∷ []
    else reported (codes "Failed to create thread for client request") ∷ detached_unset ∷ []

-- `pthread_create` with the message for its failure
unfoldable pub start_joinable : ThreadArg → (created : ℕ) → List (Event ThreadArg)
start_joinable arg created =
    if created == 0
    then started arg ∷ []
    else reported (codes "Failed to create thread for client request") ∷ []

-- `read` that fails leaves the cleared array.
unfoldable pub read_over : (block : Bytes) → Option Bytes → Bytes
unfolding received_over
read_over block none = block
read_over block (some received) = received_over block received

-- The loop of `handleClientConnections`, whose threads run `executeClientRequest`.
unfoldable pub accept_clients : List Arrival → List (Event ThreadArg)
unfolding read_over start_detached
accept_clients [] = []
accept_clients (unaccepted ∷ arrivals) = reported (codes "accept") ∷ accept_clients arrivals
accept_clients (accepted socket block received created ∷ arrivals) =
    start_detached (record { request = read_over (cleared block) received; socket = socket })
      created
    ++ accept_clients arrivals

-- what a loop has done that can end the process, and whether the process goes on
pub record Served : Type 0 where
  pub events : List (Event ThreadArg)
  pub alive : Bool

abbrev pub before : List (Event ThreadArg) → Served → Served
before events s = record { events = events ++ s.events; alive = s.alive }

abbrev pub recv_failed : Served
recv_failed = record { events = reported (codes "recv failed") ∷ []; alive = false }

-- The loop of `handleNamingServerConnections`, whose threads run `executeNMRequest`. The array is
-- not cleared.
unfoldable pub accept_naming_server : List Arrival → Served
unfolding received_over start_detached
accept_naming_server [] = record { events = []; alive = true }
accept_naming_server (unaccepted ∷ arrivals) =
    before (reported (codes "accept") ∷ []) (accept_naming_server arrivals)
accept_naming_server (accepted socket block none created ∷ arrivals) = recv_failed
accept_naming_server (accepted socket block (some received) created ∷ arrivals) =
    before
      (start_detached (record { request = received_over block received; socket = socket }) created)
      (accept_naming_server arrivals)

-- The loop of `handleStorageServerConnections` and of `handleStorageServerConnectionsRecv`, whose
-- threads run `executeSSRequest` and `executeSSRequestRecv`.
unfoldable pub accept_storage_server : List Arrival → Served
unfolding received_over start_joinable
accept_storage_server [] = record { events = []; alive = true }
accept_storage_server (unaccepted ∷ arrivals) =
    before (reported (codes "accept") ∷ []) (accept_storage_server arrivals)
accept_storage_server (accepted socket block none created ∷ arrivals) = recv_failed
accept_storage_server (accepted socket block (some received) created ∷ arrivals) =
    before
      (start_joinable (record { request = received_over (cleared block) received; socket = socket })
        created)
      (accept_storage_server arrivals)

unfoldable pub handle_client_connections :
    Ports → Kernel → List Arrival → Process (List (Event ThreadArg))
unfolding open_listener accept_clients
handle_client_connections ports k arrivals = do
  open_listener ports.client_port k
  going (accept_clients arrivals)

unfoldable pub handle_naming_server_connections : Ports → Kernel → List Arrival → Process Served
unfolding open_listener accept_naming_server
handle_naming_server_connections ports k arrivals = do
  open_listener ports.nm_port k
  going (accept_naming_server arrivals)

unfoldable pub handle_storage_server_connections : Ports → Kernel → List Arrival → Process Served
unfolding open_listener accept_storage_server
handle_storage_server_connections ports k arrivals = do
  open_listener ports.ss_port_send k
  going (accept_storage_server arrivals)

unfoldable pub handle_storage_server_connections_recv :
    Ports → Kernel → List Arrival → Process Served
unfolding open_listener accept_storage_server
handle_storage_server_connections_recv ports k arrivals = do
  open_listener ports.ss_port_recv k
  going (accept_storage_server arrivals)
