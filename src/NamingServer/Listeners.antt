-- ===== src/NamingServer/Listeners.antt =====
-- `startStorageServerListener` and `handleClientRequest` (NamingServerModule.c): the two listeners
-- of the naming server.
use nfs_mock.Base.{ℕ, not, Option, List, [], ◌∷◌, ◌++◌, codes, ◌==◌, ltb, if◌then◌else◌}
use nfs_mock.NamingServer.Index.{PathIndex}
use nfs_mock.NamingServer.State.{State, initialize_naming_server}
use nfs_mock.Sockets.{
  Process, ◌>>◌, going, exit_unless, Kernel, is_zero, is_negative, Event, reported, started,
  detached_unset,
}

abbrev pub naming_ss_listen_port : ℕ
naming_ss_listen_port = 8000

abbrev pub naming_client_listen_port : ℕ
naming_client_listen_port = 8001

-- What an `accept` gives: -1, or a socket, with what the `pthread_create` behind it returns, which
-- is 0 or an error number.
pub data Arrival : Type 0 where
  unaccepted : Arrival
  accepted : (socket created : ℕ) → Arrival

-- The socket that accepts, up to `listen`.
unfoldable pub open_storage_server_listener : Kernel → Process (Option ℕ)
open_storage_server_listener k = do
  exit_unless (not (is_zero k.socket)) (codes "socket failed")
  exit_unless (k.bind naming_ss_listen_port k.socket) (codes "bind failed")
  exit_unless (k.listen k.socket) (codes "listen")
  going k.socket

unfoldable pub open_client_listener : Kernel → Process (Option ℕ)
open_client_listener k = do
  exit_unless (not (is_negative k.socket)) (codes "socket failed")
  exit_unless (k.bind naming_client_listen_port k.socket) (codes "bind failed")
  exit_unless (k.listen k.socket) (codes "listen")
  going k.socket

-- `if (pthread_create(…) < 0) …`, and `pthread_detach`
unfoldable pub start_handler : (socket created : ℕ) → List (Event ℕ)
start_handler socket created =
    (if created == 0 then started socket ∷ [] else [])
    ++ ((if ltb created 0 then reported (codes "could not create thread") ∷ [] else [])
        ++ (if created == 0 then [] else detached_unset ∷ []))

-- The loop of `startStorageServerListener`, whose threads run `handleStorageServer`.
unfoldable pub accept_storage_servers : List Arrival → List (Event ℕ)
unfolding start_handler
accept_storage_servers [] = []
accept_storage_servers (unaccepted ∷ arrivals) =
    reported (codes "accept") ∷ accept_storage_servers arrivals
accept_storage_servers (accepted socket created ∷ arrivals) =
    start_handler socket created ++ accept_storage_servers arrivals

-- The loop of `handleClientRequest`, whose threads run `handleClientInput`.
unfoldable pub accept_clients : List Arrival → List (Event ℕ)
unfolding start_handler
accept_clients [] = []
accept_clients (unaccepted ∷ arrivals) = reported (codes "accept") ∷ accept_clients arrivals
accept_clients (accepted socket created ∷ arrivals) =
    reported (codes "Client connected...") ∷ start_handler socket created ++ accept_clients arrivals

unfoldable pub start_storage_server_listener : Kernel → List Arrival → Process (List (Event ℕ))
unfolding open_storage_server_listener accept_storage_servers
start_storage_server_listener k arrivals = do
  open_storage_server_listener k
  going (accept_storage_servers arrivals)

unfoldable pub handle_client_request : Kernel → List Arrival → Process (List (Event ℕ))
unfolding open_client_listener accept_clients
handle_client_request k arrivals = do
  open_client_listener k
  going (reported (codes "Naming Server started listening...") ∷ accept_clients arrivals)

-- `main`, with what its two calls of `pthread_create` return: the state with which the listeners
-- start, or the text that goes to stderr before `return 1`.
unfoldable pub run_naming_server :
    (ix : PathIndex) (storage_thread client_thread : ℕ) → Process (State ix)
run_naming_server ix storage_thread client_thread = do
  exit_unless (storage_thread == 0) (codes "Error creating storage server listener thread")
  exit_unless (client_thread == 0) (codes "Error creating client request handler thread")
  going (initialize_naming_server ix)
