-- ===== src/Trials.antt =====
-- The programs beside the system: a server that echoes (temp.c), a client that sends a file
-- (temp_client.c), and the split of a path (tempjainit.c).
pub mod Sent
use nfs_mock.Base.{
  ℕ, zero, suc, Bool, true, false, Option, none, some, List, [], ◌∷◌, Bytes, codes, take, drop,
  length, if◌then◌else◌,
}
use nfs_mock.Paths.{get_substring_before_last_slash}
use nfs_mock.NamingServer.Copy.{Received, chunk, closed, failed}
use nfs_mock.StorageServer.Archive.{blocks}
use nfs_mock.Sockets.{Process, ◌>>=◌, ◌>>◌, exited, going, exit_unless, Kernel, is_negative}

-- temp.c

abbrev pub echo_port : ℕ
echo_port = 8080

unfoldable pub create_socket : Kernel → Process ℕ
create_socket k = elim k.socket [
  | none ↦ exited (codes "Error creating socket")
  | some fd ↦ going fd
]

unfoldable pub bind_socket : Kernel → ℕ → Process (Unit {0})
bind_socket k fd = exit_unless (k.bind echo_port (some fd)) (codes "Error binding socket")

-- What is sent back for what each `recv` yields; a failed `recv` is reported besides.
unfoldable pub handle_client : List Received → List Bytes
handle_client [] = []
handle_client (chunk b ∷ received) = b ∷ handle_client received
handle_client (closed ∷ received) = []
handle_client (failed ∷ received) = []

-- What an `accept` gives: -1, or a connection with what arrives on it. One connection is served
-- after the other; what is sent on each.
unfoldable pub serve_connections : List (Option (List Received)) → List (List Bytes)
unfolding handle_client
serve_connections [] = []
serve_connections (none ∷ arrivals) = serve_connections arrivals
serve_connections (some received ∷ arrivals) = handle_client received ∷ serve_connections arrivals

unfoldable pub listen_for_connections :
    Kernel → ℕ → List (Option (List Received)) → Process (List (List Bytes))
unfolding serve_connections
listen_for_connections k fd arrivals = do
  exit_unless (k.listen (some fd)) (codes "Error listening for connections")
  going (serve_connections arrivals)

unfoldable pub run_echo_server :
    Kernel → List (Option (List Received)) → Process (List (List Bytes))
unfolding create_socket bind_socket listen_for_connections
run_echo_server k arrivals = do
  fd ← create_socket k
  bind_socket k fd
  listen_for_connections k fd arrivals

-- temp_client.c

-- The file, if it can be opened; its length is calls enough.
unfoldable pub send_opened : Option Bytes → Process (List Bytes)
unfolding blocks
send_opened none = exited (codes "Error opening file for reading")
send_opened (some file) = going (blocks 1024 (length file) file)

unfoldable pub send_file :
    (socket : Option ℕ) (connected : Bool) → Option Bytes → Process (List Bytes)
unfolding send_opened
send_file socket connected file = do
  exit_unless (if is_negative socket then false else true) (codes "Socket creation error")
  exit_unless connected (codes "Connection failed")
  send_opened file

-- tempjainit.c: the line that `main` prints, for a buffer that holds `before`
unfoldable pub print_folder : (before : Bytes) → Bytes
print_folder before =
    get_substring_before_last_slash (codes "path/to/your/directory/yourfile.txt") before 256
