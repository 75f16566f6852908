-- ===== src/Client/Commands.antt =====
-- The loop of `main` (clientfunctions.c): a line is read and its request is chosen.
use nfs_mock.Base.{
  ℕ, ◌++◌, map, Option, none, some, List, [], ◌∷◌, Bytes, codes, starts_with, c_str, if◌then◌else◌,
}
use nfs_mock.Run.{Run, done, timeout}
use nfs_mock.Whitespace.{client_strip}
use nfs_mock.Client.Session.{Event, printed, Peer, after_ack}
use nfs_mock.Client.Locate.{client_read, client_write, client_get_size}
use nfs_mock.Client.Replies.{client_create, client_delete, client_copy}
use nfs_mock.Client.Listing.{Shown, storage_server, accessible_path, show_listing}

-- The branches of the chain of `strncmp`.
pub data Command : Type 0 where
  read write get_size create delete copy list_all invalid : Command

unfoldable pub command_of : Bytes → Command
command_of request =
    if starts_with request (codes "READ")
    then read
    else if starts_with request (codes "WRITE")
    then write
    else if starts_with request (codes "GETSIZE")
    then get_size
    else if starts_with request (codes "CREATE")
    then create
    else if starts_with request (codes "DELETE")
    then delete
    else if starts_with request (codes "COPY")
    then copy
    else if starts_with request (codes "LISTALL")
    then list_all
    else invalid

abbrev pub line_of : Shown → Event
line_of (storage_server s) = printed (codes "\nStorage Server: " ++ s)
line_of (accessible_path s) = printed (codes "\nAccessible path: " ++ s)

unfoldable pub print_lines : Option (List Shown) → Run (List Event)
print_lines none = timeout
print_lines (some lines) = done (map line_of lines ++ printed (codes "\n") ∷ [])

unfoldable pub client_list_all : (rounds : ℕ) → Peer → Bytes → Run (List Event)
unfolding after_ack show_listing print_lines
client_list_all rounds peer request =
    after_ack peer request (print_lines (show_listing rounds (c_str peer.response)))

unfoldable pub run_command : (rounds : ℕ) → Peer → Bytes → Command → Run (List Event)
unfolding client_read client_write client_get_size client_create client_delete client_copy
run_command rounds peer request read = client_read peer request
run_command rounds peer request write = client_write peer request
run_command rounds peer request get_size = client_get_size peer request
run_command rounds peer request create = client_create peer request
run_command rounds peer request delete = client_delete peer request
run_command rounds peer request copy = client_copy peer request
run_command rounds peer request list_all = client_list_all rounds peer request
run_command rounds peer request invalid = done (printed (codes "Invalid request\n") ∷ [])

-- One round of the loop of `main`; `line` is the buffer that `fgets` has filled.
unfoldable pub client_round : (rounds : ℕ) → Peer → (line : Bytes) → Run (List Event)
unfolding run_command command_of
client_round rounds peer line =
    let request = c_str (client_strip line) in run_command rounds peer request (command_of request)
