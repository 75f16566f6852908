-- ===== src/NamingServer/Commands.antt =====
-- Requests that the naming server can send to a storage server by itself, which nothing calls
-- (NamingServerModule.c: `send_request`, `sendCommandToServer`, `createFileOrDirectory`,
-- `deleteFileOrDirectory`, `copyFileOrDirectory`), and how a storage server reads them.
use nfs_mock.Base.{ℕ, List, [], ◌∷◌, ◌++◌, Bytes, codes}
use nfs_mock.Decimal.{decimal}
use nfs_mock.NamingServer.State.{Action, to_server, Outcome, refused, unsent, answered, Net}

-- What has been sent. The reply is only printed.
unfoldable pub after_send : (ip : Bytes) (port : ℕ) (buffer : Bytes) → Outcome → List Action
after_send ip port buffer refused = []
after_send ip port buffer unsent = []
after_send ip port buffer (answered reply) = to_server ip port buffer ∷ []

unfoldable pub send_request : Net → (ip : Bytes) (port : ℕ) (buffer : Bytes) → List Action
unfolding after_send
send_request net ip port buffer = after_send ip port buffer (net ip port buffer)

unfoldable pub send_command_to_server :
    Net → (ip : Bytes) (port : ℕ) (command : Bytes) → List Action
unfolding after_send
send_command_to_server net ip port command = after_send ip port command (net ip port command)

-- "CREATE %s %d"
unfoldable pub create_file_or_directory :
    Net → (ip : Bytes) (port : ℕ) (path : Bytes) (is_directory : ℕ) → List Action
unfolding send_command_to_server
create_file_or_directory net ip port path is_directory =
    send_command_to_server net ip port (codes "CREATE " ++ (path ++ b' ' ∷ decimal is_directory))

-- "DELETE %s"
unfoldable pub delete_file_or_directory : Net → (ip : Bytes) (port : ℕ) (path : Bytes) → List Action
unfolding send_command_to_server
delete_file_or_directory net ip port path =
    send_command_to_server net ip port (codes "DELETE " ++ path)

-- "COPY %s %s:%d %s"
abbrev pub copy_command :
    (source_path destination_ip : Bytes) (destination_port : ℕ) (destination_path : Bytes) → Bytes
copy_command source_path destination_ip destination_port destination_path =
    codes "COPY "
    ++ (source_path
        ++ b' ' ∷ (destination_ip ++ b':' ∷ (decimal destination_port ++ b' ' ∷ destination_path)))

unfoldable pub copy_file_or_directory :
    Net
    → (source_ip : Bytes) (source_port : ℕ) (destination_ip : Bytes) (destination_port : ℕ)
      (source_path destination_path : Bytes)
    → List Action
unfolding send_command_to_server
copy_file_or_directory net source_ip source_port destination_ip destination_port source_path
      destination_path =
    send_command_to_server net source_ip source_port
      (copy_command source_path destination_ip destination_port destination_path)
