-- ===== src/NamingServer/Listing.antt =====
-- LISTALL (NamingServerModule.c: `handleClientInput`): the text that lists every server's paths.
use nfs_mock.Base.{ℕ, suc, ◌+◌, List, [], ◌∷◌, ◌++◌, take, Bytes}
use nfs_mock.Decimal.{decimal}
use nfs_mock.NamingServer.{StorageServer, listed}

-- `$` and the path, for each path
unfoldable pub list_paths : List Bytes → Bytes
list_paths [] = []
list_paths (p ∷ paths) = b'$' ∷ (p ++ list_paths paths)

-- The servers from index `i` on. `snprintf(index, 5, …)` keeps four digits.
unfoldable pub list_servers : ℕ → List StorageServer → Bytes
list_servers i [] = []
list_servers i (s ∷ servers) =
    take 4 (decimal (i + 1))
    ++ (list_paths (listed s.num_paths s.accessible_paths) ++ b'*' ∷ list_servers (suc i) servers)

-- The text of the whole list; in C it is written into an array of 40960 bytes, which no test guards.
unfoldable pub list_all : List StorageServer → Bytes
unfolding list_servers list_paths
list_all servers = b'*' ∷ list_servers 0 servers
