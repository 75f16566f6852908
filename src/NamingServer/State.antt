-- ===== src/NamingServer/State.antt =====
-- What the naming server keeps, what its threads send, and what the network answers.
use nfs_mock.Base.{ℕ, Bool, none, List, [], Bytes, replicate}
use nfs_mock.Lru.{Cache}
use nfs_mock.NamingServer.{StorageServer}
use nfs_mock.NamingServer.Index.{PathIndex}

abbrev pub max_storage_servers : ℕ
max_storage_servers = 10

-- A zeroed `struct StorageServer`; its 500 paths are empty strings.
abbrev pub blank_server : StorageServer
blank_server = record {
  ip_address = [];
  nm_port = 0;
  client_port = 0;
  ss_port_send = 0;
  ss_port_recv = 0;
  num_paths = 0;
  accessible_paths = replicate 500 [];
}

-- A message to the client of the thread, or a request to a server: address, port and text.
pub data Action : Type 0 where
  to_client : Bytes → Action
  to_server : Bytes → ℕ → Bytes → Action

-- What becomes of a request to a server: no connection, a failed send, or the bytes that are in the
-- reply buffer afterwards.
pub data Outcome : Type 0 where
  refused unsent : Outcome
  answered : Bytes → Outcome

abbrev pub Net : Type 0
Net = (ip : Bytes) (port : ℕ) (request : Bytes) → Outcome

module _ (ix : PathIndex) where
  open ix use {Table, empty}

  -- `storageServers`, `storageServerCount`, `serversByPath` and the cache
  pub record State : Type 0 where
    pub storage_servers : List StorageServer
    pub storage_server_count : ℕ
    pub servers_by_path : Table
    pub cache : Cache StorageServer

  -- `initializeNamingServer`, and the initial values of the other globals
  unfoldable pub initialize_naming_server : State
  initialize_naming_server = record {
    storage_servers = replicate max_storage_servers blank_server;
    storage_server_count = 0;
    servers_by_path = empty;
    cache = record { heap = λ p. none; head = 0; cache_size = 0; cache_capacity = 0 };
  }

  -- The state after a request, what was sent meanwhile, and whether the thread goes on.
  pub record Reaction : Type 0 where
    pub state : State
    pub sent : List Action
    pub alive : Bool
