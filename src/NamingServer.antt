-- ===== src/NamingServer.antt =====
-- The naming server (NamingServerModule.c): the records that it keeps, and in the modules below what
-- its threads do with them.
pub mod Listing
pub mod Index
pub mod State
pub mod Registration
pub mod Locate
pub mod Tasks
pub mod Create
pub mod Delete
pub mod Copy
pub mod Copying
pub mod Dispatch
pub mod Invariant
pub mod Deletion
pub mod Reachable
pub mod Connection
pub mod Commands
pub mod Listeners
pub mod Accepted
pub mod Concurrent
pub mod Logging
pub mod GetPath
use nfs_mock.Base.{ℕ, zero, suc, List, [], ◌∷◌, Bytes}

-- `struct StorageServer`, without the hash handle. `accessible_paths` is the array of 500 strings, of
-- which the first `num_paths` count.
pub record StorageServer : Type 0 where
  pub ip_address : Bytes
  pub nm_port : ℕ
  pub client_port : ℕ
  pub ss_port_send : ℕ
  pub ss_port_recv : ℕ
  pub num_paths : ℕ
  pub accessible_paths : List Bytes

-- The strings at the indices below `n`.
unfoldable pub listed : ℕ → List Bytes → List Bytes
listed zero paths = []
listed (suc n) [] = [] ∷ listed n []
listed (suc n) (p ∷ paths) = p ∷ listed n paths
