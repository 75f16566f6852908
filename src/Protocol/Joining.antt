-- ===== src/Protocol/Joining.antt =====
-- A storage server reports itself to the naming server with the paths of its directories
-- (StorageServerModule.c: `initializeStorageServer`; NamingServerModule.c: `handleStorageServer`).
use nfs_mock.Base.{ℕ, ◌<◌, ◌≤◌, ◌≡◌, inl, inr, true, none, some, Bytes, length}
use nfs_mock.NamingServer.{listed}
use nfs_mock.NamingServer.Index.{PathIndex}
use nfs_mock.NamingServer.State.{State, max_storage_servers}
use nfs_mock.NamingServer.Registration.{has_path, handle_storage_server, registration}
use nfs_mock.StorageServer.FileSystem.{FileSystem}
use nfs_mock.StorageServer.Scan.{accessible_paths}
use nfs_mock.Protocol.PathList.{listed-append}
use nfs_mock.StorageServer.Registration.{
  Ports, mount, register_storage_server, initialize_storage_server,
}

module _ (ix : PathIndex) (fs : FileSystem) where
  open ix use {find}
  open fs use {Disk}

  listed-initialize :
      (depth : ℕ) (ports : Ports) (d : Disk)
      → let s = initialize_storage_server fs depth ports d in
        listed s.num_paths s.accessible_paths ≡ accessible_paths fs depth mount d
  unfolding initialize_storage_server register_storage_server
  listed-initialize depth ports d = listed-append (accessible_paths fs depth mount d) _

  -- While fewer than ten servers are registered, a storage server that starts and reports itself
  -- with at most as many paths as its array holds is the server of every path that its scan has
  -- found and that had no server before.
  pub joined :
      (st : State ix) (depth : ℕ) (ports : Ports) (d : Disk) (p : Bytes)
      → st.storage_server_count < max_storage_servers
      → length (accessible_paths fs depth mount d) ≤ 500
      → has_path p (accessible_paths fs depth mount d) ≡ true
      → find p st.servers_by_path ≡ none
      → find p
          (handle_storage_server ix st
            (initialize_storage_server fs depth ports d)).state.servers_by_path
        ≡ some (initialize_storage_server fs depth ports d)
  joined st depth ports d p room few scanned new =
      elim (registration ix st (initialize_storage_server fs depth ports d) p room).3 [
        | inl is ↦ elim is.1 [ inl here ↦ here | inr old ↦ absurd (old.1 new) ]
        | inr other ↦ cc (listed-initialize depth ports d)
      ]
