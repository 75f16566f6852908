-- ===== src/StorageServer/Registration.antt =====
-- `registerStorageServer` and `initializeStorageServer` (StorageServerModule.c): what a storage server
-- reports of itself. The bytes of the struct are sent as they are.
use nfs_mock.Base.{ℕ, ◌-◌, [], ◌++◌, Bytes, codes, length, replicate}
use nfs_mock.NamingServer.{StorageServer}
use nfs_mock.StorageServer.FileSystem.{FileSystem}
use nfs_mock.StorageServer.Scan.{accessible_paths}

-- the two ports of the other globals
pub record Ports : Type 0 where
  pub nm_port : ℕ
  pub client_port : ℕ
  pub ss_port_send : ℕ
  pub ss_port_recv : ℕ

abbrev pub mount : Bytes
mount = codes "."

module _ (fs : FileSystem) where
  open fs use {Disk}

  -- the array of 500 paths, with the mount and what is below it
  unfoldable pub register_storage_server :
      (depth : ℕ) (ip_address : Bytes) → Ports → (mount : Bytes) → Disk → StorageServer
  register_storage_server depth ip_address ports mount d =
      let paths = accessible_paths fs depth mount d in
      record {
        ip_address = ip_address;
        nm_port = ports.nm_port;
        client_port = ports.client_port;
        ss_port_send = ports.ss_port_send;
        ss_port_recv = ports.ss_port_recv;
        num_paths = length paths;
        accessible_paths = paths ++ replicate (500 - length paths) [];
      }

  -- `SSIPADDRESS`, `MOUNT`. A path of 100 bytes or more, which the C array writes on into the next one,
  -- is kept whole here.
  unfoldable pub initialize_storage_server : (depth : ℕ) → Ports → Disk → StorageServer
  unfolding register_storage_server
  initialize_storage_server depth ports d =
      register_storage_server depth (codes "127.0.0.2") ports mount d
