-- ===== src/StorageServer/Startup.antt =====
-- How a storage server starts (StorageServerModule.c): `getAvailablePort`, `reportToNamingServer`,
-- `main`.
use nfs_mock.Base.{ℕ, Bool, List, [], ◌∷◌, codes, ◌==◌, if◌then◌else◌}
use nfs_mock.NamingServer.{StorageServer}
use nfs_mock.StorageServer.FileSystem.{FileSystem}
use nfs_mock.StorageServer.Registration.{Ports, initialize_storage_server}
use nfs_mock.Sockets.{Process, ◌>>=◌, ◌>>◌, going, exit_unless, Event, reported, started}

-- the answers to `socket`, `bind` to port 0 and `getsockname`, and the port that the kernel has chosen
pub record PortCalls : Type 0 where
  pub opened : Bool
  pub bound : Bool
  pub named : Bool
  pub port : ℕ

unfoldable pub get_available_port : PortCalls → Process ℕ
get_available_port calls = do
  exit_unless calls.opened (codes "Cannot open socket")
  exit_unless calls.bound (codes "Bind failed")
  exit_unless calls.named (codes "getsockname failed")
  going calls.port

-- the answers to `socket`, `connect` and `send`
pub record ReportCalls : Type 0 where
  pub opened : Bool
  pub connected : Bool
  pub sent : Bool

-- The struct that is sent to the naming server, or the message for a failed send.
unfoldable pub report_to_naming_server :
    ReportCalls → StorageServer → Process (List (Event StorageServer))
report_to_naming_server calls server = do
  exit_unless calls.opened (codes "Socket creation failed")
  exit_unless calls.connected (codes "Connection to Naming Server failed")
  going (
      (if calls.sent then started server else reported (codes "Failed to send storage server data"))
      ∷ [])

-- what the four calls of `pthread_create` return
pub record Threads : Type 0 where
  pub client : ℕ
  pub naming_server : ℕ
  pub sender : ℕ
  pub receiver : ℕ

unfoldable pub start_listeners : Threads → Process (Unit {0})
start_listeners t = do
  exit_unless (t.client == 0) (codes "Failed to create client connections thread")
  exit_unless (t.naming_server == 0) (codes "Failed to create Naming Server connections thread")
  exit_unless (t.sender == 0) (codes "Failed to create Naming Server connections thread")
  exit_unless (t.receiver == 0) (codes "Failed to create Naming Server connections thread")

unfoldable pub choose_ports : (client nm send recv : PortCalls) → Process Ports
unfolding get_available_port
choose_ports client nm send recv = do
  client_port ← get_available_port client
  nm_port ← get_available_port nm
  ss_port_send ← get_available_port send
  ss_port_recv ← get_available_port recv
  going (record {
    nm_port = nm_port;
    client_port = client_port;
    ss_port_send = ss_port_send;
    ss_port_recv = ss_port_recv;
  })

module _ (fs : FileSystem) where
  open fs use {Disk}

  -- The server with its ports, which the listeners read, and what has been sent before the first of
  -- them starts.
  unfoldable pub run_storage_server :
      (depth : ℕ) (client nm send recv : PortCalls)
      → ReportCalls
      → Threads
      → Disk
      → Process (Ports × StorageServer × List (Event StorageServer))
  unfolding choose_ports report_to_naming_server start_listeners
  run_storage_server depth client nm send recv report threads d = do
    ports ← choose_ports client nm send recv
    told ← report_to_naming_server report (initialize_storage_server fs depth ports d)
    start_listeners threads
    going (ports, initialize_storage_server fs depth ports d, told)
