-- ===== src/Protocol/Started.antt =====
-- A storage server that has started (StorageServerModule.c: `main`, `handleClientConnections`) and
-- what the naming server says of it (NamingServerModule.c: `handleStorageServer`).
use nfs_mock.Base.{
  ℕ, ◌<◌, ◌≤◌, ◌≡◌, refl, ap, ◌∙◌, sym, true, false, not, Option, none, some, List, [], ◌∷◌, codes,
  length, if◌then◌else◌, Bool-cases, inl, inr,
}
use nfs_mock.Base.{Bytes}
use mathlib.Core.Path.{subst}
use nfs_mock.Sockets.{
  going, Kernel, is_zero, Event, started_with, going_injective, then-going, exit_unless-going,
  bind-going, IsReady, bound-IsReady,
}
use nfs_mock.NamingServer.{StorageServer}
use nfs_mock.NamingServer.Index.{PathIndex}
use nfs_mock.NamingServer.State.{State, max_storage_servers}
use nfs_mock.NamingServer.Registration.{has_path, handle_storage_server}
use nfs_mock.NamingServer.Listeners.{
  naming_ss_listen_port, naming_client_listen_port, open_storage_server_listener,
  open_client_listener, start_storage_server_listener, handle_client_request,
}
use nfs_mock.NamingServer.Listeners as Naming
use nfs_mock.StorageServer.FileSystem.{FileSystem}
use nfs_mock.StorageServer.Scan.{accessible_paths}
use nfs_mock.StorageServer.Registration.{
  Ports, mount, register_storage_server, initialize_storage_server,
}
use nfs_mock.StorageServer.Listeners.{Arrival, ThreadArg, open_listener, handle_client_connections}
use nfs_mock.StorageServer.Startup.{
  PortCalls, ReportCalls, Threads, choose_ports, report_to_naming_server, start_listeners,
  run_storage_server,
}
use nfs_mock.Protocol.Joining.{joined}

open_listener-IsReady :
    (port : ℕ) (k : Kernel) {fd : Option ℕ}
    → k.bind port none ≡ false
    → open_listener port k ≡ going fd
    → IsReady k port
unfolding open_listener
open_listener-IsReady port k bad run =
    let made = exit_unless-going (not (is_zero k.socket)) (codes "socket failed") _ run in
    let set = exit_unless-going (k.set_options k.socket) (codes "setsockopt") _ made.1 in
    let bound = exit_unless-going (k.bind port k.socket) (codes "bind failed") _ set.1 in
    let listens = exit_unless-going (k.listen k.socket) (codes "listen") _ bound.1 in
    bound-IsReady k port bad bound.0 listens.0

open_storage_server_listener-IsReady :
    (k : Kernel) {fd : Option ℕ}
    → k.bind naming_ss_listen_port none ≡ false
    → open_storage_server_listener k ≡ going fd
    → IsReady k naming_ss_listen_port
unfolding open_storage_server_listener
open_storage_server_listener-IsReady k bad run =
    let made = exit_unless-going (not (is_zero k.socket)) (codes "socket failed") _ run in
    let bound =
      exit_unless-going (k.bind naming_ss_listen_port k.socket) (codes "bind failed") _ made.1 in
    let listens = exit_unless-going (k.listen k.socket) (codes "listen") _ bound.1 in
    bound-IsReady k naming_ss_listen_port bad bound.0 listens.0

-- If a naming server's listener for the storage servers gets to its `accept`, the kernel has given
-- a socket, bound it to the port 8000 and listens on it, although the test behind `socket` does not
-- see the failure: `bind` fails on a descriptor that is none.
pub start_storage_server_listener-IsReady :
    (k : Kernel) (arrivals : List Naming.Arrival) (events : List (Event ℕ))
    → k.bind naming_ss_listen_port none ≡ false
    → start_storage_server_listener k arrivals ≡ going events
    → IsReady k naming_ss_listen_port
unfolding start_storage_server_listener
start_storage_server_listener-IsReady k arrivals events bad run =
    open_storage_server_listener-IsReady k bad
      (then-going (open_storage_server_listener k) _ run).0.1

reported_or_not :
    (report : ReportCalls) (server : StorageServer) (told : List (Event StorageServer))
    → report_to_naming_server report server ≡ going told
    → started_with told ≡ (if report.sent then server ∷ [] else [])
unfolding report_to_naming_server started_with
reported_or_not report server told run =
    let opened = exit_unless-going report.opened (codes "Socket creation failed") _ run in
    let connected =
      exit_unless-going report.connected (codes "Connection to Naming Server failed") _ opened.1 in
    ap started_with (sym (going_injective connected.1))
    ∙ elim (Bool-cases report.sent) [ inl on ↦ rw on refl | inr off ↦ rw off refl ]

module _ (ix : PathIndex) (fs : FileSystem) where
  open ix use {find}
  open fs use {Disk}

  client_port_lem :
      (depth : ℕ) (ports : Ports) (d : Disk)
      → ports.client_port ≡ (initialize_storage_server fs depth ports d).client_port
  unfolding initialize_storage_server register_storage_server
  client_port_lem depth ports d = refl

  -- What `main` has made by the time its listeners run.
  run_storage_server_lem :
      (depth : ℕ) (client nm send recv : PortCalls) (report : ReportCalls) (threads : Threads)
      (d : Disk) (ports : Ports) (server : StorageServer) (told : List (Event StorageServer))
      → run_storage_server fs depth client nm send recv report threads d
        ≡ going (ports, server, told)
      → (initialize_storage_server fs depth ports d ≡ server)
        × (started_with told ≡ (if report.sent then server ∷ [] else []))
  unfolding run_storage_server
  run_storage_server_lem depth client nm send recv report threads d ports server told run =
      let (p, _, rest) = bind-going (choose_ports client nm send recv) _ run in
      let (t, reports, rest') =
        bind-going (report_to_naming_server report (initialize_storage_server fs depth p d)) _
          rest in
      let same = going_injective (then-going (start_listeners threads) _ rest').1 in
      let here = ap (λ q. q.1) same in
      (
        ap (λ q. initialize_storage_server fs depth q d) (sym (ap (λ q. q.0) same)) ∙ here,
        ap started_with (sym (ap (λ q. q.2) same))
            ∙ reported_or_not report _ t reports
            ∙ ap (λ s. if report.sent then s ∷ [] else []) here,
      )

  -- A storage server starts, and its listener for the clients gets to its `accept`; `bind` fails on
  -- a descriptor that is none. Before that it has sent its struct to the naming server, or nothing,
  -- if `send` failed. If a naming server with fewer than ten servers registers the struct, and the
  -- scan has found at most as many paths as its array holds, then each of these paths that had no
  -- server has this one afterwards, and the port that the naming server has of it for the clients
  -- is the one that the listener is bound to.
  pub located_and_bound :
      (depth : ℕ) (client nm send recv : PortCalls) (report : ReportCalls) (threads : Threads)
      (d : Disk) (ports : Ports) (server : StorageServer) (told : List (Event StorageServer))
      (k : Kernel) (arrivals : List Arrival) (events : List (Event ThreadArg)) (st : State ix)
      (path : Bytes)
      → run_storage_server fs depth client nm send recv report threads d
        ≡ going (ports, server, told)
      → handle_client_connections ports k arrivals ≡ going events
      → k.bind ports.client_port none ≡ false
      → st.storage_server_count < max_storage_servers
      → length (accessible_paths fs depth mount d) ≤ 500
      → has_path path (accessible_paths fs depth mount d) ≡ true
      → find path st.servers_by_path ≡ none
      → (started_with told ≡ (if report.sent then server ∷ [] else []))
        × (find path (handle_storage_server ix st server).state.servers_by_path ≡ some server)
        × IsReady k server.client_port
  unfolding handle_client_connections
  located_and_bound depth client nm send recv report threads d ports server told k arrivals events
        st path run listens bad room few scanned new =
      let (made, told_it) =
        run_storage_server_lem depth client nm send recv report threads d ports server told run in
      let ready =
        open_listener-IsReady ports.client_port k bad
          (then-going (open_listener ports.client_port k) _ listens).0.1 in
      (
        told_it,
        subst (λ s. find path (handle_storage_server ix st s).state.servers_by_path ≡ some s) made
            (joined ix fs st depth ports d path room few scanned new),
        subst (λ n. IsReady k n) (client_port_lem depth ports d ∙ ap (λ s. s.client_port) made)
            ready,
      )
