-- ===== src/Examples/Servers.antt =====
-- A naming server with one storage server, and one with three.
use nfs_mock.Base.{
  Bytes, ◌≡◌, ◌≢◌, refl, true, Option, none, some, List, [], ◌∷◌, ◌++◌, arith, codes, set, str_eq,
}
use nfs_mock.Run.{done}
use nfs_mock.NamingServer.{StorageServer, listed}
use nfs_mock.NamingServer.Index.{assoc_index, assoc_find}
use nfs_mock.NamingServer.State.{
  State, Reaction, to_client, to_server, answered, Net, initialize_naming_server,
}
use nfs_mock.NamingServer.Registration.{Indexed, handle_storage_server, registration}
use nfs_mock.NamingServer.Locate.{locate_reply, handle_locate}
use nfs_mock.NamingServer.Tasks.{ThreadArgs, server_at}
use nfs_mock.NamingServer.Create.{create_request, backup_path, handle_create}
use nfs_mock.NamingServer.Create.Direct.{create_direct-find}
use nfs_mock.NamingServer.Create.Replicated.{create_replicated-known}
use nfs_mock.Base.{set}
use nfs_mock.NamingServer.Delete.{refresh_server, index_of, handle_delete}
use nfs_mock.NamingServer.Deletion.{delete_keeps_path}
use nfs_mock.NamingServer.Reachable.{
  registers, Reach, here, next, IsSound, Reach-IsSound, known_forever, locate-find,
}
use nfs_mock.NamingServer.Copy.{Transfer, handle_copy}
use nfs_mock.NamingServer.Copying.{whole}
use nfs_mock.Decimal.{atoi}
use nfs_mock.Client.Session.{printed}
use nfs_mock.Client.Replies.{message_of, copy_lines}
use nfs_mock.Protocol.CopyErrors.{no_source, refusal-shown}

abbrev pub server_a : StorageServer
server_a = record {
  ip_address = codes "127.0.0.1";
  nm_port = 9001;
  client_port = 9002;
  ss_port_send = 9003;
  ss_port_recv = 9004;
  num_paths = 1;
  accessible_paths = codes "./a" ∷ [] ∷ [] ∷ [] ∷ [];
}

abbrev pub start : State assoc_index
start = initialize_naming_server assoc_index

-- one server
abbrev pub one : State assoc_index
one = (handle_storage_server assoc_index start server_a).state

-- three servers
abbrev pub three : State assoc_index
three =
    let two = (handle_storage_server assoc_index one server_a).state in
    (handle_storage_server assoc_index two server_a).state

-- every storage server answers that a file is created
abbrev pub net : Net
net ip port request = answered (codes "4")

registration_example :
    let r = handle_storage_server assoc_index start server_a in
    (r.state.storage_server_count ≡ 1)
    × (r.state.storage_servers ≡ set start.storage_servers 0 server_a)
    × (r.sent ≡ to_client (codes "Registration Successful") ∷ [])
    × Indexed assoc_index
        (codes "./a")
        (listed 1 server_a.accessible_paths)
        server_a
        (assoc_find (codes "./a") start.servers_by_path)
        (assoc_find (codes "./a") r.state.servers_by_path)
unfolding initialize_naming_server
registration_example = registration assoc_index start server_a (codes "./a") (omega arith)

pub one-Reach : Reach assoc_index start one
one-Reach = next here (registers server_a refl)

Reach-IsSound_example : IsSound assoc_index one
Reach-IsSound_example = Reach-IsSound assoc_index one-Reach

found_known : (o : Option StorageServer) (s : StorageServer) → o ≡ some s → o ≢ none
found_known o s e gone = cc

known_forever_example : assoc_find (codes "./a") three.servers_by_path ≢ none
unfolding handle_storage_server initialize_naming_server assoc_find listed str_eq
known_forever_example =
    known_forever assoc_index (codes "./a") one-Reach
      (next (next here (registers server_a refl)) (registers server_a refl))
      (found_known _ server_a refl)

locate-find_example :
    handle_locate assoc_index one (codes "./a")
    ≡ done (record {
      state = one;
      sent = to_client (locate_reply (assoc_find (codes "./a") one.servers_by_path)) ∷ [];
      alive = true;
    })
locate-find_example = locate-find assoc_index (codes "./a") one-Reach

abbrev pub no_order : List ThreadArgs → List ThreadArgs
no_order tasks = tasks

create_direct-find_example :
    (r : Reaction assoc_index) × (handle_create assoc_index no_order net one
        (codes "CREATE ./b")
        (codes "./b")
      ≡ done r)
    × (r.sent
        ≡ to_server (codes "127.0.0.1") 9001 (codes "CREATE ./b") ∷ to_client (codes "4") ∷ [])
    × (assoc_find (codes "./b") r.state.servers_by_path ≡ some (server_at assoc_index r.state 0))
    × (listed
          (server_at assoc_index r.state 0).num_paths
          (server_at assoc_index r.state 0).accessible_paths
        ≡ listed 1 server_a.accessible_paths ++ codes "./b" ∷ [])
unfolding handle_storage_server initialize_naming_server assoc_find listed str_eq
create_direct-find_example =
    create_direct-find assoc_index no_order net one (codes "CREATE ./b") (codes "./b") (codes "4")
      refl refl (omega arith) (omega arith) (omega arith) refl refl

create_replicated-known_example :
    (r : Reaction assoc_index) × (handle_create assoc_index no_order net three
        (create_request (codes "./b"))
        (codes "./b")
      ≡ done r)
    × (assoc_find (codes "./b") r.state.servers_by_path ≢ none)
    × (assoc_find (backup_path (codes "./Backup0") (codes "./b")) r.state.servers_by_path ≢ none)
    × (assoc_find (backup_path (codes "./Backup1") (codes "./b")) r.state.servers_by_path ≢ none)
unfolding handle_storage_server initialize_naming_server assoc_find listed str_eq
create_replicated-known_example =
    create_replicated-known assoc_index no_order net three (codes "./b") refl
      (refl, (refl, (refl, tt))) (λ e. cc) refl refl (λ t h. h) (λ t h. (codes "4", refl, refl))

delete_keeps_path_example :
    (r : Reaction assoc_index) × (handle_delete assoc_index net none one
        (codes "DELETE ./a")
        (codes "./a")
      ≡ done r)
    × (r.sent
        ≡ to_server (codes "127.0.0.1") 9001 (codes "DELETE ./a") ∷ to_client (codes "4") ∷ [])
    × (assoc_find (codes "./a") r.state.servers_by_path ≡ some server_a)
unfolding handle_storage_server initialize_naming_server assoc_find refresh_server index_of listed
    str_eq
delete_keeps_path_example =
    delete_keeps_path assoc_index net none one (codes "DELETE ./a") (codes "./a") (codes "4")
      server_a server_a 0 refl refl refl refl

-- the source sends one chunk
abbrev pub transfer : Transfer
transfer = record {
  source_connects = true;
  destination_connects = true;
  stream = whole (codes "zip" ∷ []);
}

refusal-shown_example :
    (reply : Bytes) × (handle_copy assoc_index transfer one (codes "./b") (codes "./a")
      ≡ done (record { state = one; sent = to_client reply ∷ []; alive = true }))
    × (message_of copy_lines (atoi reply) ≡ printed (codes "Cannot open file\n") ∷ [])
unfolding handle_storage_server initialize_naming_server assoc_find listed str_eq
refusal-shown_example =
    refusal-shown assoc_index transfer one (codes "./b") (codes "./a") (codes "Cannot open file\n")
      (no_source refl)
