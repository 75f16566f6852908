-- ===== src/Examples/Transfers.antt =====
-- A COPY with its archive on the way, and a CREATE with what arrays held before.
use nfs_mock.Base.{
  Bytes, ◌≡◌, refl, sym, true, some, [], ◌∷◌, ◌++◌, codes, arith, c_str, received_over, drop,
  length, starts_with, str_eq,
}
use mathlib.Core.List.{flatten}
use nfs_mock.Paths.{get_file_name, strrchr}
use nfs_mock.Run.{done}
use nfs_mock.NamingServer.Index.{assoc_index, assoc_find}
use nfs_mock.NamingServer.State.{Reaction, to_client, initialize_naming_server}
use nfs_mock.NamingServer.Registration.{handle_storage_server}
use nfs_mock.NamingServer.Copy.{relay}
use nfs_mock.StorageServer.Memory.{MemoryDisk, memory, memory_shell, look, file_of}
use nfs_mock.StorageServer.Transfer.{heard, connected, copy_path}
use nfs_mock.StorageServer.Tree.{list_directories, list_files}
use nfs_mock.StorageServer.Copied.{messages_of, copied-whole}
use nfs_mock.StorageServer.Archive.{zip_path, stored, store_archive}
use nfs_mock.StorageServer.Registration.{Ports}
use nfs_mock.Checks.{every-Lacks}
use nfs_mock.Protocol.Archive.{sent-archive, started_request, archive_arrives, archive_merged}
use nfs_mock.StorageServer.Listeners.{request_text}
use nfs_mock.StorageServer.Transfer.{refused}
use nfs_mock.StorageServer.Requests.{Peers}
use nfs_mock.StorageServer.Folders.{execute_create}
use nfs_mock.NamingServer.{listed}
use nfs_mock.NamingServer.State.{to_server}
use nfs_mock.NamingServer.Tasks.{server_at}
use nfs_mock.NamingServer.Create.{handle_create}
use nfs_mock.Examples.Servers.{no_order}
use nfs_mock.Protocol.Created.{net_of, created_whatever}
use nfs_mock.Examples.Servers.{one}

-- a disk with one file
abbrev pub one_file : MemoryDisk
one_file = (codes "./a", some (codes "hello")) ∷ []

-- an array that held another text, with a zero behind ten bytes
abbrev uncleared : Bytes
uncleared = codes "CREATE ./a" ++ 0 ∷ codes "/c" ++ 0 ∷ []

copied-whole_example :
    codes "0" ∷ codes "./b" ∷ codes "hello" ∷ []
    ≡ messages_of memory (codes "./a") (codes "./b") one_file (codes "./a" ∷ []) []
unfolding list_directories list_files copy_path file_of look str_eq starts_with
copied-whole_example =
    copied-whole memory 1 (codes "./a") (codes "./b") one_file (codes "./a" ∷ []) [] connected
      (heard [] ∷ heard (codes "OK") ∷ heard [] ∷ [])
      (record {
        sent = codes "0" ∷ codes "./b" ∷ codes "hello" ∷ [];
        told = codes "11" ∷ [];
        alive = true;
      })
      refl refl refl refl

-- a disk with an archive
abbrev packed : MemoryDisk
packed = (codes "./a.zip", some (codes "PK")) ∷ []

packed_there : file_of (look (zip_path (codes "./a")) packed) ≡ some (some (codes "PK"))
unfolding zip_path get_file_name strrchr file_of look str_eq
packed_there = refl

archive_merged_example :
    (started_request 4 uncleared (codes "./bP") ≡ codes "./b" ++ codes "P")
    × (codes "P" ++ codes "K" ≡ codes "PK")
unfolding request_text received_over c_str stored file_of look str_eq flatten relay store_archive
archive_merged_example =
    archive_merged memory memory_shell (codes "./a") (codes "./b") (codes "PK") (codes "K")
      uncleared (codes "P") (codes "PK" ∷ []) (codes "K" ∷ []) 4 packed []
      ((codes "./bP1.zip", some (codes "K")) ∷ []) refl packed_there
      (sym (sent-archive memory memory_shell (codes "./a") (codes "PK") packed refl packed_there))
      refl (every-Lacks 0 (codes "./bP") refl) (omega arith) refl refl refl

archive_arrives_example :
    (started_request 4 uncleared (codes "./b") ≡ codes "./b") × (codes "PK" ≡ codes "PK")
unfolding request_text received_over c_str stored file_of look str_eq flatten relay store_archive
archive_arrives_example =
    archive_arrives memory memory_shell (codes "./a") (codes "./b") (codes "PK") (codes "PK")
      uncleared (codes "./b") (codes "PK" ∷ []) (codes "P" ∷ codes "K" ∷ []) 4 packed []
      ((codes "./b1.zip", some (codes "PK")) ∷ []) refl packed_there
      (sym (sent-archive memory memory_shell (codes "./a") (codes "PK") packed refl packed_there))
      refl refl (every-Lacks 0 (codes "./b") refl) (omega arith) refl refl refl

abbrev pub ports : Ports
ports = record { nm_port = 9101; client_port = 9102; ss_port_send = 9103; ss_port_recv = 9104 }

abbrev alone : Peers
alone = record { naming_server = []; connect = λ ip port. refused; destination = [] }

created_whatever_example :
    (reply : Bytes) × (d' : MemoryDisk) × (r : Reaction assoc_index) × (execute_create memory
        (codes "./b")
        one_file
      ≡ done (reply, d'))
    × (handle_create assoc_index no_order
          (net_of memory 1 alone one_file 4 uncleared uncleared)
          one
          (codes "CREATE ./b")
          (codes "./b")
        ≡ done r)
    × (r.sent
        ≡ to_server (codes "127.0.0.1") 9001 (codes "CREATE ./b")
          ∷ to_client (c_str (reply ++ drop (length reply) uncleared))
          ∷ [])
    × (assoc_find (codes "./b") r.state.servers_by_path ≡ some (server_at assoc_index r.state 0))
unfolding handle_storage_server initialize_naming_server assoc_find listed str_eq
created_whatever_example =
    created_whatever memory assoc_index no_order one 1 alone one_file 4 (codes "./b") uncleared
      (codes "/c" ++ 0 ∷ []) uncleared refl refl (omega arith) (omega arith) (omega arith)
      (refl, (refl, (refl, tt))) (every-Lacks 0 (codes "./b") refl) refl
