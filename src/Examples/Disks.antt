-- ===== src/Examples/Disks.antt =====
-- A storage server on a disk in memory.
use nfs_mock.Base.{◌≡◌, refl, true, some, List, [], ◌∷◌, ◌++◌, map, arith, Bytes, codes}
use nfs_mock.Run.{done}
use nfs_mock.NamingServer.{StorageServer, listed}
use nfs_mock.NamingServer.Delete.{refresh_server}
use nfs_mock.Decimal.{decimal}
use nfs_mock.Client.Session.{printed}
use nfs_mock.Client.Locate.{show_answer, read_errors}
use nfs_mock.StorageServer.Memory.{MemoryDisk, memory, look, file_of, is_there, make_folder}
use nfs_mock.StorageServer.Folders.{mkdir_p}
use nfs_mock.StorageServer.MadeFolders.{mkdir_p-exists}
use nfs_mock.StorageServer.Files.{execute_client_request}
use nfs_mock.StorageServer.Words.{read_request}
use nfs_mock.StorageServer.Answers.{unopened-shown}
use nfs_mock.Protocol.PathList.{IsExchange, paths_round_trip}
use nfs_mock.Examples.Servers.{server_a}

abbrev blank : MemoryDisk
blank = []

mkdir_p-exists_example :
    (is_there (codes "a/b") (mkdir_p memory (codes "a" ++ b'/' ∷ codes "b") blank).1 ≡ true)
    × (is_there (codes "a") (mkdir_p memory (codes "a" ++ b'/' ∷ codes "b") blank).1 ≡ true)
unfolding mkdir_p make_folder
mkdir_p-exists_example = mkdir_p-exists memory (codes "a") (codes "b") blank refl

unopened-shown_example :
    (reply : Bytes) × ((execute_client_request memory (read_request (codes "./a")) blank).0
      ≡ some reply)
    × (show_answer read_errors [] reply ≡ [] ++ printed reply ∷ [])
unfolding look file_of
unopened-shown_example =
    unopened-shown memory (codes "./a") blank [] (refl, (refl, (refl, tt))) refl

abbrev two_paths : List Bytes
two_paths = codes "./src" ∷ codes "./src/a" ∷ []

paths_round_trip_example :
    let all = codes "2" ∷ codes "OK" ∷ two_paths in
    IsExchange two_paths (codes "1" ++ 0 ∷ []) all
    × ((sent : List Bytes) → IsExchange two_paths (codes "1" ++ 0 ∷ []) sent → sent ≡ all)
    × (t : StorageServer) × (refresh_server server_a (some (codes "1" ++ 0 ∷ [], map some all))
        ≡ done t)
    × (t.num_paths ≡ 2)
    × (listed t.num_paths t.accessible_paths ≡ two_paths)
unfolding decimal
paths_round_trip_example =
    paths_round_trip two_paths (codes "1" ++ 0 ∷ []) [] server_a refl (omega arith)
