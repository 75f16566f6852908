-- ===== src/Examples/Sessions.antt =====
-- A client, the naming server with one path, and a storage server with a disk in memory.
use nfs_mock.Base.{◌≡◌, refl, none, some, [], ◌∷◌, codes, arith, take, ◌==◌, str_eq, if◌then◌else◌}
use nfs_mock.Checks.{every-Lacks, every-not-All}
use nfs_mock.Run.{done}
use nfs_mock.NamingServer.Index.{assoc_index, assoc_find}
use nfs_mock.NamingServer.State.{initialize_naming_server}
use nfs_mock.NamingServer.{listed}
use nfs_mock.NamingServer.Registration.{handle_storage_server}
use nfs_mock.NamingServer.Dispatch.{World}
use nfs_mock.Client.Session.{to_naming_server, to_storage_server, printed}
use nfs_mock.Client.Locate.{is_one_of}
use nfs_mock.StorageServer.Memory.{memory, look, file_of}
use nfs_mock.StorageServer.Words.{read_request, write_request}
use nfs_mock.Protocol.Requests.{typed}
use nfs_mock.Protocol.System.{Disks, session}
use nfs_mock.Protocol.WriteThenRead.{written, write_then_read}
use nfs_mock.Examples.Servers.{server_a, one, net, no_order, one-Reach, transfer}

abbrev pub world : World
world = record { net = net; order = no_order; replies = none; transfer = transfer }

-- one storage server listens
abbrev one_disk : Disks memory
one_disk ip port = if str_eq ip (codes "127.0.0.1") then some [] else none

write_then_read_example :
    (disks' disks'' : Disks memory) × (session memory assoc_index 1 0 world
        (typed (write_request (codes "./a") (codes "hello")) [])
        (one, one_disk)
      ≡ done (
        to_naming_server (write_request (codes "./a") (codes "hello"))
            ∷ printed (codes "SEnten\n")
            ∷ to_storage_server
                (codes "127.0.0.1")
                9002
                (write_request (codes "./a") (codes "hello"))
            ∷ printed (written (codes "./a") (codes "hello"))
            ∷ [],
        (one, disks'),
      ))
    × (session memory assoc_index 1 0 world (typed (read_request (codes "./a")) []) (one, disks')
        ≡ done (
          to_naming_server (read_request (codes "./a"))
              ∷ to_storage_server (codes "127.0.0.1") 9002 (read_request (codes "./a"))
              ∷ printed (codes "File is read as :\n")
              ∷ printed (take 4095 (codes "hello"))
              ∷ [],
          (one, disks''),
        ))
unfolding look file_of str_eq is_one_of initialize_naming_server handle_storage_server assoc_find
    listed
write_then_read_example =
    write_then_read assoc_index memory world world one one_disk 1 0 [] (codes "./a") (codes "hello")
      (codes "hello") server_a [] ((codes "./a", some (codes "hello")) ∷ []) one-Reach refl
      (
        (every-not-All (λ c. c == b' ') (codes "127.0.0.1") refl, (λ e. cc), omega arith),
        every-Lacks 0 (codes "127.0.0.1") refl,
      )
      refl ((refl, (refl, (refl, tt))), every-Lacks 0 (codes "./a") refl, omega arith)
      (refl, (refl, (refl, (refl, (refl, (refl, tt)))))) refl (every-Lacks 0 (codes "hello") refl)
      refl refl refl (omega arith)
