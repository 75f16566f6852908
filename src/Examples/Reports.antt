-- ===== src/Examples/Reports.antt =====
-- The report of a storage server with one file, as bytes.
use nfs_mock.Base.{◌∷◌, replicate, ◌≡◌, refl, [], arith, codes}
use nfs_mock.Checks.{every-Lacks}
use nfs_mock.NamingServer.{StorageServer}
use nfs_mock.NamingServer.Index.{assoc_index}
use nfs_mock.NamingServer.Registration.{handle_storage_server}
use nfs_mock.StorageServer.Memory.{memory}
use nfs_mock.StorageServer.Scan.{accessible_paths}
use nfs_mock.StorageServer.Registration.{initialize_storage_server}
use nfs_mock.Struct.{struct_bytes, receive_storage_server}
use nfs_mock.Protocol.Report.{report_arrives}
use nfs_mock.Examples.Servers.{start, server_a}
use nfs_mock.Examples.Transfers.{one_file, ports}

-- a server with all of the 500 arrays
abbrev full_server : StorageServer
full_server = record server_a { accessible_paths = codes "./a" ∷ replicate 499 [] }

report_arrives_example :
    receive_storage_server assoc_index start []
      (struct_bytes (initialize_storage_server memory 1 ports one_file))
    ≡ handle_storage_server assoc_index start (initialize_storage_server memory 1 ports one_file)
unfolding accessible_paths
report_arrives_example =
    report_arrives assoc_index memory start [] 1 ports one_file
      (omega arith, omega arith, omega arith, omega arith) (omega arith)
      ((every-Lacks 0 (codes ".") refl, omega arith), tt)
