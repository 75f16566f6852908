-- ===== src/StorageServer/Paths.antt =====
-- `getDirectoryPath` (StorageServerModule.c), by which a COPY finds the folder that it moves things out of: the
-- text is the naming server's.
use nfs_mock.Base.{Bytes}
use nfs_mock.Paths

unfoldable pub get_directory_path : Bytes → Bytes
get_directory_path = Paths.get_directory_path
