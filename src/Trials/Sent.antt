-- ===== src/Trials/Sent.antt =====
-- What the client of temp_client.c sends, and what the server of temp.c sends back.
use nfs_mock.Base.{
  ℕ, ◌≡◌, refl, ap, true, some, List, [], ◌∷◌, ◌++◌, arith, Bytes, All, length, map,
}
use nfs_mock.NamingServer.Copy.{Received, chunk, closed}
use nfs_mock.Protocol.Archive.{flatten-blocks, FitsInto, blocks-FitsInto}
use mathlib.Core.List.{flatten}
use nfs_mock.StorageServer.Archive.{blocks}
use nfs_mock.Sockets.{going}
use nfs_mock.Trials.{handle_client, send_file}

echoed :
    (pieces : List Bytes) (rest : List Received)
    → handle_client (map chunk pieces ++ closed ∷ rest) ≡ pieces
unfolding handle_client
echoed [] rest = refl
echoed (p ∷ pieces) rest = ap (λ l. p ∷ l) (echoed pieces rest)

-- A file that is sent goes out in pieces of 1 to 1024 bytes that are the file, byte for byte; and a
-- server that echoes sends back any pieces that reach it until the connection is closed.
pub send_file-echoed :
    (fd : ℕ) (file : Bytes) (arrived : List Bytes) (rest : List Received)
    → (pieces : List Bytes) × (send_file (some fd) true (some file) ≡ going pieces)
      × (flatten pieces ≡ file)
      × All (FitsInto 1024) pieces
      × (handle_client (map chunk arrived ++ closed ∷ rest) ≡ arrived)
unfolding send_file
send_file-echoed fd file arrived rest = (
  blocks 1024 (length file) file,
  refl,
  flatten-blocks 1024 (length file) file (omega arith) (omega arith),
  blocks-FitsInto 1024 (length file) file (omega arith),
  echoed arrived rest,
)
