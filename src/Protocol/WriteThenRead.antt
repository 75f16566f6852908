-- ===== src/Protocol/WriteThenRead.antt =====
-- A WRITE and then a READ of the same file, through the client, the naming server and a storage server
-- (clientfunctions.c, NamingServerModule.c, StorageServerModule.c).
use nfs_mock.Base.{
  ℕ, ◌≤◌, ◌≡◌, refl, ◌∙◌, true, false, some, [], ◌∷◌, ◌++◌, arith, Bytes, codes, length, take,
  All-append, All-take, Lacks, str_eq, starts_with,
}
use nfs_mock.Decimal.{decimal, decimal-IsDigits}
use nfs_mock.Run.{done}
use nfs_mock.Whitespace.Edges.{EndsSolid}
use nfs_mock.Whitespace.Collapse.{collapse}
use nfs_mock.NamingServer.{StorageServer}
use nfs_mock.NamingServer.Index.{PathIndex}
use nfs_mock.NamingServer.State.{State, initialize_naming_server}
use nfs_mock.NamingServer.Dispatch
use nfs_mock.NamingServer.Dispatch.{World, locate, path_of, dispatch, handle_client_input}
use nfs_mock.NamingServer.Reachable.{Reach}
use nfs_mock.Client.Session.{to_naming_server, to_storage_server, printed}
use nfs_mock.Client.Locate.{is_one_of, read_errors, write_errors}
use nfs_mock.Client.Commands
use nfs_mock.Client.Commands.{read, write, run_command, client_round}
use nfs_mock.StorageServer.FileSystem.{FileSystem}
use nfs_mock.StorageServer.Words.{IsContent, read_request, write_request}
use nfs_mock.StorageServer.Answers.{write-read}
use nfs_mock.Protocol.Requests.{
  typed, server_request, collapse-read, collapse-write, IsPath, path_of-read, path_of-write,
  read-IsTrimmed, write-IsTrimmed,
}
use nfs_mock.Protocol.System.{Disks, session}
use nfs_mock.Protocol.Rounds.{IsHost, digits-Lacks, read_round, write_round}
use nfs_mock.Checks.{every-Lacks}

read-Lacks : (path : Bytes) → Lacks 0 path → Lacks 0 (read_request path)
read-Lacks path h = (omega arith, (omega arith, (omega arith, (omega arith, (omega arith, h)))))

request-Lacks :
    (path content : Bytes) → Lacks 0 path → Lacks 0 content → Lacks 0 (write_request path content)
request-Lacks path content h k = (
  omega arith,
  (
    omega arith,
    (
      omega arith,
      (
        omega arith,
        (omega arith, (omega arith, All-append _ path (b' ' ∷ content) h (omega arith, k))),
      ),
    ),
  ),
)

-- what a WRITE is answered
abbrev pub written : (path content : Bytes) → Bytes
written path content =
    take 1023 (codes "Written " ++ (decimal (length content) ++ (codes " bytes to " ++ path)))

written-Lacks : (path content : Bytes) → Lacks 0 path → Lacks 0 (written path content)
written-Lacks path content h =
    All-take _ 1023 (codes "Written " ++ (decimal (length content) ++ (codes " bytes to " ++ path)))
      (All-append _ (codes "Written ") _ (every-Lacks 0 (codes "Written ") refl) (
        All-append _ (decimal (length content)) _
          (digits-Lacks _ (decimal-IsDigits (length content)))
          (All-append _ (codes " bytes to ") path (every-Lacks 0 (codes " bytes to ") refl) h)))

written-is_no_error : (path content : Bytes) → is_one_of (written path content) write_errors ≡ false
unfolding is_one_of str_eq
written-is_no_error path content = refl

module _ (ix : PathIndex) (fs : FileSystem) where
  open ix use {find}
  open fs use {Disk}

  -- A client writes a text on one line to a path that has a server, which it can reach and on whose
  -- disk the WRITE goes through; in a later round, with nothing in between, a client reads the
  -- path, and the file can be read. The naming server is in any state that it can reach, and stays
  -- in it; both acknowledgements come within three seconds. The first round shows what the storage
  -- server has written, the second the text, cut to what the storage server's buffer holds, if it
  -- is not one of the client's error texts.
  pub write_then_read :
      (w w' : World) (st : State ix) (disks : Disks fs) (seconds rounds : ℕ)
      (pad path content c : Bytes) (s : StorageServer) (d d' : Disk)
      → Reach ix (initialize_naming_server ix) st
      → find path st.servers_by_path ≡ some s
      → IsHost s
      → disks s.ip_address s.client_port ≡ some d
      → IsPath path
      → IsContent content
      → EndsSolid content
      → Lacks 0 content
      → fs.write path content d ≡ some (true, d')
      → fs.read path d' ≡ some (some c)
      → is_one_of (take 4095 content) read_errors ≡ false
      → seconds ≤ 3
      → (disks' disks'' : Disks fs) × (session fs ix seconds rounds w
            (typed (write_request path content) pad)
            (st, disks)
          ≡ done (
            to_naming_server (write_request path content)
                ∷ printed (codes "SEnten\n")
                ∷ to_storage_server s.ip_address s.client_port (write_request path content)
                ∷ printed (written path content)
                ∷ [],
            (st, disks'),
          ))
        × (session fs ix seconds rounds w' (typed (read_request path) pad) (st, disks')
            ≡ done (
              to_naming_server (read_request path)
                  ∷ to_storage_server s.ip_address s.client_port (read_request path)
                  ∷ printed (codes "File is read as :\n")
                  ∷ printed (take 4095 content)
                  ∷ [],
              (st, disks''),
            ))
  unfolding Dispatch.command_of Commands.command_of starts_with
  write_then_read w w' st disks seconds rounds pad path content c s d d' r known host listens named
        text ends lack wrote got no_error in_time =
      let (word, path_lack, _) = named in
      let (put, gotten) = write-read fs path content c d d' word text wrote got in
      let trimmed = write-IsTrimmed path content ends in
      let plain = request-Lacks path content path_lack lack in
      let (disks', first, there) =
        write_round ix fs w st disks seconds rounds (write_request path content) pad path
          (written path content) s d d' r known host listens put
          (written-Lacks path content path_lack) in_time trimmed plain
          (codes "WRITE " ++ (path ++ b' ' ∷ collapse true content))
          (server_request _ trimmed plain ∙ collapse-write path content word) refl refl
          (path_of-write path (collapse true content) named) (written-is_no_error path content) in
      let second =
        read_round ix fs w' st disks' seconds rounds (read_request path) pad path
          (take 4095 content) s d' d' r known host there gotten (All-take _ 4095 content lack)
          in_time (read-IsTrimmed path word) (read-Lacks path path_lack)
          (server_request _ (read-IsTrimmed path word) (read-Lacks path path_lack)
            ∙ collapse-read path word)
          refl refl (path_of-read path named) no_error in
      (disks', _, first, second)
