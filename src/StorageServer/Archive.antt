-- ===== src/StorageServer/Archive.antt =====
-- The two ends of a COPY that goes through the naming server (StorageServerModule.c:
-- `executeSSRequest`, `executeSSRequestRecv`): the source packs the path and sends the archive, the
-- destination stores what arrives and unpacks it.
use nfs_mock.Base.{
  ℕ, zero, suc, ◌≡◌, Bool, true, false, Option, none, some, List, [], ◌∷◌, ◌++◌, Bytes, codes,
  length, take, drop, ltb, ◌==◌, if◌then◌else◌,
}
use nfs_mock.Paths.{strrchr, get_file_name}
use nfs_mock.NamingServer.Copy.{Received, chunk, closed, failed}
use nfs_mock.StorageServer.FileSystem.{FileSystem}

-- The calls besides those of a file system: `system`, with the exit status of the command, and an
-- `open` with `O_WRONLY | O_CREAT` and the writes behind it, which put bytes over the front of what
-- is there.
pub record Shell (fs : FileSystem) : Type 0 where
  pub system : Bytes → fs.Disk → ℕ × fs.Disk
  pub overwrite : Bytes → Bytes → fs.Disk → Option fs.Disk
  pub read-overwrite_new :
      (path content c : Bytes) (d d' : fs.Disk)
      → fs.read path d ≡ none
      → overwrite path content d ≡ some d'
      → fs.read path d' ≡ some (some c)
      → c ≡ content

-- a byte in front of a text whose trailing slashes are gone
unfoldable pub before_trimmed : ℕ → Bytes → Bytes
before_trimmed c [] = if c == b'/' then [] else c ∷ []
before_trimmed c (b ∷ s) = c ∷ b ∷ s

unfoldable pub trim_slashes : Bytes → Bytes
unfolding before_trimmed
trim_slashes [] = []
trim_slashes (c ∷ s) = before_trimmed c (trim_slashes s)

-- `basename` and `dirname` of libgen.h; `whole` is the path, and then it is without its trailing
-- slashes
unfoldable pub base_of : (whole trimmed : Bytes) → Bytes
base_of [] trimmed = codes "."
base_of (c ∷ s) [] = codes "/"
base_of (c ∷ s) (b ∷ t) = get_file_name (b ∷ t)

unfoldable pub basename : Bytes → Bytes
unfolding base_of trim_slashes
basename path = base_of path (trim_slashes path)

unfoldable pub or_root : Bytes → Bytes
or_root [] = codes "/"
or_root (c ∷ s) = c ∷ s

unfoldable pub parent_of : (whole trimmed : Bytes) → Option ℕ → Bytes
unfolding trim_slashes or_root
parent_of [] trimmed slash = codes "."
parent_of (c ∷ s) [] slash = codes "/"
parent_of (c ∷ s) (b ∷ t) none = codes "."
parent_of (c ∷ s) (b ∷ t) (some i) = or_root (trim_slashes (take i (b ∷ t)))

unfoldable pub dirname : Bytes → Bytes
unfolding parent_of trim_slashes
dirname path = parent_of path (trim_slashes path) (strrchr (trim_slashes path) b'/')

-- `snprintf` into `PATH_MAX` and into `PATH_MAX + 50` bytes
abbrev pub path_text : Bytes → Bytes
path_text s = take 4095 s

abbrev pub command_text : Bytes → Bytes
command_text s = take 4145 s

unfoldable pub zip_command : (parent zip target : Bytes) → Bytes
zip_command parent zip target = command_text (
    codes "cd '"
    ++ (parent
        ++ (codes "' && zip -r '"
            ++ (zip ++ (codes "' '" ++ (target ++ codes "' > /dev/null 2>&1"))))))

unfoldable pub zip_path : Bytes → Bytes
unfolding dirname basename
zip_path path = path_text (dirname path ++ b'/' ∷ (basename path ++ codes ".zip"))

-- The pieces that `fread` yields into a buffer of this size, for so many calls.
unfoldable pub blocks : (size calls : ℕ) → Bytes → List Bytes
blocks size zero s = []
blocks size (suc calls) [] = []
blocks size (suc calls) (c ∷ s) = take size (c ∷ s) ∷ blocks size calls (drop size (c ∷ s))

-- The sends go on until one fails; behind the outcomes that are given all succeed.
unfoldable pub sent_until_failed : List Bool → List Bytes → List Bytes
sent_until_failed outcomes [] = []
sent_until_failed [] (b ∷ pieces) = b ∷ pieces
sent_until_failed (true ∷ outcomes) (b ∷ pieces) = b ∷ sent_until_failed outcomes pieces
sent_until_failed (false ∷ outcomes) (b ∷ pieces) = []

-- The loop of the destination: what each `recv` yields, with the number of bytes that `write` puts
-- into the file. The pieces that are in the file afterwards.
unfoldable pub stored : List (Received × ℕ) → Bytes
stored [] = []
stored ((chunk b, written) ∷ rest) =
    let more = stored rest in if ltb written (length b) then take written b else b ++ more
stored ((closed, written) ∷ rest) = []
stored ((failed, written) ∷ rest) = []

module _ (fs : FileSystem) (shell : Shell fs) where
  open fs use {Disk, read}
  open shell use {system, overwrite}

  -- the value of the thread, what it has sent, and the disk
  pub record Packed : Type 0 where
    pub status : ℕ
    pub sent : List Bytes
    pub disk : Disk

  -- "Read from file and send to NM", and the archive is deleted. A stream that cannot be read has
  -- no bytes.
  unfoldable pub send_archive : (zip : Bytes) → List Bool → Option (Option Bytes) → Disk → Packed
  unfolding blocks sent_until_failed
  send_archive zip outcomes none d = record { status = 1; sent = []; disk = d }
  send_archive zip outcomes (some none) d =
      let (status, d') = system (command_text (codes "rm '" ++ (zip ++ codes "'"))) d in
      record { status = if status == 0 then 0 else 3; sent = []; disk = d' }
  send_archive zip outcomes (some (some content)) d =
      let (status, d') = system (command_text (codes "rm '" ++ (zip ++ codes "'"))) d in
      record {
        status = if status == 0 then 0 else 3;
        sent = sent_until_failed outcomes (blocks 4096 (length content) content);
        disk = d';
      }

  unfoldable pub execute_ss_request : (path : Bytes) → List Bool → Disk → Packed
  unfolding zip_command zip_path send_archive dirname basename
  execute_ss_request path outcomes d =
      let (status, d') =
        system
          (zip_command (dirname path) (path_text (basename path ++ codes ".zip")) (basename path))
          d in
      if status == 0
      then send_archive (zip_path path) outcomes (read (zip_path path) d') d'
      else record { status = 2; sent = []; disk = d' }

  abbrev pub received_path : Bytes → Bytes
  received_path path = path ++ codes "1.zip"

  unfoldable pub unzip_command : Bytes → Bytes
  unzip_command path = command_text (
      codes "unzip '"
      ++ (received_path path
          ++ (codes "' -d '"
              ++ (path_text path ++ (codes "' ; rm '" ++ (received_path path ++ codes "'"))))))

  -- The archive is stored. The test of `bytesReceived` behind the loop decides only about a printed
  -- line.
  unfoldable pub store_archive : (path : Bytes) → List (Received × ℕ) → Disk → Option Disk
  unfolding stored
  store_archive path received d = overwrite (received_path path) (stored received) d

  unfoldable pub unpack : (path : Bytes) → Option Disk → Disk → Disk
  unfolding unzip_command
  unpack path none d = d
  unpack path (some d') d = (system (unzip_command path) d').1

  unfoldable pub execute_ss_request_recv : (path : Bytes) → List (Received × ℕ) → Disk → Disk
  unfolding store_archive unpack
  execute_ss_request_recv path received d = unpack path (store_archive path received d) d
