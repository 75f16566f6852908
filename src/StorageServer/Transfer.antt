-- ===== src/StorageServer/Transfer.antt =====
-- The COPY branch of `executeNMRequest` (StorageServerModule.c): the source's server sends a file or a
-- directory to another storage server, and tells the naming server how it went.
use nfs_mock.Base.{
  ℕ, Bool, true, false, Option, none, some, List, [], ◌∷◌, Bytes, codes, length, take, starts_with,
  str_eq, if◌then◌else◌,
}
use nfs_mock.Decimal.{decimal}
use nfs_mock.Run.{Run, done, timeout, ◌>>=◌}
use nfs_mock.Paths.{replace_prefix}
use nfs_mock.StorageServer.Paths.{get_directory_path}
use nfs_mock.StorageServer.FileSystem.{FileSystem}
use nfs_mock.StorageServer.Tree.{is_directory, list_directories, list_files}

-- How a `send` to the other server and the `recv` behind it end: either fails, or the string that is in
-- the buffer afterwards.
pub data Reply : Type 0 where
  unsent unheard : Reply
  heard : Bytes → Reply

pub data Connection : Type 0 where
  no_socket refused connected : Connection

-- What has been sent to the other server and to the naming server, and whether the process goes on.
pub record Log : Type 0 where
  pub sent : List Bytes
  pub told : List Bytes
  pub alive : Bool

abbrev pub exits : Run Log
exits = done (record { sent = []; told = []; alive = false })

-- `return NULL` without a word
abbrev pub returns : Run Log
returns = done (record { sent = []; told = []; alive = true })

abbrev pub tells : Bytes → Run Log
tells code = done (record { sent = []; told = code ∷ []; alive = true })

-- the text goes to the other server before the rest
abbrev pub after_sending : Bytes → Run Log → Run Log
after_sending text m = m >>= λ log. done (record log { sent = text ∷ log.sent })

-- Send, receive, and go on with the reply; `lost` is what a failed `send` leads to. A reply that never
-- comes is waited for.
unfoldable pub say :
    (text : Bytes) (lost : Run Log) → List Reply → (Bytes → List Reply → Run Log) → Run Log
say text lost [] go = timeout
say text lost (unsent ∷ replies) go = lost
say text lost (unheard ∷ replies) go = after_sending text exits
say text lost (heard reply ∷ replies) go = after_sending text (go reply replies)

-- `fread` into a buffer of `PATH_MAX` bytes
abbrev pub one_buffer : Option Bytes → Bytes
one_buffer none = []
one_buffer (some content) = take 4096 content

-- The directories, each with the source's parent replaced; each must be answered with OK.
unfoldable pub send_directories :
    (parent path2 : Bytes) → List Bytes → List Reply → (List Reply → Run Log) → Run Log
unfolding say
send_directories parent path2 [] replies go = go replies
send_directories parent path2 (p ∷ paths) replies go =
    say (replace_prefix p parent path2) exits replies λ reply rest.
      if starts_with reply (codes "OK")
      then send_directories parent path2 paths rest go
      else tells (codes "5")

-- The content of a file, when its path has been answered with OK. Of the code "13" one byte is sent.
unfoldable pub send_content : Option (Option Bytes) → List Reply → (List Reply → Run Log) → Run Log
unfolding say
send_content none replies go = tells (codes "1")
send_content (some content) replies go =
    say (one_buffer content) exits replies
      λ reply rest. if starts_with reply (codes "1") then tells (codes "7") else go rest

-- A number of paths, which the other server must send back.
unfoldable pub send_count :
    ℕ → (otherwise : Run Log) → List Reply → (List Reply → Run Log) → Run Log
unfolding say
send_count n otherwise replies go =
    say (decimal n) exits replies
      λ reply rest. if str_eq (decimal n) reply then go rest else otherwise

module _ (fs : FileSystem) where
  open fs use {Disk, read}

  unfoldable pub send_files : (parent path2 : Bytes) → Disk → List Bytes → List Reply → Run Log
  unfolding say send_content
  send_files parent path2 d [] replies = tells (codes "11")
  send_files parent path2 d (p ∷ paths) replies =
      say (replace_prefix p parent path2) exits replies λ reply rest.
        if starts_with reply (codes "OK")
        then send_content (read p d) rest (λ left. send_files parent path2 d paths left)
        else exits

  -- "now we need to send the files"
  unfoldable pub copy_files : (depth : ℕ) (path path2 : Bytes) → Disk → List Reply → Run Log
  unfolding list_files send_count send_files
  copy_files depth path path2 d replies = do
    files ← list_files fs depth d path []
    send_count (length files) (done (record { sent = []; told = codes "6" ∷ []; alive = false }))
        replies (λ rest. send_files (get_directory_path path) path2 d files rest)

  -- "now create the directory in the destination server"
  unfoldable pub copy_directories : (depth : ℕ) (path path2 : Bytes) → Disk → List Reply → Run Log
  unfolding list_directories send_count send_directories copy_files
  copy_directories depth path path2 d replies = do
    directories ← list_directories fs depth d path []
    send_count (length directories) (tells (codes "4")) replies (λ rest.
        send_directories (get_directory_path path) path2 directories rest
          (λ left. copy_files depth path path2 d left))

  unfoldable pub copy_directory :
      (depth : ℕ) (path path2 : Bytes) → Disk → Connection → List Reply → Run Log
  unfolding say copy_directories
  copy_directory depth path path2 d no_socket replies = tells (codes "19")
  copy_directory depth path path2 d refused replies = tells (codes "2")
  copy_directory depth path path2 d connected replies =
      say (codes "1") returns replies λ reply rest.
        if starts_with reply (codes "FOLDER")
        then copy_directories depth path path2 d rest
        else tells (codes "3")

  unfoldable pub copy_content : (path2 content : Bytes) → Connection → List Reply → Run Log
  unfolding say
  copy_content path2 content no_socket replies = returns
  copy_content path2 content refused replies = tells (codes "2")
  copy_content path2 content connected replies = say (codes "0") exits replies λ _ rest.
      say path2 exits rest λ reply rest'.
        if starts_with reply (codes "OK")
        then say content exits rest' (λ _ _. tells (codes "11"))
        else tells (codes "6")

  unfoldable pub copy_file :
      (path2 : Bytes) → Option (Option Bytes) → Connection → List Reply → Run Log
  unfolding copy_content
  copy_file path2 none connection replies = tells (codes "8")
  copy_file path2 (some content) connection replies =
      copy_content path2 (one_buffer content) connection replies

  unfoldable pub copy_path :
      (depth : ℕ) (path path2 : Bytes) → Disk → Connection → List Reply → Run Log
  unfolding is_directory copy_directory copy_file
  copy_path depth path path2 d connection replies =
      if is_directory fs path d
      then copy_directory depth path path2 d connection replies
      else copy_file path2 (read path d) connection replies
