-- ===== src/Client/Replies.antt =====
-- `clientCreate`, `clientDelete`, `clientCopy` (clientfunctions.c): the answer is a number, and each
-- function has a line for some of the numbers.
use nfs_mock.Base.{ℕ, ◌+◌, ◌==◌, if◌then◌else◌, List, [], ◌∷◌, ◌++◌, Bytes, codes, c_str}
use nfs_mock.Decimal.{ℤ, pos, negsuc, atoi, decimal}
use nfs_mock.Run.{Run, done}
use nfs_mock.Client.Session.{Event, printed, Peer, after_ack}

-- `%d`
unfoldable pub print_int : ℤ → Bytes
print_int (pos n) = decimal n
print_int (negsuc n) = b'-' ∷ decimal (1 + n)

-- The line of a number; a number without a line is met with silence.
unfoldable pub message_of : List (ℕ × Bytes) → ℤ → List Event
message_of [] code = []
message_of (line ∷ lines) (negsuc n) = []
message_of (line ∷ lines) (pos n) =
    if n == line.0 then printed line.1 ∷ [] else message_of lines (pos n)

abbrev pub create_lines : List (ℕ × Bytes)
create_lines =
    (1, codes "Directory created\n")
    ∷ (2, codes "Error creating directory\n")
    ∷ (3, codes "Error creating file\n")
    ∷ (4, codes "File created\n")
    ∷ []

abbrev pub delete_lines : List (ℕ × Bytes)
delete_lines =
    (1, codes "Error deleting directory\n")
    ∷ (2, codes "Directory deleted\n")
    ∷ (3, codes "File deleted\n")
    ∷ (4, codes "Error deleting file\n")
    ∷ (5, codes "File not Found\n")
    ∷ []

abbrev pub copy_lines : List (ℕ × Bytes)
copy_lines =
    (2, codes "No such folder in destination\n")
    ∷ (3, codes "Error in Identifying FOLDER \n")
    ∷ (4, codes "Error in copying the directory \n")
    ∷ (5, codes "folder conflict \n")
    ∷ (6, codes "Error in copying the file \n")
    ∷ (7, codes "Error in copying the file\n")
    ∷ (8, codes "Cannot open file\n")
    ∷ (11, codes "Successfully done\n")
    ∷ (13, codes "Error in opening the file in directory \n")
    ∷ []

unfoldable pub client_create : Peer → Bytes → Run (List Event)
unfolding after_ack message_of
client_create peer request =
    after_ack peer request (done (message_of create_lines (atoi (c_str peer.response))))

unfoldable pub client_delete : Peer → Bytes → Run (List Event)
unfolding after_ack message_of
client_delete peer request =
    after_ack peer request (done (message_of delete_lines (atoi (c_str peer.response))))

unfoldable pub client_copy : Peer → Bytes → Run (List Event)
unfolding after_ack message_of print_int
client_copy peer request =
    let index_case = atoi (c_str peer.response) in
    after_ack peer request (
      done (
        printed (codes "index_case = " ++ print_int index_case ++ codes "\n")
        ∷ message_of copy_lines index_case))
