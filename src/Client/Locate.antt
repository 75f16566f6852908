-- ===== src/Client/Locate.antt =====
-- `clientRead`, `clientWrite`, `clientGetSize` (clientfunctions.c): the naming server tells the address
-- of a storage server, and the client asks there.
use nfs_mock.Base.{
  ℕ, ◌-◌, ◌%◌, ◌^◌, true, false, Bool, Option, none, some, List, [], ◌∷◌, ◌++◌, Bytes, codes,
  length, leb, str_eq, c_str, if◌then◌else◌,
}
use nfs_mock.Decimal.{ℤ, pos, negsuc, atoi}
use nfs_mock.Run.{Run, done, fault, ◌>>=◌}
use nfs_mock.Client.Session.{Event, to_storage_server, printed, exited, Peer, after_ack}
use nfs_mock.Client.Tokens.{tokens}

-- `htons(port)`: the `int` is cut to 16 bits
unfoldable pub short_of : ℤ → ℕ
short_of (pos n) = n % 2 ^ 16
short_of (negsuc n) = 65535 - n % 2 ^ 16

unfoldable pub is_one_of : Bytes → List Bytes → Bool
is_one_of s [] = false
is_one_of s (e ∷ errors) = if str_eq s e then true else is_one_of s errors

-- The text of the storage server, `before` it a line when it is no error.
unfoldable pub show_answer : (errors : List Bytes) (before : List Event) → Bytes → List Event
unfolding is_one_of
show_answer errors before answer =
    if is_one_of answer errors
    then printed (codes "The following error was encountered: \n") ∷ printed answer ∷ []
    else before ++ printed answer ∷ []

unfoldable pub after_connect :
    (errors : List Bytes) (before : List Event) (ip : Bytes) (port : ℕ) (request : Bytes)
    → Option Bytes
    → List Event
unfolding show_answer
after_connect errors before ip port request none =
    printed (codes "Error in connection establishment\n") ∷ exited ∷ []
after_connect errors before ip port request (some answer) =
    to_storage_server ip port request ∷ show_answer errors before (c_str answer)

-- The array holds ten tokens, and the first two of them are used.
unfoldable pub ask_storage :
    Peer
    → (errors : List Bytes) (before : List Event) (request : Bytes) → List Bytes
    → Run (List Event)
unfolding after_connect short_of
ask_storage peer errors before request (ip ∷ port ∷ more) =
    let number = short_of (atoi port) in
    if leb (length more) 8
    then done (after_connect errors before ip number request (peer.storage ip number request))
    else fault
ask_storage peer errors before request (ip ∷ []) = fault
ask_storage peer errors before request [] = fault

unfoldable pub on_response :
    Peer → (errors : List Bytes) (before : List Event) (request response : Bytes) → Run (List Event)
unfolding ask_storage
on_response peer errors before request response =
    if str_eq response (codes "File not Found")
    then done (printed (codes "The file doesn't exist\n") ∷ [])
    else ask_storage peer errors before request (tokens response)

abbrev pub read_errors : List Bytes
read_errors = codes "Read error" ∷ codes "No content" ∷ codes "File not Found" ∷ []

unfoldable pub client_read : Peer → Bytes → Run (List Event)
unfolding after_ack on_response
client_read peer request = after_ack peer request (
    on_response peer read_errors (printed (codes "File is read as :\n") ∷ []) request
      (c_str peer.response))

abbrev pub write_errors : List Bytes
write_errors =
    codes "Error opening file for writing" ∷ codes "Write error" ∷ codes "File not Found" ∷ []

unfoldable pub client_write : Peer → Bytes → Run (List Event)
unfolding after_ack on_response
client_write peer request = after_ack peer request (do
  events ← on_response peer write_errors [] request (c_str peer.response)
  done (printed (codes "SEnten\n") ∷ events))

abbrev pub size_errors : List Bytes
size_errors = codes "Error getting file size" ∷ codes "File not Found" ∷ []

unfoldable pub client_get_size : Peer → Bytes → Run (List Event)
unfolding after_ack on_response
client_get_size peer request =
    after_ack peer request (on_response peer size_errors [] request (c_str peer.response))
