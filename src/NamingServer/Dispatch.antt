-- ===== src/NamingServer/Dispatch.antt =====
-- `handleClientInput` (NamingServerModule.c): one received request of a client's connection.
use nfs_mock.Base.{
  ℕ, true, ◌||◌, List, [], ◌∷◌, Bytes, codes, starts_with, c_str, take, if◌then◌else◌,
}
use nfs_mock.Run.{Run, done, ◌>>=◌}
use nfs_mock.Whitespace.{strip}
use nfs_mock.Paths.{extract_path, extract_path_third}
use nfs_mock.NamingServer.Index.{PathIndex}
use nfs_mock.NamingServer.State.{State, Reaction, to_client, Net}
use nfs_mock.NamingServer.Listing.{list_all}
use nfs_mock.NamingServer.Tasks.{ThreadArgs}
use nfs_mock.NamingServer.Locate.{handle_locate}
use nfs_mock.NamingServer.Create.{handle_create}
use nfs_mock.NamingServer.Delete.{Replies, handle_delete}
use nfs_mock.NamingServer.Copy.{Transfer, handle_copy}

-- What is outside the naming server during one request: what the network answers, the order in which
-- the threads of a CREATE finish, the paths that a server reports, and the stream of a COPY.
pub record World : Type 0 where
  pub net : Net
  pub order : List ThreadArgs → List ThreadArgs
  pub replies : Replies
  pub transfer : Transfer

abbrev pub buffer_size : ℕ
buffer_size = 1024

-- `extractPath(buffer_copy, path, sizeof(path))`, into a cleared buffer
abbrev pub path_of : Bytes → Bytes
path_of request = extract_path request [] buffer_size

abbrev pub path_third_of : Bytes → Bytes
path_third_of request = extract_path_third request [] buffer_size

-- The branches of the chain of tests on the first letters of the request.
pub data Command : Type 0 where
  locate create delete copy listing unknown : Command

unfoldable pub command_of : Bytes → Command
command_of request =
    if starts_with request (codes "READ")
      || (starts_with request (codes "WRITE") || starts_with request (codes "GETSIZE"))
    then locate
    else if starts_with request (codes "CREATE")
    then create
    else if starts_with request (codes "DELETE")
    then delete
    else if starts_with request (codes "COPY")
    then copy
    else if starts_with request (codes "LISTALL")
    then listing
    else unknown

module _ (ix : PathIndex) where
  -- Any other request has no answer.
  unfoldable pub dispatch : World → State ix → Bytes → Command → Run (Reaction ix)
  unfolding handle_locate handle_create handle_delete handle_copy
  dispatch w st request locate = handle_locate ix st (path_of request)
  dispatch w st request create = handle_create ix w.order w.net st request (path_of request)
  dispatch w st request delete = handle_delete ix w.net w.replies st request (path_of request)
  dispatch w st request copy =
      handle_copy ix w.transfer st (path_of request) (path_third_of request)
  dispatch w st request listing = done (record {
    state = st;
    sent = to_client (list_all (take st.storage_server_count st.storage_servers)) ∷ [];
    alive = true;
  })
  dispatch w st request unknown = done (record { state = st; sent = []; alive = true })

  -- The received bytes stand in a cleared buffer; every request is acknowledged first.
  unfoldable pub handle_client_input : World → State ix → (buffer : Bytes) → Run (Reaction ix)
  unfolding dispatch command_of
  handle_client_input w st buffer = do
    let request = c_str (strip buffer)
    r ← dispatch w st request (command_of request)
    done (record r { sent = to_client (codes "ACK") ∷ r.sent })
