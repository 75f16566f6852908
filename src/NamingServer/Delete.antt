-- ===== src/NamingServer/Delete.antt =====
-- The DELETE branch of `handleClientInput`, and `update_list_of_accessiblepaths`, which it calls
-- (NamingServerModule.c).
use nfs_mock.Base.{
  ℕ, zero, suc, true, false, ◌&&◌, Option, none, some, List, [], ◌∷◌, Bytes, codes, ◌==◌, str_eq,
  set, take, drop, c_str, received_over, replicate, length, if◌then◌else◌,
}
use nfs_mock.Decimal.{ℤ, pos, negsuc, atoi}
use nfs_mock.Run.{Run, done, fault, ◌>>=◌}
use nfs_mock.NamingServer.{StorageServer}
use nfs_mock.NamingServer.Index.{PathIndex}
use nfs_mock.NamingServer.State.{
  State, Reaction, to_client, to_server, Outcome, refused, unsent, answered, Net,
}
use nfs_mock.NamingServer.Tasks.{server_at}

-- A connection to a storage server that is asked for its paths: none, or what the array
-- `server_reply` held on the stack, and what the successive calls of `recv` yield, with `none` for
-- one that fails, until the peer closes.
abbrev pub Replies : Type 0
Replies = Option (Bytes × List (Option Bytes))

-- A negative count lists as many paths as 0, which is what is kept of it.
abbrev pub as_count : ℤ → ℕ
as_count (pos n) = n
as_count (negsuc n) = 0

-- `for(int i = 0; i < numPaths; i++)`: the paths that arrive go into the slots from `i` on.
unfoldable pub receive_paths : ℕ → ℕ → List (Option Bytes) → List Bytes → List Bytes
receive_paths zero i replies paths = paths
receive_paths (suc left) i [] paths = paths
receive_paths (suc left) i (none ∷ replies) paths = paths
receive_paths (suc left) i (some p ∷ replies) paths =
    receive_paths left (suc i) replies (set paths i p)

-- After the count, the server must say OK.
unfoldable pub receive_list : StorageServer → ℕ → List (Option Bytes) → StorageServer
unfolding receive_paths
receive_list s count (some ok ∷ replies) =
    if str_eq ok (codes "OK")
    then record s {
      num_paths = count;
      accessible_paths = receive_paths count 0 replies (replicate (length s.accessible_paths) []);
    }
    else record s { num_paths = count }
receive_list s count _ = record s { num_paths = count }

-- The string in the array after the first `recv`: the array has not been cleared.
unfoldable pub count_text : (stack : Bytes) → List (Option Bytes) → Bytes
unfolding received_over
count_text stack [] = c_str stack
count_text stack (none ∷ replies) = c_str stack
count_text stack (some count ∷ replies) = c_str (received_over stack count)

unfoldable pub refresh_server : StorageServer → Replies → Run StorageServer
unfolding receive_list count_text
refresh_server s none = done s
refresh_server s (some (stack, replies)) =
    done (receive_list s (as_count (atoi (count_text stack replies))) (drop 1 replies))

-- The OK for each path that arrives.
unfoldable pub answer_paths : ℕ → List (Option Bytes) → List Bytes
answer_paths zero replies = []
answer_paths (suc left) [] = []
answer_paths (suc left) (none ∷ replies) = []
answer_paths (suc left) (some p ∷ replies) = codes "OK" ∷ answer_paths left replies

unfoldable pub answer_list : ℕ → List (Option Bytes) → List Bytes
unfolding answer_paths
answer_list count (some ok ∷ replies) =
    let answers = answer_paths count replies in if str_eq ok (codes "OK") then answers else []
answer_list count _ = []

-- What `update_list_of_accessiblepaths` sends: the request, the string in the array, and the OKs.
unfoldable pub update_sends : Replies → List Bytes
unfolding count_text answer_list
update_sends none = []
update_sends (some (stack, replies)) =
    let count = count_text stack replies in
    codes "GETPATHS server" ∷ count ∷ answer_list (as_count (atoi count)) (drop 1 replies)

-- The first of the servers with that address and port, from index `i` on.
unfoldable pub server_index :
    (port_of : StorageServer → ℕ) → ℕ → List StorageServer → Bytes → ℕ → Option ℕ
server_index port_of i [] ip port = none
server_index port_of i (s ∷ servers) ip port =
    let rest = server_index port_of (suc i) servers ip port in
    if str_eq s.ip_address ip && port_of s == port then some i else rest

module _ (ix : PathIndex) where
  open ix use {find}

  unfoldable pub update_list_of_accessiblepaths : State ix → ℕ → Replies → Run (State ix)
  unfolding refresh_server
  update_list_of_accessiblepaths st i replies = do
    s ← refresh_server (server_at ix st i) replies
    done (record st { storage_servers = set st.storage_servers i s })

  -- Without an index, `storage_server_index` is read before it is written.
  unfoldable pub update_at : State ix → Replies → Option ℕ → Run (State ix)
  unfolding update_list_of_accessiblepaths
  update_at st replies none = fault
  update_at st replies (some i) = update_list_of_accessiblepaths st i replies

  -- "find which storage server it belongs to", among the registered ones
  unfoldable pub index_of : State ix → StorageServer → Option ℕ
  unfolding server_index
  index_of st s =
      server_index (λ t. t.nm_port) 0 (take st.storage_server_count st.storage_servers) s.ip_address
        s.nm_port

  -- The messages of the update itself, to the storage server, are `update_sends`; they are not among
  -- those of the reaction.
  unfoldable pub delete_answered :
      Replies → State ix → StorageServer → (request : Bytes) → Outcome → Run (Reaction ix)
  unfolding update_at index_of
  delete_answered replies st s request refused =
      done (record { state = st; sent = []; alive = false })
  delete_answered replies st s request unsent =
      done (record { state = st; sent = []; alive = false })
  delete_answered replies st s request (answered reply) = do
    st' ← update_at st replies (index_of st s)
    done (record {
      state = st';
      sent = to_server s.ip_address s.nm_port request ∷ to_client reply ∷ [];
      alive = true;
    })

  unfoldable pub delete_found :
      Net → Replies → State ix → (request : Bytes) → Option StorageServer → Run (Reaction ix)
  unfolding delete_answered
  delete_found net replies st request none =
      done (record { state = st; sent = to_client (codes "5") ∷ []; alive = true })
  delete_found net replies st request (some s) =
      delete_answered replies st s request (net s.ip_address s.nm_port request)

  unfoldable pub handle_delete :
      Net → Replies → State ix → (request path : Bytes) → Run (Reaction ix)
  unfolding delete_found
  handle_delete net replies st request path =
      delete_found net replies st request (find path st.servers_by_path)
