-- ===== src/Protocol/Created.antt =====
-- A CREATE from the naming server to its one storage server and back (NamingServerModule.c: the CREATE
-- branch of `handleClientInput`; StorageServerModule.c: `executeNMRequest`).
use nfs_mock.Base.{
  ℕ, ◌<◌, ◌≡◌, ◌≢◌, refl, ap, ◌∙◌, true, none, some, List, [], ◌∷◌, Bytes, Lacks, codes, c_str,
  received_over, All-append, drop, ◌++◌, length, str_eq,
}
use nfs_mock.Run.{Run, done, fault, timeout}
use nfs_mock.Lru.{null}
use nfs_mock.Scanf.{skip_space, token, scan_two}
use nfs_mock.NamingServer.Index.{PathIndex}
use nfs_mock.NamingServer.State
use nfs_mock.NamingServer.State.{State, Reaction, to_client, to_server, Net, unsent}
use nfs_mock.NamingServer.Tasks.{ThreadArgs, accepted, server_at}
use nfs_mock.NamingServer.Create.{create_request, handle_create}
use nfs_mock.NamingServer.Create.Direct.{create_direct-find}
use nfs_mock.Checks.{every-Lacks}
use nfs_mock.StorageServer.Listeners.{ThreadArg, request_text}
use nfs_mock.StorageServer.Received.{ended_text}
use nfs_mock.StorageServer.FileSystem.{FileSystem}
use nfs_mock.StorageServer.Folders.{execute_create}
use nfs_mock.StorageServer.Requests.{Peers, NmOutcome, execute_nm_request, execute_command}
use nfs_mock.StorageServer.Words.{IsWord, last_word}
use nfs_mock.StorageServer.Answers.{create-accepted}

-- The string in the naming server's array `storageserverreply`, which it does not clear, after the
-- answer, if there is one.
abbrev pub reply_of : (stack : Bytes) → List Bytes → Bytes
reply_of stack [] = c_str stack
reply_of stack (reply ∷ told) = c_str (received_over stack reply)

module _ (fs : FileSystem) where
  open fs use {Disk}

  abbrev pub outcome_of : (stack : Bytes) → Run (NmOutcome fs) → State.Outcome
  outcome_of stack (done o) = State.answered (reply_of stack o.told)
  outcome_of stack fault = unsent
  outcome_of stack timeout = unsent

  -- The network that has one storage server: the request is received over the array of its
  -- thread, `block` in what `malloc` gives, which is not cleared, and the answer over `stack`.
  unfoldable pub net_of : (depth : ℕ) → Peers → Disk → (socket : ℕ) → (block stack : Bytes) → Net
  unfolding execute_nm_request
  net_of depth peers d socket block stack ip port request =
      let arg : ThreadArg = record { request = received_over block request; socket = socket } in
      outcome_of stack (execute_nm_request fs depth peers (request_text arg) d)

  scan_create :
      (path : Bytes) → IsWord path → scan_two (create_request path) ≡ (codes "CREATE", path)
  unfolding scan_two skip_space token
  scan_create path h = ap (λ t. (codes "CREATE", t.0)) (last_word path h)

  request-Lacks : (path : Bytes) → Lacks 0 path → Lacks 0 (create_request path)
  request-Lacks path lacks =
      All-append (λ c. c ≢ 0) (codes "CREATE ") path (every-Lacks 0 (codes "CREATE ") refl) lacks

  word_nonempty : (path : Bytes) → IsWord path → path ≢ []
  word_nonempty [] h e = h
  word_nonempty (c ∷ path) h e = cc

  -- The storage server's part: an answer that the naming server takes for a success.
  create_answered :
      (depth : ℕ) (peers : Peers) (path : Bytes) (d : Disk)
      → IsWord path
      → (reply : Bytes) × (d' : Disk) × (execute_create fs path d ≡ done (reply, d'))
        × (execute_nm_request fs depth peers (create_request path) d
            ≡ done (record { told = reply ∷ []; sent = []; disk = d'; alive = true }))
        × ((behind : Bytes) → accepted (c_str (reply ++ behind)) ≡ true)
  unfolding execute_nm_request execute_command str_eq
  create_answered depth peers path d word =
      let ((reply, d'), run, ok) = create-accepted fs path d (word_nonempty path word) in
      (
        reply,
        d',
        run,
        ap (λ p. execute_command fs depth peers p.0 p.1 (create_request path) d)
              (scan_create path word)
            ∙ rw run refl,
        ok,
      )

  -- Nothing is in the cache, fewer than three servers are registered, the first one's list has
  -- room, and the array of the storage server's thread has a zero right behind the request. Then
  -- the CREATE of a new path that is a word reaches the storage server as this path, whatever has
  -- happened on its disk; the client is told the answer with what the naming server's array held
  -- behind it, up to a zero, and the path is found at the first server afterwards.
  pub created_whatever :
      (ix : PathIndex) (order : List ThreadArgs → List ThreadArgs) (st : State ix) (depth : ℕ)
      (peers : Peers) (d : Disk) (socket : ℕ) (path block rest stack : Bytes)
      → st.cache.head ≡ null
      → ix.find path st.servers_by_path ≡ none
      → st.storage_server_count < 3
      → 0 < length st.storage_servers
      → (server_at ix st 0).num_paths < length (server_at ix st 0).accessible_paths
      → IsWord path
      → Lacks 0 path
      → drop (length (create_request path)) block ≡ 0 ∷ rest
      → (reply : Bytes) × (d' : Disk) × (r : Reaction ix) × (execute_create fs path d
          ≡ done (reply, d'))
        × (handle_create ix order
              (net_of depth peers d socket block stack)
              st
              (create_request path)
              path
            ≡ done r)
        × (r.sent
            ≡ to_server
                (server_at ix st 0).ip_address
                (server_at ix st 0).nm_port
                (create_request path)
              ∷ to_client (c_str (reply ++ drop (length reply) stack))
              ∷ [])
        × (ix.find path r.state.servers_by_path ≡ some (server_at ix r.state 0))
  unfolding net_of received_over
  created_whatever ix order st depth peers d socket path block rest stack empty absent few slots
        room word lacks ended =
      let request = create_request path in
      let (reply, d', run, answer, ok) = create_answered depth peers path d word in
      let whole : request_text (record { request = received_over block request; socket = socket })
          ≡ request =
        ended_text request block rest socket (request-Lacks path lacks) ended in
      let (r, handled, sent, found, _) =
        create_direct-find ix order (net_of depth peers d socket block stack) st request path
          (c_str (reply ++ drop (length reply) stack)) empty absent few slots room
          (ap (λ q. outcome_of stack (execute_nm_request fs depth peers q d)) whole
            ∙ ap (outcome_of stack) answer)
          (ok (drop (length reply) stack)) in
      (reply, d', r, run, handled, sent, found)
