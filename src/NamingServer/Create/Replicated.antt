-- ===== src/NamingServer/Create/Replicated.antt =====
-- CREATE with three or more storage servers (NamingServerModule.c: `handleClientInput` and the threads
-- of `send_request_async`).
use nfs_mock.Base.{
  ℕ, ◌≡◌, ◌≢◌, refl, sym, ◌∙◌, Bool, true, false, Bool-cases, inl, inr, none, List, [], ◌∷◌, Bytes,
  codes, leb, starts_with, str_eq, str_eq_refl, All-append, All-drop,
}
use nfs_mock.Scanf.{AllSolid, scan_two, skip_space_word, token_word}
use nfs_mock.Paths.{remove_prefix}
use nfs_mock.NamingServer.{StorageServer}
use nfs_mock.NamingServer.Index.{PathIndex}
use nfs_mock.Run.{done}
use nfs_mock.Lru.{null}
use nfs_mock.NamingServer.Locate.{find_server_uncached}
use nfs_mock.NamingServer.State.{State, Reaction, answered, Net}
use nfs_mock.NamingServer.Registration.{find-add_here}
use nfs_mock.NamingServer.Tasks.{
  ThreadArgs, accepted, add_created, finish_task, after_outcome, send_request_async, run_tasks,
}
use nfs_mock.NamingServer.Create.{
  create_request, backup_path, create_args, create_tasks, create_replicated, create_unless_found,
  uses_unset, create_if_set, handle_create,
}
use nfs_mock.NamingServer.Invariant.{run_tasks-Follows}

pub scan_request : (path : Bytes) → AllSolid path → (scan_two (create_request path)).1 ≡ path
unfolding scan_two
scan_request path h = rw (skip_space_word path h, token_word path h)

AllSolid-backup :
    (folder path : Bytes) → AllSolid folder → AllSolid path → AllSolid (backup_path folder path)
unfolding backup_path remove_prefix
AllSolid-backup folder path hf h = elim (Bool-cases (starts_with path (codes "."))) [
  | inl dotted ↦ rw dotted (All-append _ folder _ hf (All-drop _ 1 path h))
  | inr plain ↦ rw plain (All-append _ folder path hf h)
]

pub AllSolid-backups :
    (path : Bytes)
    → AllSolid path
    → AllSolid (backup_path (codes "./Backup0") path)
      × AllSolid (backup_path (codes "./Backup1") path)
AllSolid-backups path h = (
  AllSolid-backup (codes "./Backup0") path
      (refl, (refl, (refl, (refl, (refl, (refl, (refl, (refl, (refl, tt))))))))) h,
  AllSolid-backup (codes "./Backup1") path
      (refl, (refl, (refl, (refl, (refl, (refl, (refl, (refl, (refl, tt))))))))) h,
)

-- membership in a list
pub data Among {A : Type 0} (x : A) : List A → Type 0 where
  first : {xs : List A} → Among x (x ∷ xs)
  later : {y : A} {xs : List A} → Among x xs → Among x (y ∷ xs)

module _ (ix : PathIndex) where
  open ix use {Table, add, find}

  pub find-add_self :
      (path : Bytes) (server : StorageServer) (t : Table) → find path (add path server t) ≢ none
  find-add_self path server t gone = elim (find-add_here ix path path server t (str_eq_refl path)) [
    | inl new ↦ cc
    | inr old ↦ old.1 (sym old.0 ∙ gone)
  ]

  added_known :
      (st : State ix) (i slot : ℕ) (path : Bytes)
      → find path (add_created ix st i slot path).servers_by_path ≢ none
  unfolding add_created
  added_known st i slot path = find-add_self path _ st.servers_by_path

  -- the server of the task answers, and not with "-1"
  abbrev pub Succeeds : Net → ThreadArgs → Type 0
  Succeeds net args =
      (reply : Bytes) × (net args.ip_address args.port args.buffer ≡ answered reply)
      × (accepted reply ≡ true)

  thread_known :
      (net : Net) (st : State ix) (i : ℕ) (original : Bool) (path : Bytes)
      → AllSolid path
      → Succeeds net (create_args ix st i original path)
      → (now : State ix)
      → find path
          (send_request_async ix net now (create_args ix st i original path)).0.servers_by_path
        ≢ none
  unfolding send_request_async create_args after_outcome finish_task
  thread_known net st i original path solid (reply, answer, ok) now =
      rw (answer, after_outcome, finish_task, ok, scan_request path solid)
        (added_known now i i path)

  run_known :
      (net : Net) (now : State ix) (args : ThreadArgs) (path : Bytes) (tasks : List ThreadArgs)
      → Among args tasks
      → ((now : State ix) → find path (send_request_async ix net now args).0.servers_by_path ≢ none)
      → find path (run_tasks ix net now tasks).0.servers_by_path ≢ none
  unfolding run_tasks
  run_known net now args path [] among h = elim among [ ]
  run_known net now args path (t ∷ rest) first h =
      (run_tasks-Follows ix net (send_request_async ix net now args).0 rest).known path (h now)
  run_known net now args path (t ∷ rest) (later among) h =
      run_known net (send_request_async ix net now t).0 args path rest among h

  solid-set :
      (net : Net) (st : State ix) (path : Bytes)
      → AllSolid path
      → path ≢ []
      → uses_unset ix net (create_args ix st 0 true path) ≡ false
  unfolding uses_unset create_args str_eq
  solid-set net st [] solid word = absurd (word refl)
  solid-set net st (c ∷ path) solid word = rw (scan_request (c ∷ path) solid) refl

  -- The request for a word is handled to its end.
  pub handle_create-unless_found :
      (order : List ThreadArgs → List ThreadArgs) (net : Net) (st : State ix) (path : Bytes)
      → st.cache.head ≡ null
      → AllSolid path
      → path ≢ []
      → leb 3 st.storage_server_count ≡ true
      → find path st.servers_by_path ≡ none
      → handle_create ix order net st (create_request path) path
        ≡ done (create_unless_found ix order net st (create_request path) path none)
  unfolding handle_create create_if_set
  handle_create-unless_found order net st path empty solid word three absent =
      rw
        (
          find_server_uncached ix st path empty,
          handle_create,
          absent,
          three,
          solid-set net st path solid word,
        )
        refl

  -- Nothing is in the cache, three or more servers are registered, the path is not empty, holds no
  -- whitespace and has no server, the first three servers answer the CREATE requests, none with
  -- "-1", and every one of the three threads finishes, in any order: the request is handled to its
  -- end, and the path and its two copies are found afterwards.
  pub create_replicated-known :
      (order : List ThreadArgs → List ThreadArgs) (net : Net) (st : State ix) (path : Bytes)
      → st.cache.head ≡ null
      → AllSolid path
      → path ≢ []
      → leb 3 st.storage_server_count ≡ true
      → find path st.servers_by_path ≡ none
      → ((t : ThreadArgs)
          → Among t (create_tasks ix st path)
          → Among t (order (create_tasks ix st path)))
      → ((t : ThreadArgs) → Among t (create_tasks ix st path) → Succeeds net t)
      → (r : Reaction ix) × (handle_create ix order net st (create_request path) path ≡ done r)
        × (find path r.state.servers_by_path ≢ none)
        × (find (backup_path (codes "./Backup0") path) r.state.servers_by_path ≢ none)
        × (find (backup_path (codes "./Backup1") path) r.state.servers_by_path ≢ none)
  unfolding create_unless_found create_replicated create_tasks
  create_replicated-known order net st path empty solid word three absent keeps success = (
    create_unless_found ix order net st (create_request path) path none,
    handle_create-unless_found order net st path empty solid word three absent,
    rw three (
        run_known net st _ path _ (keeps _ (later (later first)))
          (thread_known net st 0 true path solid (success _ (later (later first))))),
    rw three (
        run_known net st _ (backup_path (codes "./Backup0") path) _ (keeps _ first)
          (thread_known net st 1 false _ (AllSolid-backups path solid).0 (success _ first))),
    rw three (
        run_known net st _ (backup_path (codes "./Backup1") path) _ (keeps _ (later first)) (
          thread_known net st 2 false _ (AllSolid-backups path solid).1 (success _ (later first)))),
  )
