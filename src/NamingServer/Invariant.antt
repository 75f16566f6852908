-- ===== src/NamingServer/Invariant.antt =====
-- What one request leaves as it was.
use nfs_mock.Base.{
  ℕ, ◌≡◌, ◌≢◌, inl, inr, refl, sym, ◌∙◌, Bool-cases, true, ◌&&◌, Option, none, some, List, [], ◌∷◌,
  Bytes, length, length-set, leb,
}
use nfs_mock.Run.{Run, After, After-any, After-bind}
use nfs_mock.Lru.{null}
use nfs_mock.NamingServer.{StorageServer}
use nfs_mock.NamingServer.Index.{PathIndex}
use nfs_mock.NamingServer.State.{State, Reaction, Net, Outcome, refused, unsent, answered}
use nfs_mock.NamingServer.Registration.{find-add}
use nfs_mock.NamingServer.Locate.{handle_locate, find_server_uncached}
use nfs_mock.NamingServer.Tasks.{
  ThreadArgs, Task, write_task, create_task, delete_task, accepted, server_at, put_path,
  add_created, finish_task, after_outcome, send_request_async, run_tasks,
}
use nfs_mock.NamingServer.Create.{
  after_create, create_unless_found, create_direct, create_tasks, create_replicated, handle_create,
  uses_unset, create_if_set, create_args,
}
use nfs_mock.NamingServer.Delete.{
  Replies, refresh_server, update_list_of_accessiblepaths, update_at, index_of, delete_answered,
  delete_found, handle_delete,
}
use nfs_mock.NamingServer.Copy
use nfs_mock.NamingServer.Copy.{
  Transfer, CopyResult, replied, exited, copied, handle_copy, copy_reaction,
}
use nfs_mock.NamingServer.Dispatch.{
  World, Command, locate, create, delete, copy, listing, unknown, dispatch,
}

module _ (ix : PathIndex) where
  open ix use {Table, add, find}

  -- `st'` comes after `st`: the number of slots, the count and the cache are the same, and
  -- every path that had a server has one.
  pub record Follows (st st' : State ix) : Type 0 where
    pub slots : length st'.storage_servers ≡ length st.storage_servers
    pub count : st'.storage_server_count ≡ st.storage_server_count
    pub cached : st'.cache ≡ st.cache
    pub known : (p : Bytes) → find p st.servers_by_path ≢ none → find p st'.servers_by_path ≢ none

  pub Follows-refl : (st : State ix) → Follows st st
  Follows-refl st = record { slots = refl; count = refl; cached = refl; known = λ p h. h }

  Follows-trans : {st st' st'' : State ix} → Follows st st' → Follows st' st'' → Follows st st''
  Follows-trans f g = record {
    slots = g.slots ∙ f.slots;
    count = g.count ∙ f.count;
    cached = g.cached ∙ f.cached;
    known = λ p h. g.known p (f.known p h);
  }

  pub find-add_known :
      (p q : Bytes) (s : StorageServer) (t : Table) → find p t ≢ none → find p (add q s t) ≢ none
  find-add_known p q s t h e = elim (find-add ix p q s t) [
    | inl new ↦ cc
    | inr old ↦ h (sym old ∙ e)
  ]

  add_created-Follows :
      (st : State ix) (i slot : ℕ) (path : Bytes) → Follows st (add_created ix st i slot path)
  unfolding add_created put_path
  add_created-Follows st i slot path = record {
    slots = length-set st.storage_servers i _;
    count = refl;
    cached = refl;
    known = λ p h. find-add_known p path _ st.servers_by_path h;
  }

  finish_task-Follows :
      (task : Task) (args : ThreadArgs) (st : State ix) (reply : Bytes)
      → Follows st (finish_task ix task args st reply).0
  unfolding finish_task
  finish_task-Follows write_task args st reply = Follows-refl st
  finish_task-Follows create_task args st reply = elim (Bool-cases (accepted reply)) [
    | inl ok ↦ rw ok (add_created-Follows st _ _ _)
    | inr no_answer ↦ rw no_answer (Follows-refl st)
  ]
  finish_task-Follows delete_task args st reply = elim (Bool-cases (accepted reply)) [
    | inl ok ↦ rw ok (Follows-refl st)
    | inr no_answer ↦ rw no_answer (Follows-refl st)
  ]

  outcome-Follows :
      (args : ThreadArgs) (st : State ix) (o : Outcome) → Follows st (after_outcome ix args st o).0
  unfolding after_outcome
  outcome-Follows args st refused = Follows-refl st
  outcome-Follows args st unsent = Follows-refl st
  outcome-Follows args st (answered reply) = finish_task-Follows args.task args st reply

  pub run_tasks-Follows :
      (net : Net) (st : State ix) (tasks : List ThreadArgs)
      → Follows st (run_tasks ix net st tasks).0
  unfolding run_tasks send_request_async
  run_tasks-Follows net st [] = Follows-refl st
  run_tasks-Follows net st (args ∷ rest) =
      Follows-trans (outcome-Follows args st (net args.ip_address args.port args.buffer))
        (run_tasks-Follows net (send_request_async ix net st args).0 rest)

  answer-Follows :
      (st : State ix) (request path : Bytes) (o : Outcome)
      → Follows st (after_create ix st request path o).state
  unfolding after_create
  answer-Follows st request path refused = Follows-refl st
  answer-Follows st request path unsent = Follows-refl st
  answer-Follows st request path (answered reply) = elim (Bool-cases (accepted reply)) [
    | inl ok ↦ rw ok (add_created-Follows st 0 _ path)
    | inr no_answer ↦ rw no_answer (Follows-refl st)
  ]

  unless_found-Follows :
      (w : World) (st : State ix) (request path : Bytes) (found : Option StorageServer)
      → Follows st (create_unless_found ix w.order w.net st request path found).state
  unfolding create_unless_found create_direct create_replicated
  unless_found-Follows w st request path (some s) = Follows-refl st
  unless_found-Follows w st request path none = elim (Bool-cases (leb 3 st.storage_server_count)) [
    | inl three ↦ rw three (run_tasks-Follows w.net st (w.order (create_tasks ix st path)))
    | inr fewer ↦ rw fewer (answer-Follows st request path _)
  ]

  -- the reaction leaves a state that follows `st`
  abbrev pub Keeps : State ix → Run (Reaction ix) → Type 0
  Keeps st m = After m (λ r. Follows st r.state)

  if_set-Keeps :
      (w : World) (st : State ix) (request path : Bytes) (found : Option StorageServer)
      → Keeps st (create_if_set ix w.order w.net st request path found)
  unfolding create_if_set
  if_set-Keeps w st request path (some s) = unless_found-Follows w st request path (some s)
  if_set-Keeps w st request path none =
      elim (Bool-cases
        (leb 3 st.storage_server_count && uses_unset ix w.net (create_args ix st 0 true path))) [
          | inl unset ↦ rw unset tt
          | inr set_up ↦ rw set_up (unless_found-Follows w st request path none)
        ]

  create-Keeps :
      (w : World) (st : State ix) (request path : Bytes)
      → st.cache.head ≡ null
      → Keeps st (handle_create ix w.order w.net st request path)
  unfolding handle_create
  create-Keeps w st request path empty =
      rw (find_server_uncached ix st path empty, handle_create)
        (if_set-Keeps w st request path (find path st.servers_by_path))

  locate-Keeps :
      (st : State ix) (path : Bytes) → st.cache.head ≡ null → Keeps st (handle_locate ix st path)
  unfolding handle_locate
  locate-Keeps st path empty =
      rw (find_server_uncached ix st path empty, handle_locate) (Follows-refl st)

  update-Follows :
      (st : State ix) (replies : Replies) (i : Option ℕ)
      → After (update_at ix st replies i) (λ st'. Follows st st')
  unfolding update_at update_list_of_accessiblepaths
  update-Follows st replies none = tt
  update-Follows st replies (some i) =
      After-bind (λ s. Unit {0}) (λ st'. Follows st st')
        (refresh_server (server_at ix st i) replies) _ (After-any _)
        λ s any. record {
          slots = length-set st.storage_servers i s;
          count = refl;
          cached = refl;
          known = λ p h. h;
        }

  delete_answered-Keeps :
      (st : State ix) (replies : Replies) (s : StorageServer) (request : Bytes) (o : Outcome)
      → Keeps st (delete_answered ix replies st s request o)
  unfolding delete_answered
  delete_answered-Keeps st replies s request refused = Follows-refl st
  delete_answered-Keeps st replies s request unsent = Follows-refl st
  delete_answered-Keeps st replies s request (answered reply) =
      After-bind (λ st'. Follows st st') (λ r. Follows st r.state)
        (update_at ix st replies (index_of ix st s)) _ (update-Follows st replies _) λ st' f. f

  delete_found-Keeps :
      (w : World) (st : State ix) (request : Bytes) (found : Option StorageServer)
      → Keeps st (delete_found ix w.net w.replies st request found)
  unfolding delete_found
  delete_found-Keeps w st request none = Follows-refl st
  delete_found-Keeps w st request (some s) = delete_answered-Keeps st w.replies s request _

  copy_reaction-Follows :
      (st : State ix) (r : CopyResult) → Follows st (copy_reaction ix st r).state
  unfolding copy_reaction
  copy_reaction-Follows st (replied b) = Follows-refl st
  copy_reaction-Follows st exited = Follows-refl st
  copy_reaction-Follows st (copied s d requests chunks) = Follows-refl st

  copy-Keeps :
      (t : Transfer) (st : State ix) (path path_third : Bytes)
      → Keeps st (handle_copy ix t st path path_third)
  unfolding handle_copy
  copy-Keeps t st path path_third =
      After-bind (λ r. Unit {0}) (λ r. Follows st r.state) (Copy.copy ix t st path path_third) _
        (After-any _) λ r _. copy_reaction-Follows st r

  pub dispatch-Keeps :
      (w : World) (st : State ix) (request : Bytes) (c : Command)
      → st.cache.head ≡ null
      → Keeps st (dispatch ix w st request c)
  unfolding dispatch handle_delete
  dispatch-Keeps w st request locate empty = locate-Keeps st _ empty
  dispatch-Keeps w st request create empty = create-Keeps w st request _ empty
  dispatch-Keeps w st request delete empty = delete_found-Keeps w st request _
  dispatch-Keeps w st request copy empty = copy-Keeps w.transfer st _ _
  dispatch-Keeps w st request listing empty = Follows-refl st
  dispatch-Keeps w st request unknown empty = Follows-refl st
