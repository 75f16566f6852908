-- ===== src/NamingServer/Reachable.antt =====
-- What holds of the naming server after any number of registrations and requests.
use nfs_mock.Base.{
  ◌≤◌, ◌≡◌, ◌≢◌, inl, inr, refl, sym, ap, ◌∙◌, true, Bool-cases, none, List, [], ◌∷◌, arith, Bytes,
  length, length-set, ltb, ltb→lt, c_str,
}
use nfs_mock.Run.{done, After-bind}
use nfs_mock.Lru.{null}
use nfs_mock.NamingServer.{StorageServer, listed}
use nfs_mock.NamingServer.Index.{PathIndex}
use nfs_mock.NamingServer.State.{
  State, Reaction, to_client, max_storage_servers, initialize_naming_server,
}
use nfs_mock.NamingServer.Registration.{register_paths, handle_storage_server}
use nfs_mock.NamingServer.Locate.{locate_reply, handle_locate, find_server_uncached}
use nfs_mock.Whitespace.{strip}
use mathlib.Core.Path.{subst}
use nfs_mock.NamingServer.Dispatch.{World, command_of, dispatch, handle_client_input}
use nfs_mock.NamingServer.Invariant.{Follows, Keeps, find-add_known, dispatch-Keeps}

module _ (ix : PathIndex) where
  open ix use {Table, add, find}

  -- One event of the naming server: a storage server reports itself, or a client's request is handled.
  pub data Step (st st' : State ix) : Type 0 where
    registers : (s : StorageServer) → st' ≡ (handle_storage_server ix st s).state → Step st st'
    requests :
        (w : World) (buffer : Bytes) (r : Reaction ix)
        → handle_client_input ix w st buffer ≡ done r
        → st' ≡ r.state
        → Step st st'

  pub data Reach (st : State ix) : State ix → Type 0 where
    here : Reach st st
    next : {st' st'' : State ix} → Reach st st' → Step st' st'' → Reach st st''

  -- Ten slots, at most as many registered, and a cache that nothing has been put into.
  pub record IsSound (st : State ix) : Type 0 where
    pub slots : length st.storage_servers ≡ max_storage_servers
    pub room : st.storage_server_count ≤ max_storage_servers
    pub uncached : st.cache.head ≡ null

  Follows-IsSound : {st st' : State ix} → Follows ix st st' → IsSound st → IsSound st'
  Follows-IsSound f s = record {
    slots = f.slots ∙ s.slots;
    room = omega (arith, f.count, s.room);
    uncached = ap (λ c. c.head) f.cached ∙ s.uncached;
  }

  pub input-Keeps :
      (w : World) (st : State ix) (buffer : Bytes)
      → st.cache.head ≡ null
      → Keeps ix st (handle_client_input ix w st buffer)
  unfolding handle_client_input
  input-Keeps w st buffer empty =
      After-bind (λ r. Follows ix st r.state) (λ r. Follows ix st r.state)
        (dispatch ix w st (c_str (strip buffer)) (command_of (c_str (strip buffer)))) _
        (dispatch-Keeps ix w st _ (command_of (c_str (strip buffer))) empty) λ r f. f

  find-register_known :
      (paths : List Bytes) (s : StorageServer) (p : Bytes) (t : Table)
      → find p t ≢ none
      → find p (register_paths ix paths s t) ≢ none
  unfolding register_paths
  find-register_known [] s p t h = h
  find-register_known (q ∷ paths) s p t h =
      find-register_known paths s p (add q s t) (find-add_known ix p q s t h)

  register-IsSound :
      (st : State ix) (s : StorageServer)
      → IsSound st
      → IsSound (handle_storage_server ix st s).state
  unfolding handle_storage_server
  register-IsSound st s h = elim (Bool-cases (ltb st.storage_server_count max_storage_servers)) [
    | inl fits ↦ rw fits (record {
      slots = length-set st.storage_servers st.storage_server_count s ∙ h.slots;
      room = omega (arith, ltb→lt _ _ fits);
      uncached = h.uncached;
    })
    | inr full ↦ rw full h
  ]

  register-known :
      (st : State ix) (s : StorageServer) (p : Bytes)
      → find p st.servers_by_path ≢ none
      → find p (handle_storage_server ix st s).state.servers_by_path ≢ none
  unfolding handle_storage_server
  register-known st s p h = elim (Bool-cases (ltb st.storage_server_count max_storage_servers)) [
    | inl fits ↦
        rw fits
          (find-register_known (listed s.num_paths s.accessible_paths) s p st.servers_by_path h)
    | inr full ↦ rw full h
  ]

  -- the two together, for one event
  abbrev pub SoundAndKnown : State ix → State ix → Type 0
  SoundAndKnown st st' =
      IsSound st'
      × ((p : Bytes) → find p st.servers_by_path ≢ none → find p st'.servers_by_path ≢ none)

  Step-SoundAndKnown : {st st' : State ix} → Step st st' → IsSound st → SoundAndKnown st st'
  Step-SoundAndKnown {st} (registers s e) h =
      subst (SoundAndKnown st) (sym e) (register-IsSound st s h, register-known st s)
  Step-SoundAndKnown {st} (requests w buffer r run e) h =
      let f = subst (Keeps ix st) run (input-Keeps w st buffer h.uncached) in
      subst (SoundAndKnown st) (sym e) (Follows-IsSound f h, f.known)

  init-IsSound : IsSound (initialize_naming_server ix)
  unfolding initialize_naming_server
  init-IsSound = record { slots = refl; room = omega arith; uncached = refl }

  Reach-SoundAndKnown : {st st' : State ix} → Reach st st' → IsSound st → SoundAndKnown st st'
  Reach-SoundAndKnown here h = (h, λ p k. k)
  Reach-SoundAndKnown (next r step) h =
      let before = Reach-SoundAndKnown r h in
      let after = Step-SoundAndKnown step before.0 in (after.0, λ p k. after.1 p (before.1 p k))

  -- From the start, after any registrations and requests that were handled to their end: there are ten
  -- slots and at most ten servers, and nothing has ever been put into the cache.
  pub Reach-IsSound : {st : State ix} → Reach (initialize_naming_server ix) st → IsSound st
  Reach-IsSound r = (Reach-SoundAndKnown r init-IsSound).0

  -- A path that has a server once has one ever after, whatever is registered, created or deleted.
  pub known_forever :
      {st st' : State ix} (p : Bytes)
      → Reach (initialize_naming_server ix) st
      → Reach st st'
      → find p st.servers_by_path ≢ none
      → find p st'.servers_by_path ≢ none
  known_forever p before after h = (Reach-SoundAndKnown after (Reach-IsSound before)).1 p h

  -- In every state that is reached, a READ, WRITE or GETSIZE is answered, the hash table alone decides
  -- the answer, and nothing changes.
  pub locate-find :
      {st : State ix} (path : Bytes)
      → Reach (initialize_naming_server ix) st
      → handle_locate ix st path
        ≡ done (record {
          state = st;
          sent = to_client (locate_reply (find path st.servers_by_path)) ∷ [];
          alive = true;
        })
  unfolding handle_locate
  locate-find {st} path r =
      rw (find_server_uncached ix st path (Reach-IsSound r).uncached, handle_locate)
