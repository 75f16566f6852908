-- ===== src/NamingServer/Registration.antt =====
-- `handleStorageServer` (NamingServerModule.c): a storage server reports itself. The argument is the
-- `StorageServer` whose bytes have been received.
use nfs_mock.Base.{
  ◌+◌, ◌<◌, ◌≡◌, ◌≢◌, ◌⊎◌, inl, inr, Option-cases, refl, sym, ap, ◌∙◌, Bool, true, false,
  Bool-cases, Option, none, some, List, [], ◌∷◌, arith, Bytes, codes, ltb, lt→ltb, str_eq,
  str_eq_sound, str_eq_refl, if◌then◌else◌, set,
}
use mathlib.Core.Bool.{false≢true}
use nfs_mock.NamingServer.{StorageServer, listed}
use nfs_mock.NamingServer.Index.{PathIndex}
use nfs_mock.NamingServer.State.{State, Reaction, to_client, max_storage_servers}

unfoldable pub has_path : Bytes → List Bytes → Bool
has_path p [] = false
has_path p (q ∷ paths) = if str_eq p q then true else has_path p paths

module _ (ix : PathIndex) where
  open ix use {Table, add, find, find-add_new, find-add_dup, find-add_ne}

  -- `for(path_no = 0; path_no < newServer.numPaths; path_no++) HASH_ADD_STR(…)`
  unfoldable pub register_paths : List Bytes → StorageServer → Table → Table
  register_paths [] server t = t
  register_paths (p ∷ paths) server t = register_paths paths server (add p server t)

  unfoldable pub handle_storage_server : State ix → StorageServer → Reaction ix
  unfolding register_paths
  handle_storage_server st server =
      if ltb st.storage_server_count max_storage_servers
      then record {
        state = record st {
          storage_servers = set st.storage_servers st.storage_server_count server;
          storage_server_count = st.storage_server_count + 1;
          servers_by_path =
              register_paths (listed server.num_paths server.accessible_paths) server
                st.servers_by_path;
        };
        sent = to_client (codes "Registration Successful") ∷ [];
        alive = false;
      }
      else record {
        state = st;
        sent = to_client (codes "Storage server limit reached") ∷ [];
        alive = false;
      }

  pub ne_of_str_eq : (p q : Bytes) → str_eq p q ≡ false → p ≢ q
  ne_of_str_eq p q h e = false≢true (sym h ∙ ap (str_eq p) (sym e) ∙ str_eq_refl p)

  -- One entry more: the server of its key is the new one or stays, that of another key stays.
  pub find-add_here :
      (p q : Bytes) (server : StorageServer) (t : Table)
      → str_eq p q ≡ true
      → (find p (add q server t) ≡ some server)
        ⊎ ((find p (add q server t) ≡ find p t) × (find p t ≢ none))
  find-add_here p q server t same =
      let e = ap (λ k. find p (add k server t)) (sym (str_eq_sound p q same)) in
      elim (Option-cases (find p t)) [
        | inl absent ↦ inl (e ∙ find-add_new p server t absent)
        | inr (w, found) ↦ elim (find-add_dup p server w t found) [
          | inl new ↦ inl (e ∙ new)
          | inr old ↦ inr (e ∙ old ∙ sym found, λ gone. cc)
        ]
      ]

  pub find-add :
      (p q : Bytes) (server : StorageServer) (t : Table)
      → (find p (add q server t) ≡ some server) ⊎ (find p (add q server t) ≡ find p t)
  find-add p q server t = elim (Bool-cases (str_eq p q)) [
    | inl same ↦ elim (find-add_here p q server t same) [ inl new ↦ inl new | inr old ↦ inr old.0 ]
    | inr other ↦ inr (find-add_ne p q server t (ne_of_str_eq p q other))
  ]

  -- Adding entries for a server keeps a path that has it already.
  find-register_kept :
      (p : Bytes) (paths : List Bytes) (server : StorageServer) (t : Table)
      → find p t ≡ some server
      → find p (register_paths paths server t) ≡ some server
  unfolding register_paths
  find-register_kept p [] server t h = h
  find-register_kept p (q ∷ paths) server t h =
      find-register_kept p paths server (add q server t)
        (elim (find-add p q server t) [ inl new ↦ new | inr old ↦ old ∙ h ])

  has_path-cons :
      (p q : Bytes) (paths : List Bytes) → str_eq p q ≡ true → has_path p (q ∷ paths) ≡ true
  unfolding has_path
  has_path-cons p q paths h = rw h

  -- A path that is not listed keeps its server.
  pub find-register_other :
      (p : Bytes) (paths : List Bytes) (server : StorageServer) (t : Table)
      → has_path p paths ≡ false
      → find p (register_paths paths server t) ≡ find p t
  unfolding has_path register_paths
  find-register_other p [] server t h = refl
  find-register_other p (q ∷ paths) server t h = elim (Bool-cases (str_eq p q)) [
    | inl same ↦ cc (has_path-cons p q paths same)
    | inr other ↦
        find-register_other p paths server (add q server t) (ground arith)
        ∙ find-add_ne p q server t (ne_of_str_eq p q other)
  ]

  -- A listed path has the new server, or the one that it had.
  pub find-register_listed :
      (p : Bytes) (paths : List Bytes) (server : StorageServer) (t : Table)
      → has_path p paths ≡ true
      → (find p (register_paths paths server t) ≡ some server)
        ⊎ ((find p (register_paths paths server t) ≡ find p t) × (find p t ≢ none))
  unfolding has_path register_paths
  find-register_listed p [] server t h = cc
  find-register_listed p (q ∷ paths) server t h = elim (Bool-cases (has_path p paths)) [
    | inl again ↦ elim (find-register_listed p paths server (add q server t) again) [
      | inl new ↦ inl new
      | inr old ↦ elim (find-add p q server t) [
        | inl new ↦ inl (find-register_kept p paths server (add q server t) new)
        | inr same ↦ inr (old.0 ∙ same, λ e. old.1 (same ∙ e))
      ]
    ]
    | inr absent ↦ elim (find-add_here p q server t (ground arith)) [
      | inl new ↦ inl (find-register_kept p paths server (add q server t) new)
      | inr same ↦ inr (find-register_other p paths server (add q server t) absent ∙ same.0, same.1)
    ]
  ]

  -- What became of the path `p` when a server was registered with the paths `paths`: a listed path
  -- has the server, or the one that it had before; any other path is found as before.
  abbrev pub Indexed :
      Bytes → List Bytes → StorageServer → (before after : Option StorageServer) → Type 0
  Indexed p paths server before after =
      ((has_path p paths ≡ true) × ((after ≡ some server) ⊎ ((after ≡ before) × (before ≢ none))))
      ⊎ ((has_path p paths ≡ false) × (after ≡ before))

  Indexed-register :
      (p : Bytes) (paths : List Bytes) (server : StorageServer) (t : Table)
      → Indexed p paths server (find p t) (find p (register_paths paths server t))
  Indexed-register p paths server t = elim (Bool-cases (has_path p paths)) [
    | inl is ↦ inl (is, find-register_listed p paths server t is)
    | inr not ↦ inr (not, find-register_other p paths server t not)
  ]

  -- While fewer than ten servers are registered, a server that reports itself takes the next slot,
  -- each of its paths is found at it afterwards, or still at the server that had it before, every
  -- other path is found as before, and the server is told of its success.
  pub registration :
      (st : State ix) (server : StorageServer) (p : Bytes)
      → st.storage_server_count < max_storage_servers
      → let r = handle_storage_server st server in
        (r.state.storage_server_count ≡ st.storage_server_count + 1)
        × (r.state.storage_servers ≡ set st.storage_servers st.storage_server_count server)
        × (r.sent ≡ to_client (codes "Registration Successful") ∷ [])
        × Indexed p
            (listed server.num_paths server.accessible_paths)
            server
            (find p st.servers_by_path)
            (find p r.state.servers_by_path)
  unfolding handle_storage_server
  registration st server p room = rw (lt→ltb _ _ room) (
    refl,
    refl,
    refl,
    Indexed-register p (listed server.num_paths server.accessible_paths) server st.servers_by_path,
  )
