-- ===== src/NamingServer/Create/Direct.antt =====
-- CREATE with fewer than three storage servers (NamingServerModule.c: `handleClientInput`).
use nfs_mock.Base.{
  ℕ, zero, suc, ◌+◌, ◌<◌, ◌≡◌, refl, sym, ap, ◌∙◌, true, false, none, some, List, [], ◌∷◌, ◌++◌,
  arith, Bytes, length, get_or, set, leb,
}
use nfs_mock.Run.{done}
use nfs_mock.Lru.{null}
use nfs_mock.NamingServer.{listed}
use nfs_mock.NamingServer.Index.{PathIndex}
use nfs_mock.NamingServer.State.{State, Reaction, to_client, to_server, answered, Net, blank_server}
use nfs_mock.NamingServer.Locate.{find_server_uncached}
use nfs_mock.NamingServer.Tasks.{ThreadArgs, accepted, server_at, add_created}
use nfs_mock.NamingServer.Create.{
  after_create, create_direct, create_unless_found, create_if_set, handle_create,
}

put_last :
    (n : ℕ) (paths : List Bytes) (path : Bytes)
    → n < length paths
    → listed (suc n) (set paths n path) ≡ listed n paths ++ path ∷ []
unfolding listed
put_last n [] path h = absurd (omega arith)
put_last zero (p ∷ paths) path h = refl
put_last (suc n) (p ∷ paths) path h = ap (λ l. p ∷ l) (put_last n paths path (omega arith))

-- A path put into the slot behind the last is listed behind the others.
pub listed-put_last :
    (n : ℕ) (paths : List Bytes) (path : Bytes)
    → n < length paths
    → listed (n + 1) (set paths n path) ≡ listed n paths ++ path ∷ []
listed-put_last n paths path h =
    ap (λ k. listed k (set paths n path)) (omega arith) ∙ put_last n paths path h

pub get_or-set_self {ℓ} :
    {A : Type ℓ} (xs : List A) (i : ℕ) (v d : A) → i < length xs → get_or (set xs i v) i d ≡ v
get_or-set_self [] i v d h = absurd (omega arith)
get_or-set_self (x ∷ xs) zero v d h = refl
get_or-set_self (x ∷ xs) (suc i) v d h = get_or-set_self xs i v d (omega arith)

module _ (ix : PathIndex) where
  open ix use {find, find-add_new}

  pub find-add_created :
      (st : State ix) (i slot : ℕ) (path : Bytes)
      → find path st.servers_by_path ≡ none
      → i < length st.storage_servers
      → find path (add_created ix st i slot path).servers_by_path
        ≡ some (server_at ix (add_created ix st i slot path) i)
  unfolding add_created
  find-add_created st i slot path absent fits =
      find-add_new path _ st.servers_by_path absent
      ∙ ap some (sym (get_or-set_self st.storage_servers i _ blank_server fits))

  pub server_at-add_created :
      (st : State ix) (i slot : ℕ) (path : Bytes)
      → i < length st.storage_servers
      → server_at ix (add_created ix st i slot path) i ≡ record (server_at ix st i) {
        accessible_paths = set (server_at ix st i).accessible_paths slot path;
        num_paths = (server_at ix st i).num_paths + 1;
      }
  unfolding add_created
  server_at-add_created st i slot path fits =
      get_or-set_self st.storage_servers i _ blank_server fits

  -- With fewer than three storage servers and an empty cache, a CREATE of an unknown path is passed
  -- on to the first server. Any answer but "-1" is passed back, and then the path is found at that
  -- server, which lists it behind its other paths.
  pub create_direct-find :
      (order : List ThreadArgs → List ThreadArgs) (net : Net) (st : State ix)
      (request path reply : Bytes)
      → st.cache.head ≡ null
      → find path st.servers_by_path ≡ none
      → st.storage_server_count < 3
      → 0 < length st.storage_servers
      → (server_at ix st 0).num_paths < length (server_at ix st 0).accessible_paths
      → net (server_at ix st 0).ip_address (server_at ix st 0).nm_port request ≡ answered reply
      → accepted reply ≡ true
      → (r : Reaction ix) × (handle_create ix order net st request path ≡ done r)
        × (r.sent
            ≡ to_server (server_at ix st 0).ip_address (server_at ix st 0).nm_port request
              ∷ to_client reply
              ∷ [])
        × (find path r.state.servers_by_path ≡ some (server_at ix r.state 0))
        × (listed (server_at ix r.state 0).num_paths (server_at ix r.state 0).accessible_paths
            ≡ listed (server_at ix st 0).num_paths (server_at ix st 0).accessible_paths
              ++ path ∷ [])
  unfolding handle_create create_if_set create_unless_found create_direct after_create
  create_direct-find order net st request path reply empty absent few slots room answer ok =
      let s = server_at ix st 0 in
      let st' = add_created ix st 0 (server_at ix st 0).num_paths path in
      let few' : leb 3 st.storage_server_count ≡ false = ground arith in
      (
        record {
          state = add_created ix st 0 (server_at ix st 0).num_paths path;
          sent =
              to_server (server_at ix st 0).ip_address (server_at ix st 0).nm_port request
              ∷ to_client reply
              ∷ [];
          alive = true;
        },
        rw (find_server_uncached ix st path empty, handle_create, absent, few', answer, ok),
        refl,
        find-add_created st 0 _ path absent slots,
        ap (λ s. listed s.num_paths s.accessible_paths) (server_at-add_created st 0 _ path slots)
            ∙ listed-put_last _ (server_at ix st 0).accessible_paths path room,
      )
