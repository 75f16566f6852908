-- ===== src/NamingServer/Connection.antt =====
-- The loop of `handleClientInput` (NamingServerModule.c) over the requests of one client.
use nfs_mock.Base.{◌≡◌, refl, Bool-cases, inl, inr, List, [], ◌∷◌, ◌++◌, Bytes, if◌then◌else◌}
use mathlib.Core.Path.{subst}
use nfs_mock.Run.{Run, done, ◌>>=◌, After, After-bind}
use nfs_mock.NamingServer.Index.{PathIndex}
use nfs_mock.NamingServer.State.{State, Reaction, Action, initialize_naming_server}
use nfs_mock.NamingServer.Dispatch.{World, handle_client_input}
use nfs_mock.NamingServer.Reachable.{Reach, next, requests}

module _ (ix : PathIndex) where
  -- The requests that are received before the client closes or `recv` fails, with what is outside
  -- during each; a request that ends the thread is the last one. What is sent, and the state.
  unfoldable pub serve_client : List (World × Bytes) → State ix → Run (List Action × State ix)
  unfolding handle_client_input
  serve_client [] st = done ([], st)
  serve_client ((w, buffer) ∷ inputs) st = do
    r ← handle_client_input ix w st buffer
    (sent, st') ← (if r.alive then serve_client inputs r.state else done ([], r.state))
    done (r.sent ++ sent, st')

  one_request :
      (w : World) (st st₀ : State ix) (buffer : Bytes) (m : Run (Reaction ix))
      → handle_client_input ix w st buffer ≡ m
      → Reach ix st₀ st
      → After m (λ r. Reach ix st₀ r.state)
  one_request w st st₀ buffer (done r) e reach = next reach (requests w buffer r e refl)
  one_request w st st₀ buffer Run.fault e reach = tt
  one_request w st st₀ buffer Run.timeout e reach = tt

  serve_client-After :
      (inputs : List (World × Bytes)) (st st₀ : State ix)
      → Reach ix st₀ st
      → After (serve_client inputs st) (λ p. Reach ix st₀ p.1)
  unfolding serve_client
  serve_client-After [] st st₀ reach = reach
  serve_client-After ((w, buffer) ∷ inputs) st st₀ reach =
      After-bind (λ r. Reach ix st₀ r.state) (λ p. Reach ix st₀ p.1)
        (handle_client_input ix w st buffer) _
        (one_request w st st₀ buffer (handle_client_input ix w st buffer) refl reach)
        λ r there.
          After-bind (λ p. Reach ix st₀ p.1) (λ p. Reach ix st₀ p.1)
            (if r.alive then serve_client inputs r.state else done ([], r.state)) _
            (elim (Bool-cases r.alive) [
              | inl on ↦ rw on (serve_client-After inputs r.state st₀ there)
              | inr off ↦ rw off there
            ])
            λ p q. q

  -- The state that a client's requests leave is one that is reached, so that all that holds of
  -- these holds of it.
  pub serve_client-Reach :
      (inputs : List (World × Bytes)) (st st' : State ix) (sent : List Action)
      → Reach ix (initialize_naming_server ix) st
      → serve_client inputs st ≡ done (sent, st')
      → Reach ix (initialize_naming_server ix) st'
  serve_client-Reach inputs st st' sent reach run =
      subst (λ m. After m (λ p. Reach ix (initialize_naming_server ix) p.1)) run
        (serve_client-After inputs st (initialize_naming_server ix) reach)
