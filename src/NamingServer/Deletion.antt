-- ===== src/NamingServer/Deletion.antt =====
-- A deleted path is not forgotten (NamingServerModule.c: the DELETE branch of `handleClientInput`).
use nfs_mock.Base.{ℕ, ◌≡◌, refl, true, some, [], ◌∷◌, set, Bytes}
use nfs_mock.Run.{done}
use nfs_mock.NamingServer.{StorageServer}
use nfs_mock.NamingServer.Index.{PathIndex}
use nfs_mock.NamingServer.State.{State, Reaction, to_client, to_server, answered, Net}
use nfs_mock.NamingServer.Tasks.{server_at}
use nfs_mock.NamingServer.Delete.{
  Replies, refresh_server, update_list_of_accessiblepaths, update_at, index_of, delete_answered,
  delete_found, handle_delete,
}

module _ (ix : PathIndex) where
  open ix use {find}

  -- A DELETE of a path whose server is registered, and which answers it and then reports its paths, is
  -- passed on and the answer passed back; the path is found at that server as before, whatever the
  -- answer was.
  pub delete_keeps_path :
      (net : Net) (replies : Replies) (st : State ix) (request path reply : Bytes)
      (s t : StorageServer) (i : ℕ)
      → find path st.servers_by_path ≡ some s
      → net s.ip_address s.nm_port request ≡ answered reply
      → index_of ix st s ≡ some i
      → refresh_server (server_at ix st i) replies ≡ done t
      → (r : Reaction ix) × (handle_delete ix net replies st request path ≡ done r)
        × (r.sent ≡ to_server s.ip_address s.nm_port request ∷ to_client reply ∷ [])
        × (find path r.state.servers_by_path ≡ some s)
  unfolding handle_delete delete_found delete_answered update_at update_list_of_accessiblepaths
  delete_keeps_path net replies st request path reply s t i found answer at refreshed = (
    record {
      state = record st { storage_servers = set st.storage_servers i t };
      sent = to_server s.ip_address s.nm_port request ∷ to_client reply ∷ [];
      alive = true;
    },
    rw (found, answer, at, refreshed),
    refl,
    found,
  )
