-- ===== src/NamingServer/Locate.antt =====
-- Finding the server of a path, and the READ, WRITE and GETSIZE branch of `handleClientInput`
-- (NamingServerModule.c).
use nfs_mock.Base.{◌≡◌, true, Option, none, some, [], ◌∷◌, ◌++◌, Bytes, codes, if◌then◌else◌}
use nfs_mock.Decimal.{decimal}
use nfs_mock.Run.{Run, done, ◌>>=◌}
use nfs_mock.Lru.{null, load, access_storage_server_cache}
use nfs_mock.Lru.Empty.{access_empty}
use nfs_mock.NamingServer.{StorageServer}
use nfs_mock.NamingServer.Index.{PathIndex}
use nfs_mock.NamingServer.State.{State, Reaction, to_client}

-- "%s %d" of the server's address and client port
unfoldable pub address_reply : StorageServer → Bytes
address_reply s = s.ip_address ++ b' ' ∷ decimal s.client_port

unfoldable pub locate_reply : Option StorageServer → Bytes
unfolding address_reply
locate_reply none = codes "File not Found"
locate_reply (some s) = address_reply s

module _ (ix : PathIndex) where
  open ix use {find}

  -- The hash table is asked, and then the cache; a hit there takes the place of what was found.
  unfoldable pub find_server : State ix → Bytes → Run (Option StorageServer × State ix)
  unfolding access_storage_server_cache load
  find_server st path = do
    (hit, cache) ← access_storage_server_cache st.cache path
    if hit
        then (do n ← load cache.heap cache.head; done (some n.server, record st { cache = cache }))
        else done (find path st.servers_by_path, record st { cache = cache })

  unfoldable pub handle_locate : State ix → Bytes → Run (Reaction ix)
  unfolding find_server locate_reply
  handle_locate st path = do
    (found, st') ← find_server st path
    done (record { state = st'; sent = to_client (locate_reply found) ∷ []; alive = true })

  -- While nothing has been put into the cache, the hash table alone answers, and nothing changes.
  pub find_server_uncached :
      (st : State ix) (path : Bytes)
      → st.cache.head ≡ null
      → find_server st path ≡ done (find path st.servers_by_path, st)
  unfolding find_server
  find_server_uncached st path empty = rw (access_empty st.cache path empty, find_server)
