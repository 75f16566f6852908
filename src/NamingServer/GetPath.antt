-- ===== src/NamingServer/GetPath.antt =====
-- `get_path_ss` (NamingServerModule.c), which nothing calls.
use nfs_mock.Base.{◌≡◌, refl, Bool, Option, none, some, Bytes}
use nfs_mock.Run.{Run, done, fault, ◌>>=◌}
use nfs_mock.Lru.{null}
use nfs_mock.NamingServer.{StorageServer}
use nfs_mock.NamingServer.Index.{PathIndex}
use nfs_mock.NamingServer.State.{State}
use nfs_mock.NamingServer.Locate.{find_server, find_server_uncached}

module _ (ix : PathIndex) where
  open ix use {find}

  -- The address is copied through a pointer that nothing has set; `found_flag` is what the flag
  -- holds before.
  unfoldable pub copy_address :
      (found_flag : Bool) → Option StorageServer → State ix → Run (Bool × State ix)
  copy_address found_flag none st = done (found_flag, st)
  copy_address found_flag (some s) st = fault

  unfoldable pub get_path_ss : (found_flag : Bool) → State ix → Bytes → Run (Bool × State ix)
  unfolding find_server copy_address
  get_path_ss found_flag st path = do
    (found, st') ← find_server ix st path
    copy_address found_flag found st'

  -- While nothing has been put into the cache, a path without a server leaves the flag and the
  -- state as they are, and any other path is a fault.
  pub get_path_ss_lem :
      (found_flag : Bool) (st : State ix) (path : Bytes)
      → st.cache.head ≡ null
      → get_path_ss found_flag st path ≡ copy_address found_flag (find path st.servers_by_path) st
  unfolding get_path_ss
  get_path_ss_lem found_flag st path empty = rw (find_server_uncached ix st path empty) refl
