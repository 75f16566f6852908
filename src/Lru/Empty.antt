-- ===== src/Lru/Empty.antt =====
-- A cache that nothing has been put into.
use nfs_mock.Base.{◌≡◌, false, Bytes, arith}
use nfs_mock.Run.{done}
use nfs_mock.Lru.{Cache, null, search_cache, access_storage_server_cache}

module _ {V : Type 0} where
  -- Looking a path up in it finds nothing and changes nothing.
  pub access_empty :
      (c : Cache V) (key : Bytes)
      → c.head ≡ null
      → access_storage_server_cache c key ≡ done (false, c)
  unfolding access_storage_server_cache search_cache
  access_empty c key e = ground arith
