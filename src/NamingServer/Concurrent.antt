-- ===== src/NamingServer/Concurrent.antt =====
-- Threads that put created paths into one server's record at the same time (NamingServerModule.c:
-- the CREATE branch of `handleClientInput` for fewer than three servers, and `send_request_async`).
-- Neither takes `storageServerMutex`, so the steps of several threads can come in any order. A step
-- is one access of the shared memory; a `strcpy` is one step, and so is HASH_ADD_STR, though uthash
-- needs a lock that is not taken: what two of them at once leave of the table is not modelled.
pub mod Counts
pub mod Alternating
use nfs_mock.Base.{ℕ, zero, suc, ◌+◌, Option, none, some, List, [], ◌∷◌, Bytes, set}
use nfs_mock.NamingServer.{StorageServer}
use nfs_mock.NamingServer.Index.{PathIndex}

-- where a thread is: it has the slot, has copied the path, has read the count, has written it, has
-- copied the record, has added the entry
pub data Point : Type 0 where
  ready : Point
  choosing : (slot : ℕ) → Point
  listed_path : Point
  counting : (n : ℕ) → Point
  counted : Point
  copied : StorageServer → Point
  finished : Point

-- A thread with its path; `slot` is the one that it writes to, or `none` where that is the server's
-- count.
pub record Thread : Type 0 where
  pub slot : Option ℕ
  pub path : Bytes
  pub point : Point

unfoldable pub slot_of : Option ℕ → StorageServer → ℕ
slot_of none server = server.num_paths
slot_of (some slot) server = slot

module _ (ix : PathIndex) where
  open ix use {Table, add}

  -- the server's record and the hash table
  pub record Shared : Type 0 where
    pub server : StorageServer
    pub table : Table

  unfoldable pub step : Point → Option ℕ → Bytes → Shared → Point × Shared
  unfolding slot_of
  step ready slot path m = (choosing (slot_of slot m.server), m)
  step (choosing k) slot path m = (
    listed_path,
    record m {
      server = record m.server { accessible_paths = set m.server.accessible_paths k path };
    },
  )
  step listed_path slot path m = (counting m.server.num_paths, m)
  step (counting n) slot path m =
      (counted, record m { server = record m.server { num_paths = n + 1 } })
  step counted slot path m = (copied m.server, m)
  step (copied server) slot path m = (finished, record m { table = add path server m.table })
  step finished slot path m = (finished, m)

  unfoldable pub move : Thread → Shared → Thread × Shared
  unfolding step
  move t m = let (point, m') = step t.point t.slot t.path m in (record t { point = point }, m')

  -- One step of the thread with this number.
  unfoldable pub step_at : ℕ → List Thread → Shared → List Thread × Shared
  unfolding move
  step_at k [] m = ([], m)
  step_at zero (t ∷ threads) m = let (t', m') = move t m in (t' ∷ threads, m')
  step_at (suc k) (t ∷ threads) m = let (threads', m') = step_at k threads m in (t ∷ threads', m')

  -- A schedule gives the number of the thread that makes each step.
  unfoldable pub run_schedule : List ℕ → List Thread → Shared → List Thread × Shared
  unfolding step_at
  run_schedule [] threads m = (threads, m)
  run_schedule (k ∷ schedule) threads m =
      let (threads', m') = step_at k threads m in run_schedule schedule threads' m'
