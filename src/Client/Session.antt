-- ===== src/Client/Session.antt =====
-- What the client does with its connection to the naming server (clientfunctions.c): `waitforAck`, and
-- the beginning that all request functions share.
use nfs_mock.Base.{ℕ, Bool, true, false, Option, List, [], ◌∷◌, Bytes, codes, ltb, if◌then◌else◌}
use nfs_mock.Run.{Run, done, fault, ◌>>=◌}

abbrev pub timeout_seconds : ℕ
timeout_seconds = 3

-- What the client sends and prints; `exited` is a call of `exit`.
pub data Event : Type 0 where
  to_naming_server : Bytes → Event
  to_storage_server : (ip : Bytes) (port : ℕ) (request : Bytes) → Event
  printed : Bytes → Event
  exited : Event

-- How the first `recv` ends: it fails, the peer has closed, or it has bytes after so many seconds.
pub data Ack : Type 0 where
  failed closed : Ack
  received : (seconds : ℕ) → Ack

-- The rest of the world during one request: the acknowledgement, the bytes of the answer, and what a
-- storage server at an address answers; `none` is a connection that is not made.
pub record Peer : Type 0 where
  pub ack : Ack
  pub response : Bytes
  pub storage : (ip : Bytes) (port : ℕ) (request : Bytes) → Option Bytes

-- Two of the branches end without `return`: their value must not be used.
unfoldable pub wait_for_ack : Ack → Run Bool
wait_for_ack failed = fault
wait_for_ack closed = fault
wait_for_ack (received seconds) = done (if ltb timeout_seconds seconds then false else true)

unfoldable pub unless_late : Run (List Event) → Bool → Run (List Event)
unless_late go acked =
    if acked then go else done (printed (codes "Acknowledge not received\n") ∷ [])

-- The request is sent; after an acknowledgement in time, the rest of the function runs.
unfoldable pub after_ack : Peer → (request : Bytes) → Run (List Event) → Run (List Event)
unfolding wait_for_ack unless_late
after_ack peer request go = do
  acked ← wait_for_ack peer.ack
  events ← unless_late go acked
  done (to_naming_server request ∷ events)
