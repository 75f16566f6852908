-- ===== src/StorageServer/Reports.antt =====
-- What a conversation with another storage server reports to the naming server (StorageServerModule.c:
-- the COPY branch of `executeNMRequest`).
use nfs_mock.Base.{
  ℕ, ◌≤◌, ◌≡◌, refl, ap, Bool, true, false, Option, none, some, List, [], ◌∷◌, ◌++◌, map, Bytes,
  codes, length, arith, starts_with, str_eq, str_eq_refl, if◌then◌else◌,
}
use nfs_mock.Decimal.{decimal}
use nfs_mock.Run.{Run, After, After-bind}
use nfs_mock.Paths.{replace_prefix}
use nfs_mock.StorageServer.Transfer.{
  Reply, unsent, unheard, heard, Log, exits, tells, after_sending, say, one_buffer,
  send_directories, send_count,
}

-- The naming server is told at most one code, and if it is told of a success, just this has been
-- sent to the other server.
abbrev pub IsReport : List Bytes → Log → Type 0
IsReport messages log = (length log.told ≤ 1) × (log.told ≡ codes "11" ∷ [] → log.sent ≡ messages)

pub other_code :
    (code : Bytes) (messages : List Bytes)
    → str_eq code (codes "11") ≡ false
    → After (tells code) (IsReport messages)
other_code code messages h = (omega arith, λ told. cc (h, str_eq_refl (codes "11"), told))

pub after_sending-IsReport :
    (text : Bytes) (messages : List Bytes) (m : Run Log)
    → After m (IsReport messages)
    → After (after_sending text m) (IsReport (text ∷ messages))
after_sending-IsReport text messages m h =
    After-bind (IsReport messages) (IsReport (text ∷ messages)) m _ h
      λ log (few, k). (few, λ told. ap (λ ms. text ∷ ms) (k told))

pub exits-IsReport : (messages : List Bytes) → After exits (IsReport messages)
exits-IsReport messages = (omega arith, λ told. cc)

pub say-IsReport :
    (text : Bytes) (messages : List Bytes) (lost : Run Log) (replies : List Reply)
    (go : Bytes → List Reply → Run Log)
    → After lost (IsReport (text ∷ messages))
    → ((reply : Bytes) (rest : List Reply) → After (go reply rest) (IsReport messages))
    → After (say text lost replies go) (IsReport (text ∷ messages))
unfolding say
say-IsReport text messages lost [] go h k = tt
say-IsReport text messages lost (unsent ∷ replies) go h k = h
say-IsReport text messages lost (unheard ∷ replies) go h k =
    after_sending-IsReport text messages exits (exits-IsReport messages)
say-IsReport text messages lost (heard reply ∷ replies) go h k =
    after_sending-IsReport text messages (go reply replies) (k reply replies)

-- either way of a test
pub by_test :
    (b : Bool) (messages : List Bytes) (m n : Run Log)
    → After m (IsReport messages)
    → After n (IsReport messages)
    → After (if b then m else n) (IsReport messages)
by_test true messages m n h k = h
by_test false messages m n h k = k

abbrev pub replaced : (parent path2 : Bytes) → Bytes → Bytes
replaced parent path2 p = replace_prefix p parent path2

pub send_directories-IsReport :
    (parent path2 : Bytes) (paths messages : List Bytes) (replies : List Reply)
    (go : List Reply → Run Log)
    → ((rest : List Reply) → After (go rest) (IsReport messages))
    → After
        (send_directories parent path2 paths replies go)
        (IsReport (map (replaced parent path2) paths ++ messages))
unfolding send_directories str_eq
send_directories-IsReport parent path2 [] messages replies go h = h replies
send_directories-IsReport parent path2 (p ∷ paths) messages replies go h =
    say-IsReport _ _ exits replies _ (exits-IsReport _) λ reply rest.
      by_test (starts_with reply (codes "OK")) _ _ _
        (send_directories-IsReport parent path2 paths messages rest go h)
        (other_code (codes "5") _ refl)

pub send_count-IsReport :
    (n : ℕ) (otherwise : Run Log) (messages : List Bytes) (replies : List Reply)
    (go : List Reply → Run Log)
    → After otherwise (IsReport messages)
    → ((rest : List Reply) → After (go rest) (IsReport messages))
    → After (send_count n otherwise replies go) (IsReport (decimal n ∷ messages))
unfolding send_count
send_count-IsReport n otherwise messages replies go h k =
    say-IsReport _ _ exits replies _ (exits-IsReport _)
      λ reply rest. by_test (str_eq (decimal n) reply) _ _ _ (k rest) h

-- what goes over of a file
abbrev pub content_of : Option (Option Bytes) → Bytes
content_of none = []
content_of (some content) = one_buffer content
