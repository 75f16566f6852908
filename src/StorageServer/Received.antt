-- ===== src/StorageServer/Received.antt =====
-- What the listeners of a storage server make of the connections that they accept
-- (StorageServerModule.c: the four `handle…Connections…`).
use nfs_mock.Base.{
  ℕ, zero, suc, ◌-◌, ◌<◌, ◌≤◌, ◌≡◌, ◌≢◌, refl, ap, ◌∙◌, sym, true, false, none, some, List, [], ◌∷◌,
  ◌++◌, map, append_assoc, arith, Bytes, Lacks, All, received_over, c_str, c_str-append, codes,
  length, drop, replicate, drop_inside, All-append, All-drop,
}
use mathlib.Core.Path.{ap₂}
use nfs_mock.Sockets.{reported, started_with}
use nfs_mock.Struct.{int_bytes}
use nfs_mock.StorageServer.Listeners.{
  ThreadArg, Arrival, unaccepted, accepted, cleared, request_text, read_over, accept_clients,
  accept_naming_server, accept_storage_server, start_detached, start_joinable, before,
}

-- A connection on which a text arrives whole and is shorter than the array, with a thread that is
-- created, or an `accept` that fails.
abbrev pub IsPlain : Arrival → Type 0
IsPlain unaccepted = Unit {0}
IsPlain (accepted socket block none created) = ⊥
IsPlain (accepted socket block (some text) created) =
    Lacks 0 text × (length text < length block) × (created ≡ 0)

-- the texts that arrive
abbrev pub texts : List Arrival → List Bytes
texts [] = []
texts (unaccepted ∷ arrivals) = texts arrivals
texts (accepted socket block none created ∷ arrivals) = texts arrivals
texts (accepted socket block (some text) created ∷ arrivals) = text ∷ texts arrivals

abbrev behind : ℕ → Bytes
behind k = 0 ∷ replicate k 0

drop-replicate : (n m : ℕ) → n < m → drop {A = ℕ} n (replicate m 0) ≡ behind (m - suc n)
drop-replicate n zero h = absurd (omega arith)
drop-replicate zero (suc m) h = let less : suc m - 1 ≡ m = omega arith in ap behind (sym less)
drop-replicate (suc n) (suc m) h =
    let less : suc m - suc (suc n) ≡ m - suc n = omega arith in
    drop-replicate n m (omega arith) ∙ ap behind (sym less)

-- A text that is received into a cleared array is the request.
pub cleared_text :
    (text block : Bytes) (socket : ℕ)
    → Lacks 0 text
    → length text < length block
    → request_text (record { request = received_over (cleared block) text; socket = socket }) ≡ text
unfolding request_text received_over
cleared_text text block socket lacks fits =
    ap (λ l. c_str ((text ++ l) ++ int_bytes socket))
      (drop-replicate (length text) (length block) fits)
    ∙ ap c_str
        (append_assoc text (0 ∷ replicate (length block - suc (length text)) 0) (int_bytes socket))
    ∙ c_str-append text _ lacks

-- A text that is received over an older one that is no shorter is followed by the rest of that.
leftover_text :
    (text old rest : Bytes) (socket : ℕ)
    → Lacks 0 text
    → Lacks 0 old
    → length text ≤ length old
    → request_text (record { request = received_over (old ++ 0 ∷ rest) text; socket = socket })
      ≡ text ++ drop (length text) old
unfolding request_text received_over
leftover_text text old rest socket lacks lacks' longer =
    ap (λ l. c_str ((text ++ l) ++ int_bytes socket))
      (drop_inside (length text) old (0 ∷ rest) longer)
    ∙ ap (λ l. c_str (l ++ int_bytes socket))
        (sym (append_assoc text (drop (length text) old) (0 ∷ rest)))
    ∙ ap c_str (append_assoc (text ++ drop (length text) old) (0 ∷ rest) (int_bytes socket))
    ∙ c_str-append (text ++ drop (length text) old) _
        (All-append (λ c. c ≢ 0) text _ lacks (All-drop (λ c. c ≢ 0) (length text) old lacks'))

-- A text that is received over an array that has a zero behind it is the request.
pub ended_text :
    (text block rest : Bytes) (socket : ℕ)
    → Lacks 0 text
    → drop (length text) block ≡ 0 ∷ rest
    → request_text (record { request = received_over block text; socket = socket }) ≡ text
unfolding request_text received_over
ended_text text block rest socket lacks ended =
    ap (λ l. c_str ((text ++ l) ++ int_bytes socket)) ended
    ∙ ap c_str (append_assoc text (0 ∷ rest) (int_bytes socket))
    ∙ c_str-append text _ lacks

-- On the connections of the clients and of other storage servers, if every text arrives whole, in
-- one piece, and is shorter than the array, and every thread can be created, the threads that are
-- started have exactly these texts as their requests, in their order, whatever `malloc` hands out
-- and however often `accept` fails; and the listener for the storage servers goes on.
pub plain_requests :
    (arrivals : List Arrival)
    → All IsPlain arrivals
    → (map request_text (started_with (accept_clients arrivals)) ≡ texts arrivals)
      × (map request_text (started_with (accept_storage_server arrivals).events) ≡ texts arrivals)
      × ((accept_storage_server arrivals).alive ≡ true)
unfolding started_with accept_clients accept_storage_server start_detached start_joinable read_over
plain_requests [] plain = (refl, refl, refl)
plain_requests (unaccepted ∷ arrivals) (_, plain) = plain_requests arrivals plain
plain_requests (accepted socket block none created ∷ arrivals) (p, plain) = absurd p
plain_requests (accepted socket block (some text) zero ∷ arrivals) ((lacks, fits, e), plain) =
    let more = plain_requests arrivals plain in
    let here = cleared_text text block socket lacks fits in
    (ap₂ (λ t l. t ∷ l) here more.0, ap₂ (λ t l. t ∷ l) here more.1, more.2)
plain_requests (accepted socket block (some text) (suc e) ∷ arrivals) ((lacks, fits, h), plain) =
    absurd (omega arith)

-- The array of a request of the naming server is not cleared: if `malloc` hands out the block of an
-- older request, and the new one is no longer than it, the thread's request is the new text with
-- the rest of the older one behind it.
pub leftover_request :
    (text old rest : Bytes) (socket : ℕ) (arrivals : List Arrival)
    → Lacks 0 text
    → Lacks 0 old
    → length text ≤ length old
    → (arg : ThreadArg) × (started_with
          (accept_naming_server (accepted socket (old ++ 0 ∷ rest) (some text) 0 ∷ arrivals)).events
        ≡ arg ∷ started_with (accept_naming_server arrivals).events)
      × (request_text arg ≡ text ++ drop (length text) old)
unfolding started_with accept_naming_server start_detached
leftover_request text old rest socket arrivals lacks lacks' longer =
    (_, refl, leftover_text text old rest socket lacks lacks' longer)

-- A connection on which `recv` fails ends the process: whatever arrives after it, nothing more is done.
pub ended_by_recv :
    (earlier later : List Arrival) (socket created : ℕ) (block : Bytes)
    → let failing = accepted socket block none created in
      (accept_naming_server (earlier ++ failing ∷ later)
        ≡ accept_naming_server (earlier ++ failing ∷ []))
      × (accept_storage_server (earlier ++ failing ∷ later)
          ≡ accept_storage_server (earlier ++ failing ∷ []))
      × ((accept_naming_server (earlier ++ failing ∷ later)).alive ≡ false)
      × ((accept_storage_server (earlier ++ failing ∷ later)).alive ≡ false)
unfolding accept_naming_server accept_storage_server
ended_by_recv [] later socket created block = (refl, refl, refl, refl)
ended_by_recv (unaccepted ∷ earlier) later socket created block =
    let more = ended_by_recv earlier later socket created block in
    (
      ap (before (reported (codes "accept") ∷ [])) more.0,
      ap (before (reported (codes "accept") ∷ [])) more.1,
      more.2,
      more.3,
    )
ended_by_recv (accepted s b none c ∷ earlier) later socket created block = (refl, refl, refl, refl)
ended_by_recv (accepted s b (some text) c ∷ earlier) later socket created block =
    let more = ended_by_recv earlier later socket created block in
    (
      ap (before (start_detached (record { request = received_over b text; socket = s }) c)) more.0,
      ap
          (before
            (start_joinable (record { request = received_over (cleared b) text; socket = s }) c))
          more.1,
      more.2,
      more.3,
    )
