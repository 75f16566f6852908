-- ===== src/Protocol/Address.antt =====
-- The address that the naming server sends, read by `clientRead`, `clientWrite` and `clientGetSize`
-- (NamingServerModule.c, clientfunctions.c).
use nfs_mock.Base.{
  ℕ, ◌≤◌, ◌<◌, ◌^◌, ◌≡◌, ◌≢◌, refl, sym, ap, ◌∙◌, false, Bool-cases, inl, inr, Option, none, some,
  List, [], ◌∷◌, append-nil, arith, Bytes, codes, str_eq, str_eq_sound, c_str,
}
use nfs_mock.Decimal.{decimal, decimal-IsDigits, decimal-nonempty, IsDigits, atoi, atoi-decimal}
use nfs_mock.Run.{done}
use nfs_mock.NamingServer.{StorageServer}
use nfs_mock.NamingServer.Locate.{address_reply, locate_reply}
use nfs_mock.Client.Session.{
  Event, to_naming_server, printed, Peer, received, after_ack, wait_for_ack, unless_late,
  timeout_seconds,
}
use nfs_mock.Client.Tokens.{tokens, NoBlank, tokens_two}
use nfs_mock.Client.Locate.{
  short_of, after_connect, ask_storage, on_response, read_errors, write_errors, size_errors,
  client_read, client_write, client_get_size,
}

-- the address can be read: a word, and a number of 16 bits
abbrev pub IsAddress : StorageServer → Type 0
IsAddress s = NoBlank s.ip_address × (s.ip_address ≢ []) × (s.client_port < 2 ^ 16)

-- what the client does when it is told the server, or that there is none
abbrev pub told :
    (errors : List Bytes) (before : List Event)
    → Peer
    → (request : Bytes) → Option StorageServer
    → List Event
told errors before peer request none = printed (codes "The file doesn't exist\n") ∷ []
told errors before peer request (some s) =
    after_connect errors before s.ip_address s.client_port request
      (peer.storage s.ip_address s.client_port request)

abbrev pub AreAddresses : Option StorageServer → Type 0
AreAddresses none = Unit
AreAddresses (some s) = IsAddress s

digits-NoBlank : (s : Bytes) → IsDigits s → NoBlank s
digits-NoBlank [] h = tt
digits-NoBlank (c ∷ s) ((lo, hi), h) = (ground arith, digits-NoBlank s h)

tokens-address :
    (s : StorageServer)
    → IsAddress s
    → tokens (address_reply s) ≡ s.ip_address ∷ decimal s.client_port ∷ []
unfolding address_reply
tokens-address s (plain, word, port) =
    tokens_two s.ip_address (decimal s.client_port) plain
      (digits-NoBlank (decimal s.client_port) (decimal-IsDigits s.client_port)) word
      (decimal-nonempty s.client_port)

three_words : {v w : Bytes} → v ∷ w ∷ [] ≢ tokens (codes "File not Found")
unfolding tokens
three_words e = cc

address-is_not_error :
    (s : StorageServer) → IsAddress s → str_eq (address_reply s) (codes "File not Found") ≡ false
address-is_not_error s h = elim (Bool-cases (str_eq (address_reply s) (codes "File not Found"))) [
  | inl same ↦ absurd (three_words (sym (tokens-address s h) ∙ ap tokens (str_eq_sound _ _ same)))
  | inr other ↦ other
]

short-decimal : (n : ℕ) → n < 2 ^ 16 → short_of (atoi (decimal n)) ≡ n
unfolding short_of
short-decimal n h = rw (sym (append-nil (decimal n)), atoi-decimal n [] tt, short_of) (omega arith)

on_response-reply :
    (errors : List Bytes) (before : List Event) (peer : Peer) (request : Bytes)
    (found : Option StorageServer)
    → AreAddresses found
    → on_response peer errors before request (locate_reply found)
      ≡ done (told errors before peer request found)
unfolding on_response locate_reply ask_storage str_eq
on_response-reply errors before peer request none h = refl
on_response-reply errors before peer request (some s) h =
    rw (address-is_not_error s h, tokens-address s h, ask_storage, short-decimal s.client_port h.2)
      refl

pub after_ack_in_time :
    (peer : Peer) (request : Bytes) (go : List Event) (seconds : ℕ)
    → peer.ack ≡ received seconds
    → seconds ≤ timeout_seconds
    → after_ack peer request (done go) ≡ done (to_naming_server request ∷ go)
unfolding after_ack wait_for_ack unless_late
after_ack_in_time peer request go seconds acked in_time = rw acked (ground arith)

-- The acknowledgement comes within three seconds, and the naming server's answer about a path is what
-- it sends for `found`: the server of the path, whose address is a word and a port of 16 bits, or none.
-- READ, WRITE and GETSIZE then connect to that very address and pass the request on, or say that the
-- file does not exist.
pub locate_reply-understood :
    (peer : Peer) (request : Bytes) (found : Option StorageServer) (seconds : ℕ)
    → AreAddresses found
    → peer.ack ≡ received seconds
    → seconds ≤ timeout_seconds
    → c_str peer.response ≡ locate_reply found
    → (client_read peer request
        ≡ done (
            to_naming_server request
            ∷ told read_errors (printed (codes "File is read as :\n") ∷ []) peer request found))
      × (client_write peer request
          ≡ done (
              to_naming_server request
              ∷ printed (codes "SEnten\n")
              ∷ told write_errors [] peer request found))
      × (client_get_size peer request
          ≡ done (to_naming_server request ∷ told size_errors [] peer request found))
unfolding client_read client_write client_get_size
locate_reply-understood peer request found seconds addressed acked in_time answer =
    let reply = λ (errors : List Bytes) (before : List Event).
      on_response-reply errors before peer request found addressed in
    rw answer (
      rw (reply read_errors (printed (codes "File is read as :\n") ∷ []))
          (after_ack_in_time peer request _ seconds acked in_time),
      rw (reply write_errors []) (after_ack_in_time peer request _ seconds acked in_time),
      rw (reply size_errors []) (after_ack_in_time peer request _ seconds acked in_time),
    )
