-- ===== src/NamingServer/Accepted.antt =====
-- What the listeners of the naming server make of the connections that they accept
-- (NamingServerModule.c: `startStorageServerListener`, `handleClientRequest`, with
-- `handleStorageServer` in the threads).
use nfs_mock.Base.{
  ℕ, zero, suc, ◌+◌, ◌-◌, ◌≡◌, ◌≢◌, refl, ap, ◌∙◌, sym, false, List, [], ◌∷◌, ◌++◌, map,
  append_assoc, arith, codes, length, take, replicate, set, set_at, ◌==◌, ltb, length-append,
}
use Prim.Native.Nat.{min}
use mathlib.Core.Logic.{∥∥₁_elim}
use mathlib.Core.List.{Perm, Permᴰ}
use native.Mathlib.Nat.{ℕ_set}
use nfs_mock.Sockets.{
  going, Kernel, Event, detached_unset, started_with, going_injective, then-going,
}
use nfs_mock.NamingServer.{StorageServer}
use nfs_mock.NamingServer.Index.{PathIndex}
use nfs_mock.NamingServer.State.{
  State, Action, to_client, blank_server, max_storage_servers, initialize_naming_server,
}
use nfs_mock.NamingServer.Registration.{handle_storage_server, registration}
use nfs_mock.NamingServer.Listeners.{
  Arrival, unaccepted, accepted, start_handler, accept_storage_servers,
  open_storage_server_listener, start_storage_server_listener,
}

-- The threads of `handleStorageServer`, one after the other, as the mutex has them.
unfoldable pub register_servers :
    (ix : PathIndex) → State ix → List StorageServer → State ix × List Action
register_servers ix st [] = (st, [])
register_servers ix st (s ∷ servers) =
    let r = handle_storage_server ix st s in
    let (st', sent) = register_servers ix r.state servers in (st', r.sent ++ sent)

-- The ten slots after so many are in use and these servers have come.
abbrev pub slots : ℕ → List StorageServer → List StorageServer
slots room servers = take room servers ++ replicate (room - length servers) blank_server

abbrev pub told : ℕ → List StorageServer → List Action
told room servers = map to_client (
    replicate (min room (length servers)) (codes "Registration Successful")
    ++ replicate (length servers - room) (codes "Storage server limit reached"))

take_none : (n : ℕ) → ◌≡◌ {A = List StorageServer} (take n []) []
take_none zero = refl
take_none (suc n) = refl

-- The sockets that `accept` gives, of those whose thread is created.
unfoldable pub served : List Arrival → List ℕ
served [] = []
served (unaccepted ∷ arrivals) = served arrivals
served (accepted socket zero ∷ arrivals) = socket ∷ served arrivals
served (accepted socket (suc e) ∷ arrivals) = served arrivals

events_of :
    (k : Kernel) (arrivals : List Arrival) (events : List (Event ℕ))
    → start_storage_server_listener k arrivals ≡ going events
    → accept_storage_servers arrivals ≡ events
unfolding start_storage_server_listener
events_of k arrivals events run =
    going_injective (then-going (open_storage_server_listener k) _ run).1

length-map {ℓ κ} :
    {A : Type ℓ} {B : Type κ} (f : A → B) (xs : List A) → length (map f xs) ≡ length xs
length-map f [] = refl
length-map f (x ∷ xs) = ap suc (length-map f xs)

-- An error number is positive: a thread that cannot be created is not noticed. Nothing reads the
-- socket, and `pthread_detach` is given a variable that was not set.
pub start_handler_failed :
    (socket created : ℕ) → created ≢ 0 → start_handler socket created ≡ detached_unset ∷ []
unfolding start_handler
start_handler_failed socket created failed =
    let e₁ : (created == 0) ≡ false = ground arith in
    let e₂ : ltb created 0 ≡ false = ground arith in rw (e₁, e₂) refl

pub started_with-served :
    (arrivals : List Arrival) → started_with (accept_storage_servers arrivals) ≡ served arrivals
unfolding started_with accept_storage_servers served start_handler
started_with-served [] = refl
started_with-served (unaccepted ∷ arrivals) = started_with-served arrivals
started_with-served (accepted socket zero ∷ arrivals) =
    ap (λ l. socket ∷ l) (started_with-served arrivals)
started_with-served (accepted socket (suc e) ∷ arrivals) =
    ap (λ l. started_with (l ++ accept_storage_servers arrivals))
      (start_handler_failed socket (suc e) (omega arith))
    ∙ started_with-served arrivals

Permᴰ-length {ℓ} : {A : Type ℓ} {xs ys : List A} → Permᴰ xs ys → length xs ≡ length ys
Permᴰ-length Permᴰ.nil = refl
Permᴰ-length (Permᴰ.cons e p) = ap suc (Permᴰ-length p)
Permᴰ-length (Permᴰ.swap e e') = refl
Permᴰ-length (Permᴰ.trans p q) = Permᴰ-length p ∙ Permᴰ-length q

Perm-length {ℓ} : {A : Type ℓ} {xs ys : List A} → Perm xs ys → length xs ≡ length ys
Perm-length {xs} {ys} p = ∥∥₁_elim p (ℕ_set (length xs) (length ys)) Permᴰ-length

minus_none : (n : ℕ) → n - 0 ≡ n
minus_none n = omega arith

plus : (n : ℕ) → 0 + n ≡ n
plus n = omega arith

none_minus : (n : ℕ) → 0 - n ≡ 0
none_minus n = omega arith

minus-suc : (n k : ℕ) → suc n - suc k ≡ n - k
minus-suc n k = omega arith

told-none : (room : ℕ) → ◌≡◌ {A = List Action} [] (told room [])
told-none room = let few : min room 0 ≡ 0 = omega arith in rw (few, none_minus room) refl

told-full :
    (servers : List StorageServer)
    → told 0 servers
      ≡ map to_client (replicate (length servers) (codes "Storage server limit reached"))
told-full servers =
    let few : min 0 (length servers) ≡ 0 = omega arith in rw (few, minus_none (length servers)) refl

slots-cons :
    (room : ℕ) (s : StorageServer) (servers : List StorageServer)
    → slots (suc room) (s ∷ servers) ≡ s ∷ slots room servers
slots-cons room s servers = rw (minus-suc room (length servers)) refl

told-cons :
    (room : ℕ) (s : StorageServer) (servers : List StorageServer)
    → told (suc room) (s ∷ servers)
      ≡ to_client (codes "Registration Successful") ∷ told room servers
told-cons room s servers =
    let more : min (suc room) (suc (length servers)) ≡ suc (min room (length servers)) =
      omega arith in
    rw (more, minus-suc (length servers) room) refl

module _ (ix : PathIndex) where
  full_lem :
      (st : State ix) (servers : List StorageServer)
      → ltb st.storage_server_count max_storage_servers ≡ false
      → register_servers ix st servers
        ≡ (st, map to_client (replicate (length servers) (codes "Storage server limit reached")))
  unfolding register_servers handle_storage_server
  full_lem st [] full = refl
  full_lem st (s ∷ servers) full = rw full (
      ap
        (λ (p : State ix × List Action).
          (p.0, to_client (codes "Storage server limit reached") ∷ p.1))
        (full_lem st servers full))

  filled :
      (st : State ix) (out servers : List StorageServer) (room : ℕ)
      → st.storage_servers ≡ out ++ replicate room blank_server
      → st.storage_server_count ≡ length out
      → length out + room ≡ max_storage_servers
      → let r = register_servers ix st servers in
        (r.0.storage_servers ≡ out ++ slots room servers)
        × (r.0.storage_server_count ≡ length out + min room (length servers))
        × (r.1 ≡ told room servers)
  unfolding register_servers handle_storage_server
  filled st out [] room slotted counted fits =
      (rw (take_none room, minus_none room) slotted, omega arith, told-none room)
  filled st out (s ∷ servers) zero slotted counted fits =
      let e = full_lem st (s ∷ servers) (ground arith) in
      (
        ap (λ p. p.0.storage_servers) e ∙ rw (none_minus (suc (length servers))) slotted,
        ap (λ p. p.0.storage_server_count) e ∙ omega arith,
        ap (λ p. p.1) e ∙ sym (told-full (s ∷ servers)),
      )
  filled st out (s ∷ servers) (suc room) slotted counted fits =
      let here = registration ix st s [] (omega arith) in
      let st' = (handle_storage_server ix st s).state in
      let more =
        filled st' (out ++ s ∷ []) servers room
          (here.1
            ∙ ap (λ l. set l st.storage_server_count s) slotted
            ∙ set_at out blank_server s (replicate room blank_server) st.storage_server_count
                counted
            ∙ sym (append_assoc out (s ∷ []) (replicate room blank_server)))
          (omega (arith, here.0, length-append out (s ∷ [])))
          (omega (arith, length-append out (s ∷ []))) in
      (
        more.0
            ∙ append_assoc out (s ∷ []) (slots room servers)
            ∙ ap (λ l. out ++ l) (sym (slots-cons room s servers)),
        more.1 ∙ omega (arith, length-append out (s ∷ [])),
        ap (λ l. l ++ (register_servers ix st' servers).1) here.2
            ∙ ap (λ l. to_client (codes "Registration Successful") ∷ l) more.2
            ∙ sym (told-cons room s servers),
      )

  -- If the listener for the storage servers gets its socket, then the servers whose connections it
  -- accepts and for which a thread is created are registered, whatever `accept` fails in between
  -- and in whatever order the threads get the mutex: the first ten of that order stand in the
  -- slots, the other slots stay blank, so many are counted, and those first ten are told of their
  -- success, all others of the limit.
  pub registered_slots :
      (k : Kernel) (arrivals : List Arrival) (events : List (Event ℕ))
      (server_of : ℕ → StorageServer) (order : List ℕ)
      → start_storage_server_listener k arrivals ≡ going events
      → Perm order (started_with events)
      → let r = register_servers ix (initialize_naming_server ix) (map server_of order) in
        (r.0.storage_servers ≡ slots max_storage_servers (map server_of order))
        × (r.0.storage_server_count ≡ min max_storage_servers (length (served arrivals)))
        × (r.1 ≡ told max_storage_servers (map server_of order))
  unfolding initialize_naming_server
  registered_slots k arrivals events server_of order run perm =
      let all = filled (initialize_naming_server ix) [] (map server_of order) 10 refl refl refl in
      (
        all.0,
        all.1
            ∙ plus (min max_storage_servers (length (map server_of order)))
            ∙ ap (λ n. min max_storage_servers n)
                (length-map server_of order
                  ∙ Perm-length perm
                  ∙ ap (λ l. length (started_with l)) (sym (events_of k arrivals events run))
                  ∙ ap length (started_with-served arrivals)),
        all.2,
      )
