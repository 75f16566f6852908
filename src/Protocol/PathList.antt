-- ===== src/Protocol/PathList.antt =====
-- The paths that a storage server sends (StorageServerModule.c: GETPATHS), received by the naming
-- server (NamingServerModule.c: `update_list_of_accessiblepaths`). Each `recv` yields one message here,
-- although the storage server sends its OK and the first path one behind the other, without waiting
-- in between.
use nfs_mock.Base.{
  c_str, received_over, c_str-received_over, get_or, ℕ, suc, ◌≤◌, ◌≡◌, refl, sym, ap, ◌∙◌, some,
  List, [], ◌∷◌, ◌++◌, append_assoc, append-nil, map, arith, Bytes, codes, length, replicate, drop,
  set_at, length-append, length-replicate, str_eq, str_eq_refl,
}
use nfs_mock.Decimal.{pos, decimal, decimal-IsDigits, atoi, atoi-decimal}
use nfs_mock.Protocol.Rounds.{digits-Lacks}
use mathlib.Core.Path.{ap₂, subst}
use nfs_mock.Run.{done}
use nfs_mock.NamingServer.{StorageServer, listed}
use nfs_mock.NamingServer.Delete.{
  receive_paths, receive_list, refresh_server, update_sends, answer_paths, answer_list, count_text,
  as_count,
}
use nfs_mock.StorageServer.Scan.{send_paths, after_count, get_paths}

-- A storage server that is asked for its paths sends these messages, if they are what it sends for
-- what the naming server sends upon them, each `recv` yielding one message. `stack` is what the naming server's array held.
abbrev pub IsExchange : (paths : List Bytes) → (stack : Bytes) → (sent : List Bytes) → Type 0
IsExchange paths stack sent =
    sent ≡ get_paths paths (drop 1 (update_sends (some (stack, map some sent))))

-- A path for each OK, and an OK for each path.
send_all :
    (paths : List Bytes) → paths ≡ send_paths paths (answer_paths (length paths) (map some paths))
unfolding send_paths answer_paths str_eq
send_all [] = refl
send_all (p ∷ paths) = ap (λ l. p ∷ l) (send_all paths)

only_all :
    (paths sent : List Bytes)
    → sent ≡ send_paths paths (answer_paths (length paths) (map some sent))
    → sent ≡ paths
unfolding send_paths answer_paths str_eq
only_all [] sent e = e
only_all (p ∷ paths) [] e = absurd (omega (arith, ap length e))
only_all (p ∷ paths) (q ∷ sent) e =
    ap₂ (λ c l. c ∷ l) (ap (λ l. get_or l 0 []) e) (only_all paths sent (ap (λ l. drop 1 l) e))

-- The count comes first, and the answer to it depends on what the array holds behind it.
first_count :
    (paths sent : List Bytes) (stack : Bytes)
    → IsExchange paths stack sent
    → (rest : List Bytes) × (sent ≡ decimal (length paths) ∷ rest)
unfolding get_paths
first_count paths sent stack e = (_, e)

receive_all :
    (paths front rest : List Bytes) (i : ℕ)
    → i ≡ length front
    → length paths ≤ length rest
    → receive_paths (length paths) i (map some paths) (front ++ rest)
      ≡ front ++ (paths ++ drop (length paths) rest)
unfolding receive_paths
receive_all [] front rest i e h = refl
receive_all (p ∷ paths) front [] i e h = absurd (omega arith)
receive_all (p ∷ paths) front (x ∷ rest) i e h =
    ap (λ l. receive_paths (length paths) (suc i) (map some paths) l)
      (set_at front x p rest i e ∙ sym (append_assoc front (p ∷ []) rest))
    ∙ receive_all paths (front ++ p ∷ []) rest (suc i) (omega (arith, length-append front (p ∷ [])))
        (omega arith)
    ∙ append_assoc front (p ∷ []) (paths ++ drop (length paths) rest)

pub listed-append : (paths rest : List Bytes) → listed (length paths) (paths ++ rest) ≡ paths
unfolding listed
listed-append [] rest = refl
listed-append (p ∷ paths) rest = ap (λ l. p ∷ l) (listed-append paths rest)

atoi_count : (n : ℕ) → atoi (decimal n) ≡ pos n
atoi_count n = ap atoi (sym (append-nil (decimal n))) ∙ atoi-decimal n [] tt

module _ (paths : List Bytes) (stack : Bytes) where
  abbrev count : Bytes
  count = decimal (length paths)

  -- the string in the array once the count has arrived
  abbrev pub echo : Bytes
  echo = c_str (received_over stack count)

  behind_count :
      (rest : List Bytes)
      → IsExchange paths stack (count ∷ rest)
      → rest ≡ after_count count paths (echo ∷ answer_list (as_count (atoi echo)) (map some rest))
  unfolding get_paths update_sends count_text
  behind_count rest e = ap (λ l. drop 1 l) e

  list_behind :
      (rest : List Bytes)
      → rest ≡ codes "OK" ∷ send_paths paths (answer_list (length paths) (map some rest))
      → rest ≡ codes "OK" ∷ paths
  unfolding answer_list str_eq
  list_behind [] e = absurd (omega (arith, ap length e))
  list_behind (ok ∷ tail) e =
      let said : ok ≡ codes "OK" = ap (λ l. get_or l 0 []) e in
      ap₂ (λ c l. c ∷ l) said
        (only_all paths tail (
          ap (λ l. drop 1 l) e
          ∙ ap (λ m. send_paths paths (answer_list (length paths) (some m ∷ map some tail))) said))

  -- A count that is echoed is followed by all paths.
  understood :
      (sent : List Bytes)
      → echo ≡ count
      → IsExchange paths stack sent
      → sent ≡ count ∷ codes "OK" ∷ paths
  unfolding after_count
  understood sent same e =
      let (rest, first) = first_count paths sent stack e in
      let follows = behind_count rest (subst (IsExchange paths stack) first e) in
      first
      ∙ ap (λ l. count ∷ l)
          (list_behind rest (
            follows
            ∙ ap
                (λ c. after_count count paths (c ∷ answer_list (as_count (atoi c)) (map some rest)))
                same
            ∙ rw (str_eq_refl count, atoi_count (length paths)) refl))

  echoed : (rest : Bytes) → drop (length count) stack ≡ 0 ∷ rest → echo ≡ count
  echoed rest ended =
      c_str-received_over stack count rest (digits-Lacks _ (decimal-IsDigits (length paths))) ended

  IsExchange-all : echo ≡ count → IsExchange paths stack (count ∷ codes "OK" ∷ paths)
  unfolding get_paths after_count update_sends count_text answer_list str_eq
  IsExchange-all same =
      rw (same, atoi_count (length paths), str_eq_refl count)
        (ap (λ l. count ∷ codes "OK" ∷ l) (send_all paths))

  -- A storage server with at most as many paths as the naming server has room for is asked for
  -- them, each `recv` yields one message, and the naming server's array holds a zero right behind the
  -- count. Then the two can only
  -- exchange all the paths: the storage server sends the count, OK and the paths, and the list that
  -- the naming server holds afterwards is the list sent, in its order.
  pub paths_round_trip :
      (rest : Bytes) (s : StorageServer)
      → drop (length count) stack ≡ 0 ∷ rest
      → length paths ≤ length s.accessible_paths
      → let all = count ∷ codes "OK" ∷ paths in
        IsExchange paths stack all
        × ((sent : List Bytes) → IsExchange paths stack sent → sent ≡ all)
        × (t : StorageServer) × (refresh_server s (some (stack, map some all)) ≡ done t)
        × (t.num_paths ≡ length paths)
        × (listed t.num_paths t.accessible_paths ≡ paths)
  unfolding refresh_server receive_list count_text str_eq
  paths_round_trip rest s ended room =
      let slots : List Bytes = replicate (length s.accessible_paths) [] in
      let same = echoed rest ended in
      (
        IsExchange-all same,
        λ sent e. understood sent same e,
        record s {
          num_paths = length paths;
          accessible_paths = receive_paths (length paths) 0 (map some paths) slots;
        },
        rw (same, atoi_count (length paths)) refl,
        refl,
        ap (listed (length paths)) (
              receive_all paths [] slots 0 refl
                (omega (arith, length-replicate {A = Bytes} (length s.accessible_paths) [])))
            ∙ listed-append paths (drop (length paths) slots),
      )
