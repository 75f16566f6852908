-- ===== src/Protocol/Rounds.antt =====
-- One round of a client whose request asks where a path is, through the client, the naming server and a
-- storage server (clientfunctions.c, NamingServerModule.c, StorageServerModule.c).
use nfs_mock.Base.{
  ℕ, ◌≤◌, ◌≡◌, refl, ap, ◌∙◌, true, false, some, List, [], ◌∷◌, ◌++◌, arith, Bytes, codes,
  All-append, Lacks, ==_refl, str_eq_refl, c_str, c_str-append,
}
use nfs_mock.Decimal.{decimal, decimal-IsDigits, IsDigits}
use nfs_mock.Run.{Run, done, ◌>>=◌}
use nfs_mock.Whitespace.{strip}
use nfs_mock.Whitespace.Edges.{IsTrimmed}
use nfs_mock.NamingServer.{StorageServer}
use nfs_mock.NamingServer.Index.{PathIndex}
use nfs_mock.NamingServer.State.{State, Reaction, to_client, initialize_naming_server}
use nfs_mock.NamingServer.Locate.{locate_reply, address_reply, handle_locate}
use nfs_mock.NamingServer.Dispatch
use nfs_mock.NamingServer.Dispatch.{World, locate, path_of, dispatch, handle_client_input}
use nfs_mock.NamingServer.Reachable.{Reach, locate-find}
use nfs_mock.Client.Session.{Event, to_naming_server, to_storage_server, printed, Peer, received}
use nfs_mock.Client.Locate.{
  is_one_of, show_answer, after_connect, read_errors, write_errors, client_read, client_write,
}
use nfs_mock.Client.Commands
use nfs_mock.Client.Commands.{read, write, run_command, client_round}
use nfs_mock.StorageServer.FileSystem.{FileSystem}
use nfs_mock.StorageServer.Files.{execute_client_request}
use nfs_mock.Protocol.Address.{IsAddress, told, locate_reply-understood}
use nfs_mock.Protocol.Requests.{typed, client_request}
use nfs_mock.Protocol.System.{
  second_message, Disks, in_buffer, answer_from, answer_at, disk_after, disks_after, session,
}

-- an address that the client can read, with no NUL in it
abbrev pub IsHost : StorageServer → Type 0
IsHost s = IsAddress s × Lacks 0 s.ip_address

pub digits-Lacks : (s : Bytes) → IsDigits s → Lacks 0 s
digits-Lacks [] h = tt
digits-Lacks (c ∷ s) ((lo, hi), h) = (omega arith, digits-Lacks s h)

address-Lacks : (s : StorageServer) → IsHost s → Lacks 0 (address_reply s)
unfolding address_reply
address-Lacks s (address, lack) =
    All-append _ s.ip_address _ lack
      (omega arith, digits-Lacks (decimal s.client_port) (decimal-IsDigits s.client_port))

module _ (ix : PathIndex) where
  open ix use {find}

  -- the answer to a request that names a known path, or none
  abbrev pub place : (path : Bytes) → State ix → Reaction ix
  place path st = record {
    state = st;
    sent = to_client (codes "ACK") ∷ to_client (locate_reply (find path st.servers_by_path)) ∷ [];
    alive = true;
  }

  abbrev acknowledged : Reaction ix → Run (Reaction ix)
  acknowledged r = done (record r { sent = to_client (codes "ACK") ∷ r.sent })

  pub located :
      (w : World) (st : State ix) (text request path : Bytes)
      → c_str (strip (text ++ 0 ∷ [])) ≡ request
      → Dispatch.command_of request ≡ locate
      → path_of request ≡ path
      → Reach ix (initialize_naming_server ix) st
      → handle_client_input ix w st (text ++ 0 ∷ []) ≡ done (place path st)
  unfolding handle_client_input dispatch
  located w st text request path stripped command named r =
      ap (λ q. dispatch ix w st q (Dispatch.command_of q) >>= acknowledged) stripped
      ∙ ap (λ c. dispatch ix w st request c >>= acknowledged) command
      ∙ ap (λ p. handle_locate ix st p >>= acknowledged) named
      ∙ ap (λ m. m >>= acknowledged) (locate-find ix path r)

  module _ (fs : FileSystem) where
    open fs use {Disk}

    -- A request that both sides take for one that asks where a path is, and the storage server's
    -- answer to it.
    module _ (w : World) (st : State ix) (disks : Disks fs) (seconds rounds : ℕ)
        (text pad path answer : Bytes) (s : StorageServer) (d d' : Disk)
        (r : Reach ix (initialize_naming_server ix) st)
        (known : find path st.servers_by_path ≡ some s) (host : IsHost s)
        (listens : disks s.ip_address s.client_port ≡ some d)
        (served : execute_client_request fs text d ≡ (some answer, d')) (lack : Lacks 0 answer)
        (in_time : seconds ≤ 3) (trimmed : IsTrimmed text) (text-Lacks : Lacks 0 text) where
      -- what the client has to do with during the round
      abbrev peer : Peer
      peer = record {
        ack = received seconds;
        response = second_message (place path st).sent;
        storage = answer_at fs disks;
      }

      answer_there : answer_at fs disks s.ip_address s.client_port text ≡ some (answer ++ 0 ∷ [])
      unfolding answer_at
      answer_there =
          ap (λ o. answer_from fs o text) listens ∙ ap (λ r. some (in_buffer fs r.0)) served

      reply_there : c_str peer.response ≡ locate_reply (some s)
      unfolding locate_reply
      reply_there =
          ap (λ o. c_str (locate_reply o ++ 0 ∷ [])) known
          ∙ c_str-append (address_reply s) [] (address-Lacks s host)

      told_answer :
          (errors : List Bytes) (before : List Event)
          → is_one_of answer errors ≡ false
          → told errors before peer text (some s)
            ≡ to_storage_server s.ip_address s.client_port text ∷ (before ++ printed answer ∷ [])
      unfolding after_connect show_answer
      told_answer errors before no_error =
          ap (after_connect errors before s.ip_address s.client_port text) answer_there
          ∙ rw (c_str-append answer [] lack, no_error) refl

      -- what is left of the round behind the naming server's reaction, and behind the client's events
      abbrev then_client : Reaction ix → Run (List Event × (State ix × Disks fs))
      then_client x =
          client_round rounds
            (record {
              ack = received seconds;
              response = second_message x.sent;
              storage = answer_at fs disks;
            })
            (typed text pad)
          >>= λ e. done (e, (x.state, disks_after fs e disks))

      abbrev ended : List Event → Run (List Event × (State ix × Disks fs))
      ended e = done (e, (st, disks_after fs e disks))

      -- the round, once it is known what the client makes of the answer
      by_round :
          (command : Commands.Command) (request : Bytes) (events : List Event)
          → c_str (strip (text ++ 0 ∷ [])) ≡ request
          → Dispatch.command_of request ≡ locate
          → path_of request ≡ path
          → Commands.command_of text ≡ command
          → run_command rounds peer text command ≡ done events
          → session fs ix seconds rounds w (typed text pad) (st, disks) ≡ ended events
      unfolding session client_round
      by_round command request events stripped located_there named chosen run =
          let asked = client_request text pad trimmed text-Lacks in
          ap (λ q. handle_client_input ix w st (q ++ 0 ∷ []) >>= then_client) asked
          ∙ ap (λ m. m >>= then_client)
              (located w st text request path stripped located_there named r)
          ∙ ap (λ q. run_command rounds peer q (Commands.command_of q) >>= ended) asked
          ∙ ap (λ c. run_command rounds peer text c >>= ended) chosen
          ∙ ap (λ m. m >>= ended) run

      -- what the client makes of the address
      understood :
          (client_read peer text
            ≡ done (
                to_naming_server text
                ∷ told read_errors (printed (codes "File is read as :\n") ∷ []) peer text (some s)))
          × (client_write peer text
              ≡ done (
                  to_naming_server text
                  ∷ printed (codes "SEnten\n")
                  ∷ told write_errors [] peer text (some s)))
      understood =
          let (for_read, for_write, _) =
            locate_reply-understood peer text (some s) seconds host.0 refl in_time reply_there in
          (for_read, for_write)

      disk_there :
          disk_after fs disks s.ip_address s.client_port text s.ip_address s.client_port ≡ some d'
      unfolding disk_after
      disk_there = rw (str_eq_refl s.ip_address, ==_refl s.client_port, listens, served) refl

      -- a READ that is answered with a text that the client does not take for an error
      pub read_round :
          c_str (strip (text ++ 0 ∷ [])) ≡ text
          → Commands.command_of text ≡ read
          → Dispatch.command_of text ≡ locate
          → path_of text ≡ path
          → is_one_of answer read_errors ≡ false
          → session fs ix seconds rounds w (typed text pad) (st, disks)
            ≡ ended (
                to_naming_server text
                ∷ to_storage_server s.ip_address s.client_port text
                ∷ printed (codes "File is read as :\n")
                ∷ printed answer
                ∷ [])
      unfolding run_command
      read_round stripped chosen located_there named no_error =
          by_round read text _ stripped located_there named chosen (
            understood.0
            ∙ ap (λ e. done (to_naming_server text ∷ e))
                (told_answer read_errors (printed (codes "File is read as :\n") ∷ []) no_error))

      pub write_round :
          (request : Bytes)
          → c_str (strip (text ++ 0 ∷ [])) ≡ request
          → Commands.command_of text ≡ write
          → Dispatch.command_of request ≡ locate
          → path_of request ≡ path
          → is_one_of answer write_errors ≡ false
          → (disks' : Disks fs) × (session fs ix seconds rounds w (typed text pad) (st, disks)
              ≡ done (
                to_naming_server text
                    ∷ printed (codes "SEnten\n")
                    ∷ to_storage_server s.ip_address s.client_port text
                    ∷ printed answer
                    ∷ [],
                (st, disks'),
              ))
            × (disks' s.ip_address s.client_port ≡ some d')
      unfolding run_command disks_after
      write_round request stripped chosen located_there named no_error = (
        _,
        by_round write request _ stripped located_there named chosen (
            understood.1
            ∙ ap (λ e. done (to_naming_server text ∷ printed (codes "SEnten\n") ∷ e))
                (told_answer write_errors [] no_error)),
        disk_there,
      )
