-- ===== src/Protocol/CopyReply.antt =====
-- The end of a COPY, as the client hears it (NamingServerModule.c, clientfunctions.c: `clientCopy`).
use nfs_mock.Base.{ℕ, ◌≤◌, ◌≡◌, refl, List, [], ◌∷◌, ◌++◌, Bytes, codes, c_str}
use nfs_mock.Decimal.{atoi, decimal}
use nfs_mock.Run.{done}
use nfs_mock.NamingServer.{StorageServer}
use nfs_mock.NamingServer.Index.{PathIndex}
use nfs_mock.NamingServer.State.{State, Action, to_client}
use nfs_mock.NamingServer.Copy.{copied, copy_reaction, stream_to}
use nfs_mock.Client.Session.{to_naming_server, printed, Peer, received, timeout_seconds}
use nfs_mock.Client.Replies.{client_copy, message_of, print_int}
use nfs_mock.Protocol.Address.{after_ack_in_time}

-- the last message to the client
unfoldable pub told_last : List Action → Bytes
told_last [] = []
told_last (to_client b ∷ []) = b
told_last (a ∷ rest) = told_last rest

module _ (ix : PathIndex) where
  told_last-stream :
      (d : StorageServer) (chunks : List Bytes) (b : Bytes)
      → told_last (stream_to ix d chunks ++ to_client b ∷ []) ≡ b
  unfolding told_last
  told_last-stream d [] b = refl
  told_last-stream d (c ∷ chunks) b = told_last-stream d chunks b

  -- When a copy has gone through and the client receives the message that ends it, the client prints
  -- the number 0 and no line.
  pub copied-unheard :
      (st : State ix) (source destination : StorageServer) (requests : Bytes × Bytes)
      (chunks : List Bytes) (peer : Peer) (request : Bytes) (seconds : ℕ)
      → peer.ack ≡ received seconds
      → seconds ≤ timeout_seconds
      → c_str peer.response
        ≡ c_str (told_last (copy_reaction ix st (copied source destination requests chunks)).sent)
      → client_copy peer request
        ≡ done (to_naming_server request ∷ printed (codes "index_case = 0\n") ∷ [])
  unfolding copy_reaction client_copy c_str message_of print_int told_last atoi decimal
  copied-unheard st source destination requests chunks peer request seconds acked in_time answer =
      rw (answer, told_last-stream destination chunks (11 ∷ 0 ∷ 0 ∷ 0 ∷ []))
        (after_ack_in_time peer request _ seconds acked in_time)
