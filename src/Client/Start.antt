-- ===== src/Client/Start.antt =====
-- `main` (clientfunctions.c): the connection to the naming server, and the rounds of the loop.
use nfs_mock.Base.{ℕ, Bool, not, Option, List, [], ◌∷◌, ◌++◌, Bytes, codes}
use nfs_mock.Run.{Run, done, ◌>>=◌}
use nfs_mock.Sockets.{Process, ◌>>◌, going, exit_unless, is_negative}
use nfs_mock.Client.Session.{Event, Peer}
use nfs_mock.Client.Commands.{client_round}

-- The texts are printed before `exit(1)`.
unfoldable pub connect_to_naming_server :
    (socket : Option ℕ) (connected : Bool) → Process (Option ℕ)
connect_to_naming_server socket connected = do
  exit_unless (not (is_negative socket)) (codes "Error in client socket creation\n")
  exit_unless connected (codes "Error in connection establishment\n")
  going socket

-- The rounds, each with what the peers do and the line that is read; a listing is given `rounds` of
-- its loop.
unfoldable pub client_rounds : (rounds : ℕ) → List (Peer × Bytes) → Run (List Event)
unfolding client_round
client_rounds rounds [] = done []
client_rounds rounds ((peer, line) ∷ inputs) = do
  shown ← client_round rounds peer line
  more ← client_rounds rounds inputs
  done (shown ++ more)

unfoldable pub run_client :
    (socket : Option ℕ) (connected : Bool) (rounds : ℕ)
    → List (Peer × Bytes)
    → Process (Run (List Event))
unfolding connect_to_naming_server client_rounds
run_client socket connected rounds inputs = do
  connect_to_naming_server socket connected
  going (client_rounds rounds inputs)
