-- ===== src/Client/Ended.antt =====
-- The loop of `main` (clientfunctions.c) when the input has ended: `fgets` leaves the cleared array as it is.
use nfs_mock.Base.{
  ℕ, zero, suc, ◌≡◌, refl, ap, ◌∙◌, List, [], ◌∷◌, ◌++◌, Bytes, codes, replicate, starts_with,
  c_str,
}
use nfs_mock.Run.{Run, done, ◌>>=◌}
use nfs_mock.Whitespace.{client_strip}
use nfs_mock.Client.Session.{Event, printed, Peer}
use nfs_mock.Client.Commands.{client_round, command_of}
use nfs_mock.Client.Start.{client_rounds}

abbrev pub cleared_line : Bytes
cleared_line = replicate 1000 0

ended_round :
    (rounds : ℕ) (peer : Peer)
    → client_round rounds peer cleared_line ≡ done (printed (codes "Invalid request\n") ∷ [])
unfolding client_round command_of client_strip starts_with c_str
ended_round rounds peer = refl

-- When the input has ended, every round of the loop prints that the request is invalid, and the loop goes on.
pub rounds_ended :
    (rounds : ℕ) (peer : Peer) (n : ℕ)
    → client_rounds rounds (replicate n (peer, cleared_line))
      ≡ done (replicate n (printed (codes "Invalid request\n")))
unfolding client_rounds
rounds_ended rounds peer zero = refl
rounds_ended rounds peer (suc n) =
    ap
      (λ (m : Run (List Event)). m >>= λ shown.
        client_rounds rounds (replicate n (peer, cleared_line)) >>= λ more. done (shown ++ more))
      (ended_round rounds peer)
    ∙ ap (λ (m : Run (List Event)). m >>= λ more. done (printed (codes "Invalid request\n") ∷ more))
        (rounds_ended rounds peer n)
