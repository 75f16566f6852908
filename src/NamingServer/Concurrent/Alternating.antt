-- ===== src/NamingServer/Concurrent/Alternating.antt =====
-- Two threads that put created paths into a server's record, one after the other and in alternation
-- (NamingServerModule.c: the CREATE branch of `handleClientInput` for fewer than three servers).
use nfs_mock.Base.{
  ℕ, ◌+◌, ◌<◌, ◌≡◌, refl, ap, ◌∙◌, none, List, [], ◌∷◌, ◌++◌, append_assoc, arith, Bytes, All,
  length, set, length-set, set-set,
}
use nfs_mock.NamingServer.{listed}
use nfs_mock.NamingServer.Index.{PathIndex}
use nfs_mock.NamingServer.State.{State}
use nfs_mock.NamingServer.Tasks.{server_at}
use nfs_mock.NamingServer.Create.Direct.{listed-put_last}
use nfs_mock.NamingServer.Concurrent.{slot_of, Shared, step, move, step_at, run_schedule}
use nfs_mock.NamingServer.Concurrent.Counts.{begin, IsFinished}

abbrev pub in_turn : List ℕ
in_turn = 0 ∷ 0 ∷ 0 ∷ 0 ∷ 0 ∷ 0 ∷ 1 ∷ 1 ∷ 1 ∷ 1 ∷ 1 ∷ 1 ∷ []

abbrev pub alternating : List ℕ
alternating = 0 ∷ 1 ∷ 0 ∷ 1 ∷ 0 ∷ 1 ∷ 0 ∷ 1 ∷ 0 ∷ 1 ∷ 0 ∷ 1 ∷ []

module _ (ix : PathIndex) where
  -- what the threads share of a state
  abbrev pub shared : State ix → ℕ → Shared ix
  shared st i = record { server = server_at ix st i; table = st.servers_by_path }

  -- Two clients have each a path created at one server, which has room. If one thread finishes
  -- before the other begins, both paths are listed behind the others; if the steps alternate, both
  -- threads finish as well, but only the second path is listed.
  pub alternating_loses :
      (m : Shared ix) (path path' : Bytes)
      → m.server.num_paths + 1 < length m.server.accessible_paths
      → let threads = begin (none, path) ∷ begin (none, path') ∷ [] in
        let r = run_schedule ix in_turn threads m in
        let r' = run_schedule ix alternating threads m in
        let before = listed m.server.num_paths m.server.accessible_paths in
        All IsFinished r.0
        × (listed r.1.server.num_paths r.1.server.accessible_paths ≡ before ++ path ∷ path' ∷ [])
        × All IsFinished r'.0
        × (listed r'.1.server.num_paths r'.1.server.accessible_paths ≡ before ++ path' ∷ [])
  unfolding run_schedule step_at move step slot_of
  alternating_loses m path path' room =
      let n = m.server.num_paths in
      let paths = m.server.accessible_paths in
      (
        (refl, (refl, tt)),
        listed-put_last (n + 1) (set paths n path) path' (omega (arith, length-set paths n path))
            ∙ ap (λ l. l ++ path' ∷ []) (listed-put_last n paths path (omega arith))
            ∙ append_assoc (listed n paths) (path ∷ []) (path' ∷ []),
        (refl, (refl, tt)),
        ap (listed (n + 1)) (set-set paths n path path')
            ∙ listed-put_last n paths path' (omega arith),
      )
