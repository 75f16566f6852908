-- ===== src/Examples/Interleavings.antt =====
-- Threads that create paths at the same time.
use nfs_mock.Base.{
  ℕ, ◌+◌, ◌≤◌, ◌≡◌, refl, Option, none, List, [], ◌∷◌, ◌++◌, map, arith, Bytes, All, codes, str_eq,
}
use mathlib.Core.List.Perm
use nfs_mock.NamingServer.{listed}
use nfs_mock.NamingServer.Index.{assoc_index, assoc_find}
use nfs_mock.NamingServer.State.{initialize_naming_server, Reaction}
use nfs_mock.Run.{done}
use nfs_mock.NamingServer.Registration.{handle_storage_server}
use nfs_mock.NamingServer.Tasks.{ThreadArgs}
use nfs_mock.NamingServer.Create.{create_request, create_tasks, handle_create}
use nfs_mock.NamingServer.Create.Orders.{view, create_any_order}
use nfs_mock.NamingServer.Concurrent.{run_schedule}
use nfs_mock.NamingServer.Concurrent.Counts.{begin, IsFinished, interleaved_count}
use nfs_mock.NamingServer.Concurrent.Alternating.{in_turn, alternating, shared, alternating_loses}
use nfs_mock.Examples.Servers.{one, three, net}

-- The thread for the path itself, which is started last, finishes first.
abbrev last_first : List ThreadArgs → List ThreadArgs
last_first (a ∷ b ∷ c ∷ []) = c ∷ a ∷ b ∷ []
last_first tasks = tasks

create_any_order_example :
    (r r' : Reaction assoc_index) × (handle_create assoc_index last_first net three
        (create_request (codes "./b"))
        (codes "./b")
      ≡ done r)
    × (handle_create assoc_index
          (λ tasks. tasks)
          net
          three
          (create_request (codes "./b"))
          (codes "./b")
        ≡ done r')
    × (view assoc_index r.state ≡ view assoc_index r'.state)
unfolding handle_storage_server initialize_naming_server assoc_find str_eq create_tasks listed
create_any_order_example =
    create_any_order assoc_index last_first net three (codes "./b") refl (refl, (refl, (refl, tt)))
      (λ e. cc) refl (Perm.trans (Perm.cons _ (Perm.swap _ _ [])) (Perm.swap _ _ (_ ∷ []))) refl
      refl refl

abbrev two_jobs : List (Option ℕ × Bytes)
two_jobs = (none, codes "./b") ∷ (none, codes "./c") ∷ []

interleaved_count_example :
    let r = run_schedule assoc_index alternating (map begin two_jobs) (shared assoc_index one 0) in
    ((shared assoc_index one 0).server.num_paths + 1 ≤ r.1.server.num_paths)
    × (r.1.server.num_paths ≤ (shared assoc_index one 0).server.num_paths + 2)
unfolding run_schedule handle_storage_server initialize_naming_server
interleaved_count_example =
    interleaved_count assoc_index alternating two_jobs (shared assoc_index one 0) (omega arith)
      (refl, (refl, tt))

alternating_loses_example :
    let m = shared assoc_index one 0 in
    let threads = begin (none, codes "./b") ∷ begin (none, codes "./c") ∷ [] in
    let r = run_schedule assoc_index in_turn threads m in
    let r' = run_schedule assoc_index alternating threads m in
    let before = listed m.server.num_paths m.server.accessible_paths in
    All IsFinished r.0
    × (listed r.1.server.num_paths r.1.server.accessible_paths
        ≡ before ++ codes "./b" ∷ codes "./c" ∷ [])
    × All IsFinished r'.0
    × (listed r'.1.server.num_paths r'.1.server.accessible_paths ≡ before ++ codes "./c" ∷ [])
unfolding handle_storage_server initialize_naming_server
alternating_loses_example =
    alternating_loses assoc_index (shared assoc_index one 0) (codes "./b") (codes "./c")
      (omega arith)
