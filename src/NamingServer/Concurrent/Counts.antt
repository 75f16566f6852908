-- ===== src/NamingServer/Concurrent/Counts.antt =====
-- The count of a server's paths when several threads create some at the same time
-- (NamingServerModule.c: the CREATE branch of `handleClientInput`, `send_request_async`).
use nfs_mock.Base.{
  ℕ, zero, suc, ◌+◌, ◌≤◌, ◌<◌, ◌≡◌, ◌⊎◌, inl, inr, refl, ap, ◌∙◌, Option, List, map, [], ◌∷◌, Bytes,
  All, arith, length,
}
use nfs_mock.NamingServer.Index.{PathIndex}
use nfs_mock.NamingServer.Concurrent.{
  Point, ready, choosing, listed_path, counting, counted, copied, finished, Thread, Shared, step,
  move, step_at, run_schedule,
}

-- 1 for a thread that has written the count
abbrev pub has_counted : Point → ℕ
has_counted ready = 0
has_counted (choosing slot) = 0
has_counted listed_path = 0
has_counted (counting n) = 0
has_counted counted = 1
has_counted (copied server) = 1
has_counted finished = 1

abbrev pub counters : List Thread → ℕ
counters [] = 0
counters (t ∷ threads) = has_counted t.point + counters threads

-- what a thread has read of the count
abbrev IsBetween : (low high : ℕ) → Point → Type 0
IsBetween low high ready = Unit
IsBetween low high (choosing slot) = Unit
IsBetween low high listed_path = Unit
IsBetween low high (counting n) = (low ≤ n) × (n ≤ high)
IsBetween low high counted = Unit
IsBetween low high (copied server) = Unit
IsBetween low high finished = Unit

abbrev Between : (low high : ℕ) → List Thread → Type 0
Between low high = All (λ t. IsBetween low high t.point)

IsBetween-wider :
    (low high more : ℕ) (p : Point) → IsBetween low high p → IsBetween low (high + more) p
IsBetween-wider low high more ready h = tt
IsBetween-wider low high more (choosing slot) h = tt
IsBetween-wider low high more listed_path h = tt
IsBetween-wider low high more (counting n) h = (h.0, omega arith)
IsBetween-wider low high more counted h = tt
IsBetween-wider low high more (copied server) h = tt
IsBetween-wider low high more finished h = tt

Between-wider :
    (low high more : ℕ) (threads : List Thread)
    → Between low high threads
    → Between low (high + more) threads
Between-wider low high more [] h = tt
Between-wider low high more (t ∷ threads) (p, h) =
    (IsBetween-wider low high more t.point p, Between-wider low high more threads h)

-- A thread that has its answer, with the slot that it writes to and its path.
abbrev pub begin : Option ℕ × Bytes → Thread
begin (slot, path) = record { slot = slot; path = path; point = ready }

abbrev pub IsFinished : Thread → Type 0
IsFinished t = t.point ≡ finished

Between-begin : (low high : ℕ) (jobs : List (Option ℕ × Bytes)) → Between low high (map begin jobs)
Between-begin low high [] = tt
Between-begin low high (j ∷ jobs) = (tt, Between-begin low high jobs)

counters-begin : (jobs : List (Option ℕ × Bytes)) → counters (map begin jobs) ≡ 0
counters-begin [] = refl
counters-begin (j ∷ jobs) = omega (arith, counters-begin jobs)

length-begin : (jobs : List (Option ℕ × Bytes)) → length (map begin jobs) ≡ length jobs
length-begin [] = refl
length-begin (j ∷ jobs) = ap suc (length-begin jobs)

counters-finished :
    (threads : List Thread) → All IsFinished threads → counters threads ≡ length threads
counters-finished [] h = refl
counters-finished (t ∷ threads) (e, h) =
    omega (arith, ap has_counted e, counters-finished threads h)

module _ (ix : PathIndex) where
  -- What a step does to the count, which is between two bounds: `more` threads have written it.
  abbrev Counted : (low high before after : ℕ) → (more : ℕ) → Type 0
  Counted low high before after more =
      (low ≤ after) × (after ≤ high + more) × (((more ≡ 0) × (after ≡ before)) ⊎ (low < after))

  step-Counted :
      (low high : ℕ) (p : Point) (slot : Option ℕ) (path : Bytes) (m : Shared ix)
      → IsBetween low high p
      → low ≤ m.server.num_paths
      → m.server.num_paths ≤ high
      → let r = step ix p slot path m in
        (more : ℕ) × (has_counted r.0 ≡ has_counted p + more)
        × IsBetween low (high + more) r.0
        × Counted low high m.server.num_paths r.1.server.num_paths more
  unfolding step
  step-Counted low high ready slot path m h l u =
      (0, omega arith, tt, (omega arith, omega arith, inl (refl, refl)))
  step-Counted low high (choosing k) slot path m h l u =
      (0, omega arith, tt, (omega arith, omega arith, inl (refl, refl)))
  step-Counted low high listed_path slot path m h l u =
      (0, omega arith, (omega arith, omega arith), (omega arith, omega arith, inl (refl, refl)))
  step-Counted low high (counting n) slot path m h l u =
      (1, omega arith, tt, (omega arith, omega arith, inr (omega arith)))
  step-Counted low high counted slot path m h l u =
      (0, omega arith, tt, (omega arith, omega arith, inl (refl, refl)))
  step-Counted low high (copied s) slot path m h l u =
      (0, omega arith, tt, (omega arith, omega arith, inl (refl, refl)))
  step-Counted low high finished slot path m h l u =
      (0, omega arith, tt, (omega arith, omega arith, inl (refl, refl)))

  step_at-Counted :
      (low high k : ℕ) (threads : List Thread) (m : Shared ix)
      → Between low high threads
      → low ≤ m.server.num_paths
      → m.server.num_paths ≤ high
      → let r = step_at ix k threads m in
        (more : ℕ) × (counters r.0 ≡ counters threads + more)
        × Between low (high + more) r.0
        × Counted low high m.server.num_paths r.1.server.num_paths more
  unfolding step_at move
  step_at-Counted low high k [] m h l u = (0, omega arith, tt, (l, omega arith, inl (refl, refl)))
  step_at-Counted low high zero (t ∷ threads) m (p, h) l u =
      let (more, one, in_it, rest) = step-Counted low high t.point t.slot t.path m p l u in
      (more, omega arith, (in_it, Between-wider low high more threads h), rest)
  step_at-Counted low high (suc k) (t ∷ threads) m (p, h) l u =
      let (more, one, in_it, rest) = step_at-Counted low high k threads m h l u in
      (more, omega arith, (IsBetween-wider low high more t.point p, in_it), rest)

  then_Counted :
      (low high a b c more more' : ℕ)
      → Counted low high a b more
      → Counted low (high + more) b c more'
      → Counted low high a c (more + more')
  then_Counted low high a b c more more' (l, u, w) (l', u', inr written) =
      (l', omega arith, inr written)
  then_Counted low high a b c more more' (l, u, inr written) (l', u', inl (none', same)) =
      (l', omega arith, inr (omega arith))
  then_Counted low high a b c more more' (l, u, inl (none', same)) (l', u', inl (none'', same')) =
      (l', omega arith, inl (omega arith, same' ∙ same))

  run-Counted :
      (low high : ℕ) (schedule : List ℕ) (threads : List Thread) (m : Shared ix)
      → Between low high threads
      → low ≤ m.server.num_paths
      → m.server.num_paths ≤ high
      → let r = run_schedule ix schedule threads m in
        (more : ℕ) × (counters r.0 ≡ counters threads + more)
        × Counted low high m.server.num_paths r.1.server.num_paths more
  unfolding run_schedule
  run-Counted low high [] threads m h l u = (0, omega arith, (l, omega arith, inl (refl, refl)))
  run-Counted low high (k ∷ schedule) threads m h l u =
      let (more, one, in_it, rest) = step_at-Counted low high k threads m h l u in
      let r = step_at ix k threads m in
      let (more', one', rest') =
        run-Counted low (high + more) schedule r.0 r.1 in_it rest.0 rest.1 in
      (
        more + more',
        omega arith,
        then_Counted low high m.server.num_paths r.1.server.num_paths _ more more' rest rest',
      )

  length-step_at :
      (k : ℕ) (threads : List Thread) (m : Shared ix)
      → length (step_at ix k threads m).0 ≡ length threads
  unfolding step_at
  length-step_at k [] m = refl
  length-step_at zero (t ∷ threads) m = refl
  length-step_at (suc k) (t ∷ threads) m = ap suc (length-step_at k threads m)

  length-run_schedule :
      (schedule : List ℕ) (threads : List Thread) (m : Shared ix)
      → length (run_schedule ix schedule threads m).0 ≡ length threads
  unfolding run_schedule
  length-run_schedule [] threads m = refl
  length-run_schedule (k ∷ schedule) threads m =
      length-run_schedule schedule _ _ ∙ length-step_at k threads m

  -- Threads that begin together and put paths into one server's record, in any interleaving of
  -- their steps: when all have finished, the server counts at least one path more, and at most as
  -- many more as there were threads.
  pub interleaved_count :
      (schedule : List ℕ) (jobs : List (Option ℕ × Bytes)) (m : Shared ix)
      → 1 ≤ length jobs
      → All IsFinished (run_schedule ix schedule (map begin jobs) m).0
      → let r = run_schedule ix schedule (map begin jobs) m in
        (m.server.num_paths + 1 ≤ r.1.server.num_paths)
        × (r.1.server.num_paths ≤ m.server.num_paths + length jobs)
  interleaved_count schedule jobs m some_job all_done =
      let n = m.server.num_paths in
      let (more, counted_all, (low, high, written)) =
        run-Counted n n schedule (map begin jobs) m (Between-begin n n jobs) (omega arith)
          (omega arith) in
      let as_many : more ≡ length jobs = omega (
        arith,
        counted_all,
        counters-begin jobs,
        length-begin jobs,
        counters-finished _ all_done,
        length-run_schedule schedule (map begin jobs) m,
      ) in
      (
        elim written [ inl (no_more, same) ↦ absurd (omega arith) | inr above ↦ omega arith ],
        omega arith,
      )
