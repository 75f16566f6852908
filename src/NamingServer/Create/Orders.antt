-- ===== src/NamingServer/Create/Orders.antt =====
-- CREATE with three or more storage servers, whatever thread finishes first (NamingServerModule.c:
-- `handleClientInput` and the threads of `send_request_async`).
use nfs_mock.Base.{
  ℕ, ◌<◌, ◌≤◌, ◌≡◌, ◌≢◌, refl, sym, ap, ◌∙◌, Bool, true, false, Bool-cases, inl, inr, none, some,
  List, [], ◌∷◌, map, arith, Bytes, All, codes, length, drop, get_or, leb, starts_with,
  length-append, length-drop,
}
use mathlib.Core.Path.{subst}
use mathlib.Core.Logic.{∥∥₁_elim}
use mathlib.Core.List.{Perm, Permᴰ}
use mathlib.Core.List.Perm
use mathlib.Core.Quot
use mathlib.Core.Quot.{Quot, Quot-set}
use nfs_mock.Run.{done}
use nfs_mock.Lru.{null}
use nfs_mock.Scanf.{AllSolid}
use nfs_mock.Paths.{remove_prefix}
use nfs_mock.NamingServer.Index.{PathIndex}
use nfs_mock.NamingServer.State.{State, Reaction, Outcome, refused, unsent, answered, Net}
use nfs_mock.NamingServer.Tasks.{create_task, ThreadArgs, accepted, send_request_async, run_tasks}
use nfs_mock.NamingServer.Create.{
  create_request, backup_path, create_args, create_tasks, create_replicated, create_unless_found,
  handle_create,
}
use nfs_mock.NamingServer.Create.Replicated.{
  scan_request, AllSolid-backups, handle_create-unless_found,
}
use nfs_mock.NamingServer.Create.Effects.{
  Effect, effect_of, Apart, Separate, SameView, Absent, act, send-act, Absent-act, act_comm,
  act-SameView, All-permᴰ, Separate-permᴰ,
}

-- an effect, if any, at this server, on this path
abbrev IsAt : ℕ → Bytes → Effect → Type 0
IsAt i p none = Unit
IsAt i p (some (j, q)) = (j ≡ i) × (q ≡ p)

Apart-at :
    (i j : ℕ) (p q : Bytes) (e f : Effect) → i ≢ j → p ≢ q → IsAt i p e → IsAt j q f → Apart e f
Apart-at i j p q none none other ne h h' = tt
Apart-at i j p q none (some f) other ne h h' = tt
Apart-at i j p q (some e) none other ne h h' = tt
Apart-at i j p q (some e) (some f) other ne (at_i, on_p) (at_j, on_q) =
    (λ eq. other (sym at_i ∙ eq ∙ at_j), λ eq. ne (sym on_p ∙ eq ∙ on_q))

length-backup :
    (folder path : Bytes) → 2 ≤ length folder → length path < length (backup_path folder path)
unfolding backup_path remove_prefix
length-backup folder path long = elim (Bool-cases (starts_with path (codes "."))) [
  | inl dotted ↦ rw dotted (omega (arith, length-append folder (drop 1 path), length-drop 1 path))
  | inr plain ↦ rw plain (omega (arith, length-append folder path))
]

backup-ne : (folder path : Bytes) → 2 ≤ length folder → backup_path folder path ≢ path
backup-ne folder path long same =
    absurd (omega (arith, length-backup folder path long, ap length same))

backups-ne :
    (path : Bytes) → backup_path (codes "./Backup0") path ≢ backup_path (codes "./Backup1") path
unfolding backup_path
backups-ne path same =
    let digit : ◌≡◌ {A = ℕ} 48 49 = ap (λ l. get_or l 8 0) same in absurd (omega arith)

module _ (ix : PathIndex) where
  open ix use {find}

  Absent-at :
      (st : State ix) (i : ℕ) (p : Bytes) (e : Effect)
      → find p st.servers_by_path ≡ none
      → IsAt i p e
      → Absent ix st e
  Absent-at st i p none fresh h = tt
  Absent-at st i p (some e) fresh (at_i, on_p) = ap (λ q. find q st.servers_by_path) on_p ∙ fresh

  IsAt-effect :
      (st : State ix) (i : ℕ) (original : Bool) (path : Bytes) (o : Outcome)
      → AllSolid path
      → IsAt i path (effect_of create_task (create_args ix st i original path) o)
  unfolding effect_of create_args
  IsAt-effect st i original path refused solid = tt
  IsAt-effect st i original path unsent solid = tt
  IsAt-effect st i original path (answered reply) solid = elim (Bool-cases (accepted reply)) [
    | inl ok ↦ rw ok (refl, scan_request path solid)
    | inr failed ↦ rw failed tt
  ]

  SameView-trans : (a b c : State ix) → SameView ix a b → SameView ix b c → SameView ix a c
  SameView-trans a b c (s, n, h, f) (s', n', h', f') = (s ∙ s', n ∙ n', h ∙ h', λ p. f p ∙ f' p)

  run_acts : List Effect → State ix → State ix
  run_acts [] st = st
  run_acts (e ∷ effects) st = run_acts effects (act ix e st)

  abbrev effects_of : Net → List ThreadArgs → List Effect
  effects_of net =
      map (λ args. effect_of args.task args (net args.ip_address args.port args.buffer))

  run_tasks-acts :
      (net : Net) (tasks : List ThreadArgs) (st : State ix)
      → (run_tasks ix net st tasks).0 ≡ run_acts (effects_of net tasks) st
  unfolding run_tasks run_acts
  run_tasks-acts net [] st = refl
  run_tasks-acts net (args ∷ tasks) st =
      run_tasks-acts net tasks (send_request_async ix net st args).0
      ∙ ap (run_acts (effects_of net tasks)) (send-act ix net st args)

  abbrev IsFresh : State ix → List Effect → Type 0
  IsFresh st effects = All (Absent ix st) effects × Separate effects

  All-Absent-act :
      (e : Effect) (st : State ix) (effects : List Effect)
      → All (Apart e) effects
      → All (Absent ix st) effects
      → All (Absent ix (act ix e st)) effects
  All-Absent-act e st [] h a = tt
  All-Absent-act e st (f ∷ effects) (h, hs) (a, as_before) =
      (Absent-act ix e f st h a, All-Absent-act e st effects hs as_before)

  run_acts-SameView :
      (effects : List Effect) (st st' : State ix)
      → IsFresh st effects
      → SameView ix st st'
      → SameView ix (run_acts effects st) (run_acts effects st')
  unfolding run_acts
  run_acts-SameView [] st st' h same = same
  run_acts-SameView (e ∷ effects) st st' ((a, absent), (away, sep)) same =
      run_acts-SameView effects (act ix e st) (act ix e st')
        (All-Absent-act e st effects away absent, sep) (act-SameView ix e st st' a same)

  run_acts-perm :
      {xs ys : List Effect} (d : Permᴰ xs ys) (st : State ix)
      → IsFresh st xs
      → SameView ix (run_acts xs st) (run_acts ys st)
  unfolding run_acts
  run_acts-perm Permᴰ.nil st h = (refl, refl, refl, λ p. refl)
  run_acts-perm (Permᴰ.cons {a = a} {l₁ = l} {l₂ = l'} e d) st ((p, absent), (away, sep)) =
      subst (λ c. SameView ix (run_acts l (act ix a st)) (run_acts l' (act ix c st))) e
        (run_acts-perm d (act ix a st) (All-Absent-act a st l away absent, sep))
  run_acts-perm (Permᴰ.swap {a = a} {b = b} {a' = a'} {b' = b'} {l = l} e e') st
        ((p, (q, absent)), ((ab, al), (bl, sep))) =
      let both = All-Absent-act b (act ix a st) l bl (All-Absent-act a st l al absent) in
      subst
        (λ x.
          SameView ix (run_acts l (act ix b (act ix a st))) (run_acts l (act ix b' (act ix x st))))
        e'
        (subst
          (λ y.
            SameView ix (run_acts l (act ix b (act ix a st))) (run_acts l (act ix y (act ix b st))))
          e
          (run_acts-SameView l (act ix b (act ix a st)) (act ix a (act ix b st)) (both, sep)
            (act_comm ix a b st ab p q)))
  run_acts-perm (Permᴰ.trans d d') st (absent, sep) =
      SameView-trans _ _ _ (run_acts-perm d st (absent, sep))
        (run_acts-perm d' st (All-permᴰ (Absent ix st) d absent, Separate-permᴰ d sep))

  three-IsFresh :
      (st : State ix) (b₀ b₁ p : Bytes) (e₁ e₂ e₀ : Effect)
      → find b₀ st.servers_by_path ≡ none
      → find b₁ st.servers_by_path ≡ none
      → find p st.servers_by_path ≡ none
      → b₀ ≢ b₁
      → b₀ ≢ p
      → b₁ ≢ p
      → IsAt 1 b₀ e₁
      → IsAt 2 b₁ e₂
      → IsAt 0 p e₀
      → IsFresh st (e₁ ∷ e₂ ∷ e₀ ∷ [])
  three-IsFresh st b₀ b₁ p e₁ e₂ e₀ f₀ f₁ f n₀₁ n₀ n₁ h₁ h₂ h₀ = (
    (Absent-at st 1 b₀ e₁ f₀ h₁, (Absent-at st 2 b₁ e₂ f₁ h₂, (Absent-at st 0 p e₀ f h₀, tt))),
    (
      (
        Apart-at 1 2 b₀ b₁ e₁ e₂ (λ e. omega arith) n₀₁ h₁ h₂,
        (Apart-at 1 0 b₀ p e₁ e₀ (λ e. omega arith) n₀ h₁ h₀, tt),
      ),
      ((Apart-at 2 0 b₁ p e₂ e₀ (λ e. omega arith) n₁ h₂ h₀, tt), (tt, tt)),
    ),
  )

  tasks-IsFresh :
      (net : Net) (st : State ix) (path : Bytes)
      → AllSolid path
      → find path st.servers_by_path ≡ none
      → find (backup_path (codes "./Backup0") path) st.servers_by_path ≡ none
      → find (backup_path (codes "./Backup1") path) st.servers_by_path ≡ none
      → IsFresh st (effects_of net (create_tasks ix st path))
  unfolding create_tasks
  tasks-IsFresh net st path solid f f₀ f₁ =
      let b₀ = backup_path (codes "./Backup0") path in
      let b₁ = backup_path (codes "./Backup1") path in
      three-IsFresh st b₀ b₁ path _ _ _ f₀ f₁ f (backups-ne path)
        (backup-ne (codes "./Backup0") path (omega arith))
        (backup-ne (codes "./Backup1") path (omega arith))
        (IsAt-effect st 1 false b₀ _ (AllSolid-backups path solid).0)
        (IsAt-effect st 2 false b₁ _ (AllSolid-backups path solid).1)
        (IsAt-effect st 0 true path _ solid)

  -- States up to what can be seen of them.
  abbrev pub View : Type 0
  View = Quot (SameView ix)

  abbrev pub view : State ix → View
  view st = Quot.mk st

  same_view :
      (net : Net) (st : State ix) (tasks tasks' : List ThreadArgs)
      → IsFresh st (effects_of net tasks)
      → Perm tasks tasks'
      → view (run_tasks ix net st tasks).0 ≡ view (run_tasks ix net st tasks').0
  same_view net st tasks tasks' fresh perm = ∥∥₁_elim (Perm.map _ perm) (Quot-set _ _) λ d.
      ap view (run_tasks-acts net tasks st)
      ∙ Quot.sound (run_acts-perm d st fresh)
      ∙ sym (ap view (run_tasks-acts net tasks' st))

  -- Nothing is in the cache, three or more servers are registered, and a path that is not empty and
  -- without whitespace has no server, and neither have its backup paths: a CREATE of it is handled
  -- to its end and leaves the same servers, count and cache, and every path is found at the same
  -- server afterwards, in whatever order the three threads finish, whether their servers answer,
  -- and whatever they answer.
  pub create_any_order :
      (order : List ThreadArgs → List ThreadArgs) (net : Net) (st : State ix) (path : Bytes)
      → st.cache.head ≡ null
      → AllSolid path
      → path ≢ []
      → leb 3 st.storage_server_count ≡ true
      → Perm (create_tasks ix st path) (order (create_tasks ix st path))
      → find path st.servers_by_path ≡ none
      → find (backup_path (codes "./Backup0") path) st.servers_by_path ≡ none
      → find (backup_path (codes "./Backup1") path) st.servers_by_path ≡ none
      → (r r' : Reaction ix) × (handle_create ix order net st (create_request path) path ≡ done r)
        × (handle_create ix (λ tasks. tasks) net st (create_request path) path ≡ done r')
        × (view r.state ≡ view r'.state)
  unfolding create_unless_found create_replicated
  create_any_order order net st path empty solid word three perm fresh fresh₀ fresh₁ = (
    create_unless_found ix order net st (create_request path) path none,
    create_unless_found ix (λ tasks. tasks) net st (create_request path) path none,
    handle_create-unless_found ix order net st path empty solid word three fresh,
    handle_create-unless_found ix (λ tasks. tasks) net st path empty solid word three fresh,
    rw three (
        sym (
          same_view net st (create_tasks ix st path) _
            (tasks-IsFresh net st path solid fresh fresh₀ fresh₁) perm)),
  )
