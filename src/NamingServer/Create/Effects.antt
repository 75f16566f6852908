-- ===== src/NamingServer/Create/Effects.antt =====
-- What a finished thread of `send_request_async` (NamingServerModule.c) does to the state, and when
-- two of them can be exchanged.
use nfs_mock.Base.{
  ℕ, ◌≡◌, ◌≢◌, refl, sym, ap, ◌∙◌, Bool-cases, inl, inr, Option, none, some, List, [], ◌∷◌, Bytes,
  All, get_or, set, get_or-set_ne, set_comm, str_eq, str_eq_sound, if◌then◌else◌,
}
use mathlib.Core.Path.{subst}
use mathlib.Core.List.{Permᴰ}
use nfs_mock.NamingServer.{StorageServer}
use nfs_mock.NamingServer.Index.{PathIndex}
use nfs_mock.NamingServer.State.{State, Outcome, refused, unsent, answered, Net, blank_server}
use nfs_mock.NamingServer.Registration.{ne_of_str_eq}
use nfs_mock.NamingServer.Tasks.{
  Task, write_task, create_task, delete_task, ThreadArgs, accepted, server_at, put_path,
  add_created, finish_task, after_outcome, send_request_async,
}
use nfs_mock.Scanf.{scan_two}

-- the server and the path that a finished thread puts in, if any
abbrev pub Effect : Type 0
Effect = Option (ℕ × Bytes)

unfoldable pub effect_of : Task → ThreadArgs → Outcome → Effect
effect_of task args refused = none
effect_of task args unsent = none
effect_of create_task args (answered reply) =
    if accepted reply then some (args.storage_server_index, (scan_two args.buffer).1) else none
effect_of write_task args (answered reply) = none
effect_of delete_task args (answered reply) = none

-- Two effects at different servers, on different paths.
abbrev pub Apart : Effect → Effect → Type 0
Apart (some (i, p)) (some (j, q)) = (i ≢ j) × (p ≢ q)
Apart _ _ = Unit

Apart-symm : (e f : Effect) → Apart e f → Apart f e
Apart-symm none none h = tt
Apart-symm none (some f) h = tt
Apart-symm (some e) none h = tt
Apart-symm (some e) (some f) (h, h') = (λ eq. h (sym eq), λ eq. h' (sym eq))

-- pairwise apart
abbrev pub Separate : List Effect → Type 0
Separate [] = Unit
Separate (e ∷ effects) = All (Apart e) effects × Separate effects

pub All-permᴰ {ℓ κ} :
    {A : Type ℓ} (P : A → Type κ) {xs ys : List A} → Permᴰ xs ys → All P xs → All P ys
All-permᴰ P Permᴰ.nil h = tt
All-permᴰ P (Permᴰ.cons e d) (p, h) = (subst P e p, All-permᴰ P d h)
All-permᴰ P (Permᴰ.swap e e') (p, (q, h)) = (subst P e' q, (subst P e p, h))
All-permᴰ P (Permᴰ.trans d d') h = All-permᴰ P d' (All-permᴰ P d h)

pub Separate-permᴰ : {xs ys : List Effect} → Permᴰ xs ys → Separate xs → Separate ys
Separate-permᴰ Permᴰ.nil h = tt
Separate-permᴰ (Permᴰ.cons {l₂ = l} e d) (p, h) =
    (subst (λ c. All (Apart c) l) e (All-permᴰ (Apart _) d p), Separate-permᴰ d h)
Separate-permᴰ (Permᴰ.swap {a = a} {b = b} {a' = a'} {b' = b'} {l = l} e e') ((ab, al), (bl, h)) =
    subst (λ x. Separate (x ∷ b' ∷ l)) e'
      (subst (λ y. Separate (b ∷ y ∷ l)) e ((Apart-symm a b ab, bl), (al, h)))
Separate-permᴰ (Permᴰ.trans d d') h = Separate-permᴰ d' (Separate-permᴰ d h)

module _ (ix : PathIndex) where
  open ix use {Table, add, find, find-add_new, find-add_ne}

  -- Two states with the same servers, count and cache, in which every path is found alike.
  abbrev pub SameView : State ix → State ix → Type 0
  SameView st st' =
      (st.storage_servers ≡ st'.storage_servers)
      × (st.storage_server_count ≡ st'.storage_server_count)
      × (st.cache ≡ st'.cache)
      × ((p : Bytes) → find p st.servers_by_path ≡ find p st'.servers_by_path)

  abbrev pub Absent : State ix → Effect → Type 0
  Absent st none = Unit
  Absent st (some (i, p)) = find p st.servers_by_path ≡ none

  unfoldable pub act : Effect → State ix → State ix
  unfolding add_created put_path
  act none st = st
  act (some (i, p)) st = add_created ix st i i p

  after_outcome-act :
      (task : Task) (args : ThreadArgs) (st : State ix) (o : Outcome)
      → (after_outcome ix (record args { task = task }) st o).0 ≡ act (effect_of task args o) st
  unfolding after_outcome finish_task act effect_of
  after_outcome-act task args st refused = refl
  after_outcome-act task args st unsent = refl
  after_outcome-act write_task args st (answered reply) = refl
  after_outcome-act delete_task args st (answered reply) = elim (Bool-cases (accepted reply)) [
    | inl ok ↦ rw ok refl
    | inr failed ↦ rw failed refl
  ]
  after_outcome-act create_task args st (answered reply) = elim (Bool-cases (accepted reply)) [
    | inl ok ↦ rw ok refl
    | inr failed ↦ rw failed refl
  ]

  pub send-act :
      (net : Net) (st : State ix) (args : ThreadArgs)
      → (send_request_async ix net st args).0
        ≡ act (effect_of args.task args (net args.ip_address args.port args.buffer)) st
  unfolding send_request_async
  send-act net st args =
      after_outcome-act args.task args st (net args.ip_address args.port args.buffer)

  -- A new entry: its key has the new server, any other key is found as before.
  find-add_fresh :
      (r p : Bytes) (s : StorageServer) (t : Table)
      → find p t ≡ none
      → find r (add p s t) ≡ (if str_eq r p then some s else find r t)
  find-add_fresh r p s t fresh = elim (Bool-cases (str_eq r p)) [
    | inl same ↦
        rw same (ap (λ k. find k (add p s t)) (str_eq_sound r p same) ∙ find-add_new p s t fresh)
    | inr other ↦ rw other (find-add_ne r p s t (ne_of_str_eq ix r p other))
  ]

  pub act-SameView :
      (e : Effect) (st st' : State ix)
      → Absent st e
      → SameView st st'
      → SameView (act e st) (act e st')
  unfolding act
  act-SameView none st st' h same = same
  act-SameView (some (i, p)) st st' h (servers, counts, caches, found) = (
    ap (λ l. set l i (put_path (get_or l i blank_server) i p)) servers,
    counts,
    caches,
    λ r.
        find-add_fresh r p _ st.servers_by_path h
        ∙ ap
            (λ l.
              if str_eq r p
              then some (put_path (get_or l i blank_server) i p)
              else find r st.servers_by_path)
            servers
        ∙ ap (λ o. if str_eq r p then some (put_path (server_at ix st' i) i p) else o) (found r)
        ∙ sym (find-add_fresh r p _ st'.servers_by_path (sym (found p) ∙ h)),
  )

  -- where the entries of two tasks are looked up in either order
  if_comm :
      (r p q : Bytes) (s t : StorageServer) (o : Option StorageServer)
      → p ≢ q
      → (if str_eq r q then some t else if str_eq r p then some s else o)
        ≡ (if str_eq r p then some s else if str_eq r q then some t else o)
  if_comm r p q s t o ne = elim (Bool-cases (str_eq r q)) [
    | inl is_q ↦ elim (Bool-cases (str_eq r p)) [
      | inl is_p ↦ absurd (ne (sym (str_eq_sound r p is_p) ∙ str_eq_sound r q is_q))
      | inr not_p ↦ rw (is_q, not_p) refl
    ]
    | inr not_q ↦ rw not_q refl
  ]

  -- What is found after two new entries.
  find-add_two :
      (r p q : Bytes) (s s' : StorageServer) (t : Table)
      → p ≢ q
      → find p t ≡ none
      → find q t ≡ none
      → find r (add q s' (add p s t))
        ≡ (if str_eq r q then some s' else if str_eq r p then some s else find r t)
  find-add_two r p q s s' t ne fresh fresh' =
      find-add_fresh r q s' (add p s t) (find-add_ne q p s t (λ e. ne (sym e)) ∙ fresh')
      ∙ ap (λ o. if str_eq r q then some s' else o) (find-add_fresh r p s t fresh)

  pub Absent-act : (e f : Effect) (st : State ix) → Apart e f → Absent st f → Absent (act e st) f
  unfolding act
  Absent-act none f st ap_art h = h
  Absent-act (some e) none st ap_art h = tt
  Absent-act (some (i, p)) (some (j, q)) st (_, ne) h =
      find-add_ne q p _ st.servers_by_path (λ e. ne (sym e)) ∙ h

  pub act_comm :
      (e f : Effect) (st : State ix)
      → Apart e f
      → Absent st e
      → Absent st f
      → SameView (act f (act e st)) (act e (act f st))
  unfolding act
  act_comm none f st h a b = (refl, refl, refl, λ r. refl)
  act_comm (some e) none st h a b = (refl, refl, refl, λ r. refl)
  act_comm (some (i, p)) (some (j, q)) st (other, ne) a b =
      let l = st.storage_servers in
      let s = put_path (get_or l i blank_server) i p in
      let t = put_path (get_or l j blank_server) j q in
      let t_same : put_path (get_or (set l i s) j blank_server) j q ≡ t =
        ap (λ v. put_path v j q) (get_or-set_ne l i j s blank_server other) in
      let s_same : put_path (get_or (set l j t) i blank_server) i p ≡ s =
        ap (λ v. put_path v i p) (get_or-set_ne l j i t blank_server (λ e. other (sym e))) in
      (
        ap (set (set l i s) j) t_same
            ∙ set_comm l i j s t other
            ∙ ap (set (set l j t) i) (sym s_same),
        refl,
        refl,
        λ r.
            find-add_two r p q s _ st.servers_by_path ne a b
            ∙ ap
                (λ v.
                  if str_eq r q
                  then some v
                  else if str_eq r p
                  then some s
                  else find r st.servers_by_path)
                t_same
            ∙ if_comm r p q s t (find r st.servers_by_path) ne
            ∙ ap
                (λ v.
                  if str_eq r p
                  then some v
                  else if str_eq r q
                  then some t
                  else find r st.servers_by_path)
                (sym s_same)
            ∙ sym (find-add_two r q p t _ st.servers_by_path (λ e. ne (sym e)) b a),
      )
