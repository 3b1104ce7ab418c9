-- ===== src/Fsm/Operations/Guards.antt =====
-- What the locks guard: the transition of `StartNode`, whose before hook (internal/fsm/hooks.go)
-- acquires the lock of the node.
use homelab_autoscaler.Prelude.{
  refl, ℕ, ◌+◌, ◌-◌, ◌*◌, ◌%◌, ◌^◌, ◌<◌, ◌≤◌, String, ◌≡◌, ◌≢◌, inl, inr, Option, none, some,
  Option-cases, ap, sym, ◌∙◌, [], ◌∷◌, ◌++◌,
}
use homelab_autoscaler.Prelude.Int.{pos}
use homelab_autoscaler.Action.{
  Act, Result, ok, err, failure, wrapped, wrap, relabelled-eq-ok, continue, caught, continue-eq-ok,
  ◌>>◌,
}
use homelab_autoscaler.Api.{Node, Job, Key, key_of, second, shutdown, starting_up}
use homelab_autoscaler.Api.Text.{Texts, TextLaws}
use homelab_autoscaler.Api.Client.{Client, time_now}
use homelab_autoscaler.Api.Server.{ServerLaws}
use homelab_autoscaler.Fsm.Events.{
  State, Event, start_node, job_failed, get_destination_state, operation_scale_up,
}
use homelab_autoscaler.Fsm.Coordination.{default_lock_timeout, acquire_lock, check_lock, with_lock}
use homelab_autoscaler.Fsm.Coordination.Exclusion.{acquire_lock_excluded}
use homelab_autoscaler.Fsm.Jobs.{cleanup_pending_jobs, create_startup_job}
use homelab_autoscaler.Fsm.KubeNodes.{remove_cluster_autoscaler_taint}
use homelab_autoscaler.Fsm.Coordination.Managers.{Acquired, acquire_lock_atomic}
use homelab_autoscaler.Fsm.Machine.{Sys, back, set_current, call}
use homelab_autoscaler.Fsm.Machine.Engine.{Engine, EngineLaws}
use homelab_autoscaler.Fsm.Machine.Hooks.{
  before_event, before_start_node, enter_state, after_event, get_fsm_callbacks,
}
use homelab_autoscaler.Fsm.Operations.{fire, follow_job, start_node_op, start_from_event}
use homelab_autoscaler.Fsm.Operations.Settles.{state_of, destination_named, start_only}
use homelab_autoscaler.Fsm.Machine.Hooks.Steady.{enter_backoff, Steady-after}

module _ {W : Type 0} (c : Client W) (t : Texts) (owner : String) (fuel : ℕ) (e : Engine (Sys W))
    (laws : EngineLaws e state_of set_current (get_fsm_callbacks c t owner fuel)) where
  guard_of :
      (v : Event) (d : State) (s u : Sys W) (r : Result Unit × Sys W)
      → get_destination_state (state_of s) v ≡ some d
      → before_event c t owner fuel v s ≡ r
      → fire c t owner fuel e v s ≡ (ok tt, u)
      → (s1 : Sys W) × (before_event c t owner fuel v s ≡ (ok tt, s1))
  guard_of v d s u (ok _, s1) h b ran = (s1, b)
  guard_of v d s u (err x, s1) h b ran = absurd (cc (laws.cancelled v d s s1 x h b))

  -- An event that took place has run its before hook, then the entry hook of the destination, and then
  -- its after hook, none with an error.
  pub fired :
      (v : Event) (d : State) (s u : Sys W)
      → get_destination_state (state_of s) v ≡ some d
      → fire c t owner fuel e v s ≡ (ok tt, u)
      → (s1 s2 : Sys W) × (before_event c t owner fuel v s ≡ (ok tt, s1))
        × (enter_state c t owner fuel d (set_current d s1) ≡ (ok tt, s2))
        × (after_event c t owner fuel v d s2 ≡ (ok tt, u))
  fired v d s u h ran =
      let (s1, b) = guard_of v d s u (before_event c t owner fuel v s) h refl ran in
      let (s2, entered, _, _) =
        enter_backoff c t owner fuel d (set_current d s1)
          (destination_named c t owner fuel e laws (state_of s) d v h) in
      let (s3, after, _, _) = (Steady-after c t owner fuel v d).at s2 in
      let same : s3 ≡ u =
        ap (λ (r : Result Unit × Sys W). r.1)
          (sym (laws.done v d s s1 s2 s3 h b entered after) ∙ ran) in
      (s1, s2, b, entered, after ∙ ap (λ (x : Sys W). (ok tt, x)) same)

  launch_fired :
      (v : Event) (origin d : State) (text : String) (rest : Act (Sys W) Unit) (s u : Sys W)
      → ((x y : State) → get_destination_state x v ≡ some y → (x ≡ origin) × (y ≡ d))
      → (wrap text (fire c t owner fuel e v) >> rest) s ≡ (ok tt, u)
      → (x : Sys W) × (get_destination_state (state_of s) v ≡ some d)
        × (fire c t owner fuel e v s ≡ (ok tt, x))
        × (rest x ≡ (ok tt, u))
  launch_fired v origin d text rest s u only h =
      let (_, s2, ran, later) =
        continue-eq-ok (wrap text (fire c t owner fuel e v) s) (λ _. rest) h in
      let took_place : fire c t owner fuel e v s ≡ (ok tt, s2) = relabelled-eq-ok text _ ran in
      elim (Option-cases (get_destination_state (state_of s) v)) [
        | inl none_there ↦ absurd (cc (laws.refused v s none_there))
        | inr (y, there) ↦ (s2, there ∙ ap some (only (state_of s) y there).1, took_place, later)
      ]

  module _ {stored : W → Key → Option Node} {Later : W → W → Type 0}
      (server : ServerLaws c stored Later) where
    -- Between `w` and `u`: the first thing that happens at `w` is that the lock of the node is acquired
    -- for `operation`; right from the world in which that ends, the state `d` is entered; and from
    -- there `create` makes the job, and its monitor is started.
    abbrev pub Locked : State → String → (Node → Act W Job) → Sys W → W → Sys W → Type 0
    Locked d operation create s w u =
        (v y : W) × (x : Sys W) × (job : Job) × (acquire_lock c t owner s.machine.node operation
            default_lock_timeout w
          ≡ (ok tt, v))
        × Acquired c t owner server (key_of s.machine.node) operation default_lock_timeout v
        × (enter_state c t owner fuel d (set_current d (record s { world = v })) ≡ (ok tt, x))
        × (create x.machine.node x.world ≡ (ok job, y))
        × (u.monitors ≡ x.monitors ++ job.name ∷ [])

    followed_job :
        (text : String) (x u : Sys W) (r : Result Job × W)
        → continue (caught (back x r)) (follow_job c t owner fuel e text) ≡ (ok tt, u)
        → (job : Job) × (y : W) × (r ≡ (ok job, y)) × (u.monitors ≡ x.monitors ++ job.name ∷ [])
    unfolding follow_job time_now
    followed_job text x u (ok job, y) h =
        (job, y, refl, sym (ap (λ (r : Result Unit × Sys W). r.1.monitors) h))
    followed_job text x u (err z, y) h =
        let (_, _, _, raised) =
          continue-eq-ok (caught (fire c t owner fuel e job_failed (record x { world = y })))
            (λ _ v. (err (wrapped text z), v)) h in
        absurd (cc raised)

    hook-Locked :
        (d : State) (operation : String) (create : Node → Act W Job) (s s1 x u : Sys W) (w : W)
        → call
            (acquire_lock c t owner s.machine.node operation default_lock_timeout)
            (record s { world = w })
          ≡ (ok tt, s1)
        → enter_state c t owner fuel d (set_current d s1) ≡ (ok tt, x)
        → (job : Job) × (y : W) × (create x.machine.node x.world ≡ (ok job, y))
          × (u.monitors ≡ x.monitors ++ job.name ∷ [])
        → Locked d operation create s w u
    hook-Locked d operation create s s1 x u w got entered (job, y, made, begun) =
        let got_world = ap (λ (r : Result Unit × Sys W). (r.0, r.1.world)) got in
        let same = ap (λ (r : Result Unit × Sys W). record s { world = r.1.world }) got in
        (
          s1.world,
          y,
          x,
          job,
          got_world,
          acquire_lock_atomic c t owner server s.machine.node operation default_lock_timeout w
              s1.world got_world,
          entered_from s s1 x got entered,
          made,
          begun,
        )
      where
        entered_from :
            (s s1 x : Sys W)
            → call
                (acquire_lock c t owner s.machine.node operation default_lock_timeout)
                (record s { world = w })
              ≡ (ok tt, s1)
            → enter_state c t owner fuel d (set_current d s1) ≡ (ok tt, x)
            → enter_state c t owner fuel d (set_current d (record s { world = s1.world }))
              ≡ (ok tt, x)
        entered_from s s1 x got entered =
            let same : record s { world = s1.world } ≡ s1 =
              ap (λ (r : Result Unit × Sys W). record s { world = r.1.world }) (sym got)
              ∙ ap (λ (r : Result Unit × Sys W). r.1) got in
            ap (λ (z : Sys W). enter_state c t owner fuel d (set_current d z)) same ∙ entered

    -- No start without the lock: with an engine and an API server that behave as documented, a
    -- `StartNode` without error, after it has deleted the pending jobs and removed the autoscaler's
    -- taint, has acquired the lock "scale-up" of its node, for its owner and the default timeout; from
    -- the very world in which the acquisition ended it has entered `startingup`, and only then it has
    -- created the job and started its monitor.
    pub start_node-Locked :
        (s u : Sys W)
        → start_node_op c t owner fuel e s ≡ (ok tt, u)
        → Locked starting_up operation_scale_up
            (create_startup_job c t)
            s
            (remove_cluster_autoscaler_taint c s.machine.node.spec.kubernetes_node_name
              (cleanup_pending_jobs c t s.machine.node s.machine.node.spec.kubernetes_node_name
                s.world).1).1
            u
    unfolding start_node_op start_from_event before_event before_start_node after_event
    start_node-Locked s u ran =
        let (x, there, took_place, later) =
          launch_fired start_node shutdown starting_up _ _ _ u (start_only c t owner fuel e laws)
            ran in
        let (s1, s2, before, entered, after) = fired start_node starting_up _ x there took_place in
        let same : s2 ≡ x = ap (λ (r : Result Unit × Sys W). r.1) after in
        hook-Locked starting_up operation_scale_up (create_startup_job c t) s s1 x u _ before
          (entered ∙ ap (λ (z : Sys W). (ok tt, z)) same)
          (followed_job _ x u (create_startup_job c t x.machine.node x.world) later)

-- Two controllers exclude each other: with an engine, texts and an API server that behave as
-- documented, while the server holds a lock of a node that one controller has written (named operation
-- and owner, whole seconds that fit an int64), up to its last second a `StartNode` of another
-- controller, for a machine that is shut down, fails even with a copy of the node that shows no lock:
-- after it has deleted the pending jobs and removed the autoscaler's taint, it only reads the node and
-- the clock, and the machine stays as it was, with no job created and no monitor started.
pub start_node_excluded :
    {W : Type 0} (c : Client W) (t : Texts) (other : String) (fuel : ℕ) (e : Engine (Sys W))
    (laws : EngineLaws e state_of set_current (get_fsm_callbacks c t other fuel))
    (texts : TextLaws t) {stored : W → Key → Option Node} {Later : W → W → Type 0}
    (server : ServerLaws c stored Later) (s : Sys W) (owner operation : String) (old fresh : Node)
    (stamp seconds now : ℕ) (w1 w2 : W)
    → operation ≢ ""
    → owner ≢ ""
    → seconds * second < 2 ^ 63
    → fresh.annotations
      ≡ (with_lock t old operation owner stamp (pos (seconds * second))).annotations
    → state_of s ≡ shutdown
    → check_lock t s.machine.node ≡ none
    → c.get_node
        (key_of s.machine.node)
        (remove_cluster_autoscaler_taint c s.machine.node.spec.kubernetes_node_name
          (cleanup_pending_jobs c t s.machine.node s.machine.node.spec.kubernetes_node_name
            s.world).1).1
      ≡ (ok fresh, w1)
    → time_now c w1 ≡ (ok now, w2)
    → now ≤ stamp - stamp % second + seconds * second
    → start_node_op c t other fuel e s ≡ (
      err (
          wrapped "FSM transition failed" (
            wrapped "transition canceled"
              (failure "coordination lock acquired by another process"))),
      record s { world = w2 },
    )
unfolding start_node_op start_from_event before_event before_start_node get_destination_state
start_node_excluded {W} c t other fuel e laws texts server s owner operation old fresh stamp seconds
      now w1 w2 ho hw hs same at unlocked got clock live =
    let prepared =
      (remove_cluster_autoscaler_taint c s.machine.node.spec.kubernetes_node_name
        (cleanup_pending_jobs c t s.machine.node s.machine.node.spec.kubernetes_node_name
          s.world).1).1 in
    let excluded =
      acquire_lock_excluded c t texts server owner other operation operation_scale_up old
        s.machine.node fresh stamp seconds now default_lock_timeout prepared w1 w2 ho hw hs same
        unlocked got clock live in
    let refused =
      laws.cancelled start_node starting_up (record s { world = prepared })
        (record s { world = w2 }) (failure "coordination lock acquired by another process")
        (ap (λ (x : State). get_destination_state x start_node) at)
        (ap (λ (r : Result Unit × W). (r.0, record s { world = r.1 })) excluded) in
    rw refused refl
