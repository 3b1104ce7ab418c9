-- ===== src/Fsm/KubeNodes/Retries.antt =====
-- The retry loop of `setNodeSchedulableWithRetry` ends by its time limit.
use homelab_autoscaler.Prelude.{
  ℕ, zero, suc, ◌+◌, ◌*◌, ◌≤◌, ◌<◌, String, ◌≡◌, refl, ◌⊎◌, inl, inr, Bool, true, false, not,
  Bool-cases, Option, none, some, arith, str_eq, if◌then◌else◌,
}
use homelab_autoscaler.Prelude.Int.{pos, sub_ℕ, ltb_ℤ}
use homelab_autoscaler.Action.{
  Act, Result, ok, err, failure, attempt, pure, raise, continue, ◌>>=◌, ◌>>◌,
}
use homelab_autoscaler.Api.{KubeNode}
use homelab_autoscaler.Api.Client.{Client, time_now, sleep_for}
use homelab_autoscaler.Fsm.KubeNodes.{
  store_if_changed, uncordon_found, uncordoned, is_ready_node, next_interval,
  set_node_schedulable_internal, try_uncordon, uncordon_loop, set_node_schedulable_with_retry,
}

-- A clock that never goes back, and that a sleep moves on by its duration at least.
pub record ClockLaws {W : Type 0} (c : Client W) (clock : W → ℕ) : Type 0 where
  pub now_reads : (w : W) → (c.now w).0 ≡ clock w
  pub now_later : (w : W) → clock w ≤ clock (c.now w).1
  pub get_later : (name : String) (w : W) → clock w ≤ clock (c.get_kube_node name w).1
  pub update_later : (k : KubeNode) (w : W) → clock w ≤ clock (c.update_kube_node k w).1
  pub sleep_later : (d : ℕ) (w : W) → clock w + d ≤ clock (c.sleep d w)

module _ {W : Type 0} (c : Client W) {clock : W → ℕ} (laws : ClockLaws c clock) where
  -- The loop is done, or it gave up at its time limit.
  abbrev pub Ended : Result (Unit {0}) × W → Type 0
  Ended r = (r.0 ≡ ok tt) ⊎ (r.0 ≡ err (failure "timeout: failed to uncordon node"))

  done_after : {A : Type 0} (r : Result A × W) → (continue r (λ _. pure tt)).1 ≡ r.1
  done_after (ok a, v) = refl
  done_after (err e, v) = refl

  stored_later : (o : Option KubeNode) (w : W) → clock w ≤ clock (store_if_changed c o w).1
  unfolding store_if_changed
  stored_later none w = omega arith
  stored_later (some k) w = rw (done_after (c.update_kube_node k w)) (laws.update_later k w)

  found_later : (r : Result KubeNode) (w : W) → clock w ≤ clock (uncordon_found c r w).1
  unfolding uncordon_found
  found_later (err e) w = omega arith
  found_later (ok k) w = stored_later (uncordoned k) w

  internal_later :
      (name : String) (w : W) → clock w ≤ clock (set_node_schedulable_internal c name w).1
  unfolding set_node_schedulable_internal
  internal_later name w = elim (Bool-cases (str_eq name "")) [
    | inl h ↦ rw h (omega arith)
    | inr h ↦
        let at = c.get_kube_node name w in
        rw h (omega (arith, laws.get_later name w, found_later at.0 at.1))
  ]

  try_answers :
      (name : String) (r : Result KubeNode) (w : W)
      → (b : Bool) × (u : W) × (try_uncordon c name r w ≡ (ok b, u)) × (clock w ≤ clock u)
  unfolding try_uncordon
  try_answers name (err e) w = (false, w, refl, omega arith)
  try_answers name (ok k) w = elim (Bool-cases (is_ready_node k)) [
    | inl h ↦
        let run = set_node_schedulable_internal c name w in
        (elim run.0 [ ok _ ↦ true | err _ ↦ false ], run.1, rw h refl, internal_later name w)
    | inr h ↦ (false, w, rw h refl, omega arith)
  ]

  next_long : (interval : ℕ) → 2_000_000_000 ≤ interval → 2_000_000_000 ≤ next_interval c interval
  next_long interval h = ground arith

  still_time : (now start n : ℕ) → not (ltb_ℤ (sub_ℕ now start) (pos n)) ≡ false → now < start + n
  still_time now start n h = ground arith

  -- What follows a round that has ended at the state `u`.
  round_ends :
      (b : Bool) (again : Act W Unit) (interval : ℕ) (u : W)
      → Ended (again (c.sleep interval u))
      → Ended ((if b then pure tt else (sleep_for c interval >> again)) u)
  unfolding sleep_for
  round_ends true again interval u rest = inl refl
  round_ends false again interval u rest = rest

  body_ends :
      (again : Act W Unit) (n start interval : ℕ) (name : String) (w : W)
      → ((u : W) → clock w ≤ clock u → clock w < start + n → Ended (again (c.sleep interval u)))
      → Ended (
          (do
            now ← time_now c
            if not (ltb_ℤ (sub_ℕ now start) (pos n))
                then raise (failure "timeout: failed to uncordon node")
                else do
                  found ← attempt (c.get_kube_node name)
                  finished ← try_uncordon c name found
                  if finished then pure tt else (sleep_for c interval >> again))
            w)
  unfolding time_now
  body_ends again n start interval name w rest =
      elim (Bool-cases (not (ltb_ℤ (sub_ℕ (c.now w).0 start) (pos n)))) [
        | inl h ↦ rw h (inr refl)
        | inr h ↦
            let at = c.get_kube_node name (c.now w).1 in
            let (b, u, ran, later) = try_answers name at.0 at.1 in
            let left : clock w < start + n =
              omega (arith, still_time (c.now w).0 start n h, laws.now_reads w) in
            let after : clock w ≤ clock u =
              omega (arith, later, laws.get_later name (c.now w).1, laws.now_later w) in
            rw h (rw ran (round_ends b again interval u (rest u after left)))
      ]

  loop_ends :
      (fuel n start interval : ℕ) (name : String) (w : W)
      → 2_000_000_000 ≤ interval
      → start + n ≤ clock w + fuel * 2_000_000_000
      → Ended (uncordon_loop c (suc fuel) name (pos n) start interval w)
  unfolding uncordon_loop
  loop_ends zero n start interval name w long enough =
      body_ends (uncordon_loop c zero name (pos n) start (next_interval c interval)) n start
        interval name w (λ u after left. absurd (omega (arith, left, enough)))
  loop_ends (suc fuel) n start interval name w long enough =
      body_ends (uncordon_loop c (suc fuel) name (pos n) start (next_interval c interval)) n start
        interval name w
        (λ u after left.
          loop_ends fuel n start (next_interval c interval) name (c.sleep interval u)
            (next_long interval long)
            (omega (arith, after, long, enough, laws.sleep_later interval u)))

  -- With one more round of fuel than pauses of 2 seconds cover the time limit, the retried
  -- uncordon ends by itself and not for want of fuel: it is done, or it has given up at its time
  -- limit. The clock is one that never goes back and that a sleep moves on by its duration at
  -- least.
  pub uncordon_ends :
      (fuel n : ℕ) (name : String) (w : W)
      → n ≤ fuel * 2_000_000_000
      → Ended (set_node_schedulable_with_retry c (suc fuel) name (pos n) w)
  unfolding set_node_schedulable_with_retry time_now
  uncordon_ends fuel n name w enough = elim (Bool-cases (str_eq name "")) [
    | inl h ↦ rw h (inl refl)
    | inr h ↦ rw h (
        loop_ends fuel n (c.now w).0 2_000_000_000 name (c.now w).1 (omega arith)
          (omega (arith, enough, laws.now_reads w, laws.now_later w)))
  ]
