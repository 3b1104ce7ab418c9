-- ===== src/Controller/Cleanup/Sweeps.antt =====
-- What the cleanup of expired locks (internal/controller/infra/node_controller.go) does to the locks.
use homelab_autoscaler.Prelude.{
  ℕ, ◌≡◌, refl, Bool, true, false, Option, none, some, List, [], ◌∷◌, Option-cases, inl, inr, ap,
  ◌∙◌,
}
use homelab_autoscaler.Prelude.Int.{ltb_ℤ}
use homelab_autoscaler.Action.{Result, ok}
use homelab_autoscaler.Api.{Node, Key, key_of}
use homelab_autoscaler.Api.Maps.{StringMap}
use homelab_autoscaler.Api.Text.{Texts}
use homelab_autoscaler.Api.Client.{Client, time_now}
use homelab_autoscaler.Api.Server.{ServerLaws, fails_with_conflict}
use homelab_autoscaler.Fsm.Coordination.{
  OperationLock, is_expired_at, since, delete_lock, check_lock,
}
use homelab_autoscaler.Fsm.Coordination.Releases.{check_lock_deleted}
use homelab_autoscaler.Controller.Cleanup.{
  check_operation_lock, is_lock_expired, force_release_lock, cleanup_each, try_force_release,
}

-- A sweep over the nodes: one without a lock is passed over, for one whose lock is alive only the
-- clock is read, and only from one whose lock is expired the lock is taken away, if that succeeds.
pub data Swept {W : Type 0} (c : Client W) (t : Texts) : List Node → W → W → Type 0 where
  finished : {w : W} → Swept c t [] w w
  unlocked :
      {n : Node} {ns : List Node} {u v : W}
      → check_operation_lock t n ≡ none
      → Swept c t ns u v
      → Swept c t (n ∷ ns) u v
  alive :
      {n : Node} {ns : List Node} {u u1 v : W} {lock : OperationLock} {now : ℕ}
      → check_operation_lock t n ≡ some lock
      → time_now c u ≡ (ok now, u1)
      → ltb_ℤ lock.timeout (since now lock.timestamp) ≡ false
      → Swept c t ns u1 v
      → Swept c t (n ∷ ns) u v
  released :
      {n : Node} {ns : List Node} {u u1 v : W} {lock : OperationLock} {now : ℕ}
      → check_operation_lock t n ≡ some lock
      → time_now c u ≡ (ok now, u1)
      → ltb_ℤ lock.timeout (since now lock.timestamp) ≡ true
      → Swept c t ns (force_release_lock c t n u1).1 v
      → Swept c t (n ∷ ns) u v

module _ {W : Type 0} (c : Client W) (t : Texts) where
  at_lock :
      (n : Node) (ns : List Node) (w : W) (lock : OperationLock) (b : Bool)
      → check_operation_lock t n ≡ some lock
      → ltb_ℤ lock.timeout (since (c.now w).0 lock.timestamp) ≡ b
      → ((u : W) → (v : W) × (cleanup_each c t ns u ≡ (ok tt, v)) × Swept c t ns u v)
      → (v : W) × (cleanup_each c t (n ∷ ns) w ≡ (ok tt, v)) × Swept c t (n ∷ ns) w v
  unfolding cleanup_each is_lock_expired time_now
  at_lock n ns w lock true found old rest =
      let (v, ran, swept) = rest (force_release_lock c t n (c.now w).1).1 in
      (v, rw (found, old) ran, released found refl old swept)
  at_lock n ns w lock false found young rest =
      let (v, ran, swept) = rest (c.now w).1 in
      (v, rw (found, young) ran, alive found refl young swept)

  -- The cleanup of a list of nodes never fails, whatever the API server answers, and is a sweep: it
  -- passes over the nodes without a lock, leaves the locks that are not expired alone, and tries to
  -- take away the others.
  pub cleanup_each-Swept :
      (nodes : List Node) (w : W)
      → (v : W) × (cleanup_each c t nodes w ≡ (ok tt, v)) × Swept c t nodes w v
  unfolding cleanup_each
  cleanup_each-Swept [] w = (w, refl, finished)
  cleanup_each-Swept (n ∷ ns) w = elim (Option-cases (check_operation_lock t n)) [
    | inl none_found ↦
        let (v, ran, swept) = cleanup_each-Swept ns w in
        (v, rw none_found ran, unlocked none_found swept)
    | inr (lock, found) ↦
        at_lock n ns w lock (ltb_ℤ lock.timeout (since (c.now w).0 lock.timestamp)) found refl
          (cleanup_each-Swept ns)
  ]

  module _ {stored : W → Key → Option Node} {Later : W → W → Type 0}
      (laws : ServerLaws c stored Later) where
    -- The cleanup can take away a lock that is not expired. On an API server that behaves as
    -- documented, if the listed copy of a node shows a lock that is expired by a reading of the clock,
    -- and the fresh copy of the node shows one that is not expired by that very reading, the cleanup
    -- succeeds all the same, and what is stored of the node right after it has no lock.
    pub cleanup_takes_any :
        (node fresh written : Node) (lock held : OperationLock) (m : StringMap) (now : ℕ)
        (w w0 w1 v : W)
        → check_operation_lock t node ≡ some lock
        → time_now c w ≡ (ok now, w0)
        → ltb_ℤ lock.timeout (since now lock.timestamp) ≡ true
        → c.get_node (key_of node) w0 ≡ (ok fresh, w1)
        → fresh.annotations ≡ some m
        → check_lock t fresh ≡ some held
        → is_expired_at now held ≡ false
        → c.update_node (record fresh { annotations = some (delete_lock m) }) w1 ≡ (ok written, v)
        → (cleanup_each c t (node ∷ []) w ≡ (ok tt, v))
          × (stored v (key_of node) ≡ some written)
          × (check_lock t written ≡ none)
    unfolding cleanup_each is_lock_expired force_release_lock delete_lock
    cleanup_takes_any node fresh written lock held m now w w0 w1 v found clock old got noted _ _
          put =
        let done : try_force_release c t node w0 ≡ (ok tt, v) = rw (got, noted, put) in
        let last =
          laws.retry_once (try_force_release c t node) w0
            (ap (λ (r : Result Unit × W). fails_with_conflict r.0) done) in
        let (_, same_key) = laws.get_node_stored (key_of node) w0 fresh w1 got in
        let (_, _, _, _, _, at_v, annotations, _) =
          laws.update_node_stored (record fresh { annotations = some (delete_lock m) }) w1 written v
            put in
        (
          rw (found, clock, old) (rw (last ∙ done) refl),
          rw (← same_key) at_v,
          check_lock_deleted t m (some (delete_lock m)) refl written annotations,
        )
