-- ===== src/Fsm/Coordination/Managers.antt =====
-- What acquiring and releasing a lock of internal/fsm/coordination.go does.
use homelab_autoscaler.Prelude.{
  ℕ, String, ◌≡◌, refl, ◌⊎◌, inl, inr, true, false, Option, none, some, arith, Bool-cases,
  if◌then◌else◌, ap, sym, ◌∙◌, subst, subst₂,
}
use homelab_autoscaler.Prelude.Int.{ℤ}
use homelab_autoscaler.Action.{
  Result, continue, pure, raise, wrap, ◌>>◌, ok, err, failure, continue-eq-ok, relabelled-eq-ok,
}
use homelab_autoscaler.Api.{Node, Key, key_of}
use homelab_autoscaler.Api.Text.{Texts}
use homelab_autoscaler.Api.Client.{Client, time_now}
use homelab_autoscaler.Api.Server.{ServerLaws, replaced}
use homelab_autoscaler.Fsm.Coordination.{
  OperationLock, is_expired_at, check_lock, with_lock, refuse_if_held, try_acquire, acquire_lock,
  acquire_on, store_lock, or_default,
}

-- No lock, or one that the clock showed to be expired.
abbrev pub NotHeld : {W : Type 0} → Client W → Option OperationLock → W → Type 0
NotHeld {W} c o v =
    (o ≡ none)
    ⊎ ((lock : OperationLock) × (now : ℕ) × (w : W) × (o ≡ some lock)
        × (time_now c w ≡ (ok now, v))
        × (is_expired_at now lock ≡ true))

module _ {W : Type 0} (c : Client W) (t : Texts) (owner : String) where
  -- If the caller's copy of the node shows a lock that is not expired, `AcquireLock` fails with the
  -- error that says so, and the only call that it has made is one to the clock: nothing is written.
  pub acquire_lock_held :
      (node : Node) (operation : String) (timeout : ℤ) (w v : W) (lock : OperationLock) (now : ℕ)
      → check_lock t node ≡ some lock
      → time_now c w ≡ (ok now, v)
      → is_expired_at now lock ≡ false
      → acquire_lock c t owner node operation timeout w
        ≡ (err (failure "coordination lock already exists"), v)
  unfolding acquire_lock refuse_if_held
  acquire_lock_held node operation timeout w v lock now h hn he = rw (h, hn, he)

  refuse_step :
      (lock : OperationLock) (text : String) (w : W) (r : Result ℕ × W) (v : W)
      → time_now c w ≡ r
      → continue
          (continue r (λ now. pure (is_expired_at now lock)))
          (λ expired. if expired then pure tt else raise (failure text))
        ≡ (ok tt, v)
      → NotHeld c (some lock) v × ((v ≡ w) ⊎ (v ≡ (time_now c w).1))
  refuse_step lock text w (ok now, u) v e h = elim (Bool-cases (is_expired_at now lock)) [
    | inl p ↦
        let q : u ≡ v = ap (λ (x : Result Unit × W). x.1) (rw p at h) in
        (
          inr (lock, now, w, refl, e ∙ ap (λ (x : W). (ok now, x)) q, p),
          inr (sym q ∙ sym (ap (λ (x : Result ℕ × W). x.1) e)),
        )
    | inr p ↦ absurd (cc (rw p at h))
  ]
  refuse_step lock text w (err x, u) v e h = cc

  refuse_if_held-ok :
      (o : Option OperationLock) (text : String) (w v : W)
      → refuse_if_held c t owner o text w ≡ (ok tt, v)
      → NotHeld c o v × ((v ≡ w) ⊎ (v ≡ (time_now c w).1))
  unfolding refuse_if_held
  refuse_if_held-ok none text w v h = (inl refl, ground arith)
  refuse_if_held-ok (some lock) text w v h = refuse_step lock text w (time_now c w) v refl h

  module _ {stored : W → Key → Option Node} {Later : W → W → Type 0}
      (laws : ServerLaws c stored Later) where
    refuse_if_held-later :
        (o : Option OperationLock) (text : String) (w v : W)
        → refuse_if_held c t owner o text w ≡ (ok tt, v)
        → Later w v
    refuse_if_held-later o text w v h = elim (refuse_if_held-ok o text w v h).1 [
      | inl p ↦ rw p (laws.later_refl w)
      | inr p ↦ rw p (laws.now_later w)
    ]

    -- What a successful run of the retried function has seen and done: `u` and `w` are the moments
    -- right before and right after its write, which was begun at `x`, and `seen` is before.
    abbrev pub Acquired : Key → String → ℤ → W → Type 0
    Acquired k operation timeout w =
        (u : W) × (old m : Node) × (now : ℕ) × (seen : W) × NotHeld c (check_lock t old) seen
        × (stored u k ≡ some old)
        × (stored w k ≡ some m)
        × (m.annotations ≡ (with_lock t old operation owner now timeout).annotations)
        × Later seen u
        × (stored w ≡ replaced (stored u) k m)
        × ((x : W) × Later x u
            × (c.update_node (with_lock t old operation owner now timeout) x ≡ (ok m, w)))

    store-Acquired :
        (fresh : Node) (operation : String) (timeout : ℤ) (w1 w2 w3 v : W) (now : ℕ) (m : Node)
        → stored w1 (key_of fresh) ≡ some fresh
        → Later w1 w3
        → Later w2 w3
        → NotHeld c (check_lock t fresh) w2
        → c.update_node (with_lock t fresh operation owner now timeout) w3 ≡ (ok m, v)
        → Acquired (key_of fresh) operation timeout v
    unfolding with_lock
    store-Acquired fresh operation timeout w1 w2 w3 v now m at_get later looked free put =
        let (u, after, old, at_u, version, at_v, annotations, only) =
          laws.update_node_stored (with_lock t fresh operation owner now timeout) w3 m v put in
        let same : fresh ≡ old =
          laws.same_version w1 u (key_of fresh) fresh old (laws.later_trans later after) at_get at_u
            (sym version) in
        (
          u,
          fresh,
          m,
          now,
          w2,
          free,
          at_u ∙ ap some (sym same),
          at_v,
          annotations,
          laws.later_trans looked after,
          only,
          (w3, after, put),
        )

    try_acquire-Acquired :
        (node : Node) (operation : String) (timeout : ℤ) (w v : W)
        → try_acquire c t owner node operation timeout w ≡ (ok tt, v)
        → Acquired (key_of node) operation timeout v
    unfolding try_acquire
    try_acquire-Acquired node operation timeout w v h =
        let (fresh, w1, got, h1) =
          continue-eq-ok (wrap "failed to get fresh node" (c.get_node (key_of node)) w)
            (λ (n : Node). acquire_on c t owner n operation timeout) h in
        let (_, w2, free, h2) =
          continue-eq-ok
            (refuse_if_held c t owner (check_lock t fresh)
              "coordination lock acquired by another process" w1)
            (λ _. store_lock c t owner fresh operation timeout) h1 in
        let (now, w3, clock, h3) =
          continue-eq-ok (time_now c w2)
            (λ (n : ℕ). c.update_node (with_lock t fresh operation owner n timeout) >> pure tt)
            h2 in
        let (m, w4, put, h4) =
          continue-eq-ok (c.update_node (with_lock t fresh operation owner now timeout) w3)
            (λ _. pure tt) h3 in
        let (at_get, same_key) =
          laws.get_node_stored (key_of node) w fresh w1
            (relabelled-eq-ok "failed to get fresh node" _ got) in
        let looked : Later w2 w3 =
          subst (λ x. Later w2 x) (ap (λ (x : Result ℕ × W). x.1) clock) (laws.now_later w2) in
        let done : Acquired (key_of fresh) operation timeout w4 =
          store-Acquired fresh operation timeout w1 w2 w3 w4 now m (rw same_key at_get)
            (laws.later_trans (refuse_if_held-later (check_lock t fresh) _ w1 w2 free) looked)
            looked (refuse_if_held-ok (check_lock t fresh) _ w1 w2 free).0 put in
        subst₂ (λ k x. Acquired k operation timeout x) same_key
          (ap (λ (x : Result Unit × W). x.1) h4) done

    -- `AcquireLock` is atomic, on an API server with optimistic locking: when it succeeds, then at
    -- some moment the stored node held no lock, or one that a reading of the clock showed to be
    -- expired, and what is stored right after the call is a node with the annotations of that very
    -- node with the new lock set, for the given operation and owner.
    pub acquire_lock_atomic :
        (node : Node) (operation : String) (timeout : ℤ) (w v : W)
        → acquire_lock c t owner node operation timeout w ≡ (ok tt, v)
        → Acquired (key_of node) operation (or_default c t owner timeout) v
    unfolding acquire_lock
    acquire_lock_atomic node operation timeout w v h =
        let (_, w1, _, h1) =
          continue-eq-ok
            (refuse_if_held c t owner (check_lock t node) "coordination lock already exists" w)
            (λ _.
              c.retry_on_conflict
                (try_acquire c t owner node operation (or_default c t owner timeout)))
            h in
        let (w2, last) =
          laws.retry_last (try_acquire c t owner node operation (or_default c t owner timeout))
            w1 in
        try_acquire-Acquired node operation (or_default c t owner timeout) w2 v (sym last ∙ h1)
