-- ===== src/Fsm/Coordination/Histories/Operations.antt =====
-- The operations of a manager of internal/fsm/coordination.go, each as a single write to the stored
-- node.
use homelab_autoscaler.Prelude.{
  ℕ, String, ◌≡◌, refl, sym, ap, ◌∙◌, ◌⊎◌, inl, inr, Bool-cases, true, Option, none, some, str_eq,
  eq_iff, subst,
}
use homelab_autoscaler.Prelude.Int.{ℤ}
use homelab_autoscaler.Action.{
  Act, Result, ok, wrap, pure, ◌>>=◌, ◌>>◌, continue-eq-ok, relabelled-eq-ok, pure-eq-ok,
}
use homelab_autoscaler.Api.{Node, Key, key_of}
use homelab_autoscaler.Api.Maps.{StringMap, value_of}
use homelab_autoscaler.Api.Text.{Texts}
use homelab_autoscaler.Api.Client.{Client, time_now}
use homelab_autoscaler.Api.Server.{ServerLaws, replaced}
use homelab_autoscaler.Fsm.Coordination.{
  OperationLock, lock_owner_annotation, check_lock, delete_lock, or_default, with_lock, try_release,
  release_annotations, release_lock, try_force_release, force_annotations, force_release_lock,
}
use homelab_autoscaler.Fsm.Coordination.Interface.{CoordinationManager, new_coordination_manager}
use homelab_autoscaler.Fsm.Coordination.Managers.{NotHeld, acquire_lock_atomic}
use homelab_autoscaler.Fsm.Coordination.Releases.{lock_owner}
use homelab_autoscaler.Fsm.Coordination.Histories.{
  LockCall, take, release, force, is_free_at, Change, taken, released, forced,
}

-- The calls of a manager that write.
pub data Request : Type 0 where
  acquiring : String → ℤ → Request
  releasing : Request
  forcing : Request

abbrev pub perform : {W : Type 0} → CoordinationManager W → Node → Request → Act W Unit
perform cm node (acquiring operation timeout) = cm.acquire_lock node operation timeout
perform cm node releasing = cm.release_lock node
perform cm node forcing = cm.force_release_lock node

module _ {W : Type 0} (c : Client W) (t : Texts) (owner : String) {stored : W → Key → Option Node}
    {Later : W → W → Type 0} (laws : ServerLaws c stored Later) where
  -- `u` and `v` are the moments right before and right after the write of one node, of that kind.
  abbrev pub Writes : LockCall → Key → W → Node → Node → W → Type 0
  Writes call k u old new v =
      (stored u k ≡ some old) × (stored v ≡ replaced (stored u) k new) × Change t call old new

  abbrev pub Wrote : LockCall → Key → W → Type 0
  Wrote call k v = (u : W) × (old new : Node) × Writes call k u old new v

  -- The lock was none, or the clock was read before `u`, and the answer was `seen`.
  abbrev pub Looked : Node → ℕ → W → Type 0
  Looked old seen u =
      (check_lock t old ≡ none) ⊎ ((x y : W) × (time_now c x ≡ (ok seen, y)) × Later y u)

  -- What a request that succeeds has done to the node of a key.
  abbrev pub Fulfilled : Request → Key → W → Type 0
  Fulfilled (acquiring operation timeout) k v =
      (u : W) × (old new : Node) × (seen stamp : ℕ) × Writes (take owner seen) k u old new v
      × (new.annotations
          ≡ (with_lock t old operation owner stamp (or_default c t owner timeout)).annotations)
      × Looked old seen u
      × ((x : W) × Later x u
          × (c.update_node (with_lock t old operation owner stamp (or_default c t owner timeout)) x
              ≡ (ok new, v)))
  Fulfilled releasing k v =
      ((n : Node) × (stored v k ≡ some n) × (lock_owner n ≡ "")) ⊎ Wrote (release owner) k v
  Fulfilled forcing k v =
      ((n : Node) × (stored v k ≡ some n) × (n.annotations ≡ none)) ⊎ Wrote force k v

  free_at :
      (o : Option OperationLock) (w u : W)
      → Later w u
      → NotHeld c o w
      → (seen : ℕ) × (is_free_at seen o ≡ true)
        × ((o ≡ none) ⊎ ((x y : W) × (time_now c x ≡ (ok seen, y)) × Later y u))
  free_at o w u later (inl h) = (0, rw h refl, inl h)
  free_at o w u later (inr (lock, now, x, h, clock, expired)) =
      (now, rw h expired, inr (x, w, clock, later))

  -- The write of a node without the lock annotations, onto the very version that was read.
  abbrev Deleted : Node → StringMap → W → Type 0
  Deleted fresh m v =
      (u : W) × (new : Node) × (stored u (key_of fresh) ≡ some fresh)
      × (stored v ≡ replaced (stored u) (key_of fresh) new)
      × (new.annotations ≡ some (delete_lock m))

  write-Deleted :
      (fresh : Node) (m : StringMap) (w v : W)
      → stored w (key_of fresh) ≡ some fresh
      → (c.update_node (record fresh { annotations = some (delete_lock m) }) >> pure tt) w
        ≡ (ok tt, v)
      → Deleted fresh m v
  write-Deleted fresh m w v at_get h =
      let (new, w1, put, h1) =
        continue-eq-ok (c.update_node (record fresh { annotations = some (delete_lock m) }) w)
          (λ _. pure tt) h in
      let (u, after, old, at_u, version, at_v, annotations, only) =
        laws.update_node_stored (record fresh { annotations = some (delete_lock m) }) w new w1
          put in
      let same : fresh ≡ old =
        laws.same_version w u (key_of fresh) fresh old after at_get at_u (sym version) in
      (
        u,
        new,
        at_u ∙ ap some (sym same),
        subst (λ x. stored x ≡ replaced (stored u) (key_of fresh) new)
            (ap (λ (r : Result Unit × W). r.1) h1) only,
        annotations,
      )

  released_at :
      (fresh : Node) (o : Option StringMap) (w v : W)
      → fresh.annotations ≡ o
      → stored w (key_of fresh) ≡ some fresh
      → release_annotations c t owner fresh o w ≡ (ok tt, v)
      → Fulfilled releasing (key_of fresh) v
  unfolding release_annotations value_of
  released_at fresh none w v ann at_get h =
      inl (fresh, subst (λ x. stored x (key_of fresh) ≡ some fresh) (pure-eq-ok h) at_get, rw ann)
  released_at fresh (some m) w v ann at_get h =
      elim (Bool-cases (str_eq (value_of m lock_owner_annotation) owner)) [
        | inl own ↦
            let (u, new, at_u, only, annotations) =
              write-Deleted fresh m w v at_get (rw own at h) in
            let named : lock_owner fresh ≡ owner =
              rw ann ((eq_iff (value_of m lock_owner_annotation) owner).0 own) in
            inr (u, fresh, new, (at_u, only, released owner named (rw ann annotations)))
        | inr other ↦ elim (Bool-cases (str_eq (value_of m lock_owner_annotation) "")) [
          | inl free ↦ inl (
            fresh,
            subst (λ x. stored x (key_of fresh) ≡ some fresh) (pure-eq-ok (rw (other, free) at h))
                at_get,
            rw ann ((eq_iff (value_of m lock_owner_annotation) "").0 free),
          )
          | inr named ↦ absurd (cc (rw (other, named) at h))
        ]
      ]

  forced_at :
      (fresh : Node) (o : Option StringMap) (w v : W)
      → fresh.annotations ≡ o
      → stored w (key_of fresh) ≡ some fresh
      → force_annotations c t owner fresh o w ≡ (ok tt, v)
      → Fulfilled forcing (key_of fresh) v
  unfolding force_annotations
  forced_at fresh none w v ann at_get h =
      inl (fresh, subst (λ x. stored x (key_of fresh) ≡ some fresh) (pure-eq-ok h) at_get, ann)
  forced_at fresh (some m) w v ann at_get h =
      let (u, new, at_u, only, annotations) = write-Deleted fresh m w v at_get h in
      inr (u, fresh, new, (at_u, only, forced (rw ann annotations)))

  -- What was read, for the two kinds of release.
  after_get :
      (k : Key) (P : Key → W → Type 0) (f : Node → Act W Unit) (w v : W)
      → ((n : Node) (u : W) → stored u (key_of n) ≡ some n → f n u ≡ (ok tt, v) → P (key_of n) v)
      → (wrap "failed to get fresh node" (c.get_node k) >>= f) w ≡ (ok tt, v)
      → P k v
  after_get k P f w v rest h =
      let (fresh, u, got, h1) =
        continue-eq-ok (wrap "failed to get fresh node" (c.get_node k) w) f h in
      let (at_get, same_key) =
        laws.get_node_stored k w fresh u (relabelled-eq-ok "failed to get fresh node" _ got) in
      subst (λ x. P x v) same_key (rest fresh u (rw same_key at_get) h1)

  -- Every request that a manager fulfils is one atomic write of its kind, on an API server with
  -- optimistic locking: what is stored right after it is what was stored right before the write, but
  -- for that node, and the kind speaks of the node that was stored right then. An acquisition takes a lock that is free (there is
  -- none, or an earlier reading of the clock has shown it to be expired) and sets it to the owner, the operation
  -- and the timeout asked for, 0 standing for the default; a release removes a lock of the owner itself,
  -- unless it has found no owner; and a forced release removes whatever is there, unless it has found no
  -- annotations.
  pub perform-Fulfilled :
      (request : Request) (node : Node) (w v : W)
      → perform (new_coordination_manager c t owner) node request w ≡ (ok tt, v)
      → Fulfilled request (key_of node) v
  unfolding release_lock try_release force_release_lock try_force_release
  perform-Fulfilled (acquiring operation timeout) node w v h =
      let (u, old, new, stamp, seen, free, before, after, written, earlier, only, sent) =
        acquire_lock_atomic c t owner laws node operation timeout w v h in
      let (looked, was_free, reading) = free_at (check_lock t old) seen u earlier free in
      (
        u,
        old,
        new,
        looked,
        stamp,
        (
          before,
          only,
          taken owner operation looked stamp (or_default c t owner timeout) was_free written,
        ),
        written,
        reading,
        sent,
      )
  perform-Fulfilled releasing node w v h =
      let (w1, last) = laws.retry_last (try_release c t owner node) w in
      after_get (key_of node) (Fulfilled releasing)
        (λ n. release_annotations c t owner n n.annotations) w1 v
        (λ n u at_get. released_at n n.annotations u v refl at_get) (sym last ∙ h)
  perform-Fulfilled forcing node w v h =
      let (w1, last) = laws.retry_last (try_force_release c t owner node) w in
      after_get (key_of node) (Fulfilled forcing) (λ n. force_annotations c t owner n n.annotations)
        w1 v (λ n u at_get. forced_at n n.annotations u v refl at_get) (sym last ∙ h)
