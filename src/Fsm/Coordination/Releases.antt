-- ===== src/Fsm/Coordination/Releases.antt =====
-- What `ReleaseLock` of internal/fsm/coordination.go does, and what it refuses to do.
use homelab_autoscaler.Prelude.{
  str_eq_of_ne, String, ◌≡◌, ◌≢◌, refl, ◌⊎◌, inl, inr, Option, none, some, Bool-cases, ap, sym, ◌∙◌,
  subst, str_eq, eq_iff,
}
use homelab_autoscaler.Action.{
  Result, ok, err, failure, wrap, pure, ◌>>◌, continue-eq-ok, relabelled-eq-ok,
}
use homelab_autoscaler.Api.{Node, Key, key_of}
use homelab_autoscaler.Api.Maps.{StringMap, value_of}
use homelab_autoscaler.Api.Text.{Texts}
use homelab_autoscaler.Api.Client.{Client}
use homelab_autoscaler.Api.Server.{ServerLaws, fails_with_conflict}
use homelab_autoscaler.Fsm.Coordination.{
  lock_owner_annotation, check_lock, delete_lock, or_new_map, try_release, release_annotations,
  release_lock,
}
use homelab_autoscaler.Fsm.Coordination.Locks.{check_annotations-delete_lock}

-- The owner that the annotations of a node name, empty where they name none.
abbrev pub lock_owner : Node → String
lock_owner n = value_of (or_new_map n.annotations) lock_owner_annotation

pub check_lock_deleted :
    (t : Texts) (m : StringMap) (o : Option StringMap)
    → o ≡ some (delete_lock m)
    → (n : Node) → n.annotations ≡ o
    → check_lock t n ≡ none
unfolding check_lock
check_lock_deleted t m o e n h = rw (h, e) (check_annotations-delete_lock t m)

module _ {W : Type 0} (c : Client W) (t : Texts) (owner : String) {stored : W → Key → Option Node}
    {Later : W → W → Type 0} (laws : ServerLaws c stored Later) where
  try_release-foreign :
      (node fresh : Node) (m : StringMap) (w v : W)
      → c.get_node (key_of node) w ≡ (ok fresh, v)
      → fresh.annotations ≡ some m
      → value_of m lock_owner_annotation ≢ owner
      → value_of m lock_owner_annotation ≢ ""
      → try_release c t owner node w ≡ (err (failure "cannot release lock owned by another"), v)
  unfolding try_release
  try_release-foreign node fresh m w v got ann other named =
      rw (got, ann, str_eq_of_ne _ _ other, str_eq_of_ne _ _ named)

  -- A manager that reads the lock of another owner on the fresh copy of the node does not release
  -- it: the call fails, and all that it has done is to read the node, given a retry that does not
  -- run again after an error that is no conflict.
  pub release_lock_foreign :
      (node fresh : Node) (m : StringMap) (w v : W)
      → c.get_node (key_of node) w ≡ (ok fresh, v)
      → fresh.annotations ≡ some m
      → value_of m lock_owner_annotation ≢ owner
      → value_of m lock_owner_annotation ≢ ""
      → release_lock c t owner node w ≡ (err (failure "cannot release lock owned by another"), v)
  unfolding release_lock
  release_lock_foreign node fresh m w v got ann other named =
      let run = try_release-foreign node fresh m w v got ann other named in
      laws.retry_once (try_release c t owner node) w
        (ap (λ (r : Result Unit × W). fails_with_conflict r.0) run)
      ∙ run

  -- What a successful release has seen, and what it leaves in the store.
  abbrev pub Released : Key → W → Type 0
  Released k v =
      (u : W) × (fresh : Node) × (stored u k ≡ some fresh)
      × ((lock_owner fresh ≡ "")
          ⊎ ((lock_owner fresh ≡ owner)
              × ((m : Node) × (stored v k ≡ some m) × (check_lock t m ≡ none))))

  delete-Released :
      (fresh : Node) (m : StringMap) (w v : W)
      → (c.update_node (record fresh { annotations = some (delete_lock m) }) >> pure tt) w
        ≡ (ok tt, v)
      → (n : Node) × (stored v (key_of fresh) ≡ some n) × (check_lock t n ≡ none)
  delete-Released fresh m w v h =
      let (n, w1, put, h1) =
        continue-eq-ok (c.update_node (record fresh { annotations = some (delete_lock m) }) w)
          (λ _. pure tt) h in
      let (u, after, old, at_u, version, at_v, annotations, _) =
        laws.update_node_stored (record fresh { annotations = some (delete_lock m) }) w n w1 put in
      (
        n,
        subst (λ x. stored x (key_of fresh) ≡ some n) (ap (λ (r : Result Unit × W). r.1) h1) at_v,
        check_lock_deleted t m (some (delete_lock m)) refl n annotations,
      )

  release_annotations-Released :
      (fresh : Node) (o : Option StringMap) (w v : W)
      → fresh.annotations ≡ o
      → stored w (key_of fresh) ≡ some fresh
      → release_annotations c t owner fresh o w ≡ (ok tt, v)
      → Released (key_of fresh) v
  unfolding release_annotations value_of
  release_annotations-Released fresh none w v ann at_get h = (w, fresh, at_get, inl (rw ann))
  release_annotations-Released fresh (some m) w v ann at_get h =
      elim (Bool-cases (str_eq (value_of m lock_owner_annotation) owner)) [
        | inl own ↦ (
          w,
          fresh,
          at_get,
          inr (
            rw ann ((eq_iff (value_of m lock_owner_annotation) owner).0 own),
            delete-Released fresh m w v (rw own at h),
          ),
        )
        | inr other ↦ elim (Bool-cases (str_eq (value_of m lock_owner_annotation) "")) [
          | inl free ↦ (
            w,
            fresh,
            at_get,
            inl (rw ann ((eq_iff (value_of m lock_owner_annotation) "").0 free)),
          )
          | inr named ↦ absurd (cc (rw (other, named) at h))
        ]
      ]

  -- On an API server with optimistic locking, a release that succeeds has found the node without
  -- an owner of a lock, or has found its own lock, and then what is stored under the node's key
  -- right after it holds no lock.
  pub release_lock-Released :
      (node : Node) (w v : W)
      → release_lock c t owner node w ≡ (ok tt, v)
      → Released (key_of node) v
  unfolding release_lock try_release
  release_lock-Released node w v h =
      let (w1, last) = laws.retry_last (try_release c t owner node) w in
      let (fresh, w2, got, h1) =
        continue-eq-ok (wrap "failed to get fresh node" (c.get_node (key_of node)) w1)
          (λ (n : Node). release_annotations c t owner n n.annotations) (sym last ∙ h) in
      let (at_get, same_key) =
        laws.get_node_stored (key_of node) w1 fresh w2
          (relabelled-eq-ok "failed to get fresh node" _ got) in
      subst (λ k. Released k v) same_key
        (release_annotations-Released fresh fresh.annotations w2 v refl (rw same_key at_get) h1)
