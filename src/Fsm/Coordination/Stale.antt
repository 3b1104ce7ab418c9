-- ===== src/Fsm/Coordination/Stale.antt =====
-- `ReleaseLock` of internal/fsm/coordination.go on a lock that its caller has not taken.
use homelab_autoscaler.Prelude.{
  ℕ, String, ◌≡◌, refl, ap, ◌∙◌, Option, none, some, str_eq, subst, eq_refl, true,
}
use homelab_autoscaler.Prelude.Int.{ℤ}
use homelab_autoscaler.Action.{Result, ok}
use homelab_autoscaler.Api.{Node, Key, key_of}
use homelab_autoscaler.Api.Maps.{StringMap, value_of, value_of-set}
use homelab_autoscaler.Api.Text.{Texts}
use homelab_autoscaler.Api.Client.{Client}
use homelab_autoscaler.Api.Server.{ServerLaws, fails_with_conflict}
use homelab_autoscaler.Fsm.Coordination.{
  lock_owner_annotation, check_lock, with_lock, delete_lock, or_new_map, try_release,
  release_annotations, release_lock,
}
use homelab_autoscaler.Fsm.Coordination.Releases.{check_lock_deleted}

module _ {W : Type 0} (c : Client W) (t : Texts) (owner : String) {stored : W → Key → Option Node}
    {Later : W → W → Type 0} (laws : ServerLaws c stored Later) where
  try_release-own :
      (node fresh written : Node) (m : StringMap) (w u v : W)
      → c.get_node (key_of node) w ≡ (ok fresh, u)
      → fresh.annotations ≡ some m
      → str_eq (value_of m lock_owner_annotation) owner ≡ true
      → c.update_node (record fresh { annotations = some (delete_lock m) }) u ≡ (ok written, v)
      → try_release c t owner node w ≡ (ok tt, v)
  unfolding try_release release_annotations
  try_release-own node fresh written m w u v got ann own put = rw (got, ann, own, put)

  with_lock-owner :
      (old : Node) (operation : String) (stamp : ℕ) (timeout : ℤ)
      → str_eq
          (value_of
            (or_new_map (with_lock t old operation owner stamp timeout).annotations)
            lock_owner_annotation)
          owner
        ≡ true
  unfolding with_lock
  with_lock-owner old operation stamp timeout = simp (value_of-set) (eq_refl owner)

  -- `ReleaseLock` asks for no more than the owner: whatever operation the stored lock was taken for, at
  -- whatever time and by whichever call, if the fresh copy of the node that the manager reads has a lock
  -- of the manager's owner, and the write that follows is accepted, then the call succeeds, and no lock
  -- is stored after it. All state machines of the node controller have one owner.
  pub release_lock_any_own :
      (node old fresh written : Node) (operation : String) (stamp : ℕ) (timeout : ℤ) (w u v : W)
      → c.get_node (key_of node) w ≡ (ok fresh, u)
      → fresh.annotations ≡ (with_lock t old operation owner stamp timeout).annotations
      → c.update_node
          (record fresh {
            annotations = some (
                delete_lock
                  (or_new_map (with_lock t old operation owner stamp timeout).annotations));
          })
          u
        ≡ (ok written, v)
      → (release_lock c t owner node w ≡ (ok tt, v))
        × (stored v (key_of node) ≡ some written)
        × (check_lock t written ≡ none)
  unfolding release_lock with_lock
  release_lock_any_own node old fresh written operation stamp timeout w u v got locked put =
      let m = or_new_map (with_lock t old operation owner stamp timeout).annotations in
      let run =
        try_release-own node fresh written m w u v got locked
          (with_lock-owner old operation stamp timeout) put in
      let (_, _, _, _, _, at_v, annotations, _) =
        laws.update_node_stored (record fresh { annotations = some (delete_lock m) }) u written v
          put in
      let (_, same_key) = laws.get_node_stored (key_of node) w fresh u got in
      (
        laws.retry_once (try_release c t owner node) w
              (ap (λ (r : Result Unit × W). fails_with_conflict r.0) run)
            ∙ run,
        subst (λ k. stored v k ≡ some written) same_key at_v,
        check_lock_deleted t m (some (delete_lock m)) refl written annotations,
      )
