-- ===== src/Controller/Nodes/Requests.antt =====
-- Which nodes a reconciliation of internal/controller/infra/node_controller.go goes on to drive.
use homelab_autoscaler.Prelude.{
  ℕ, ◌*◌, String, ◌≡◌, refl, ◌⊎◌, inl, inr, true, false, Option, none, some, is_some, ap, sym, ◌∙◌,
  Bool-cases,
}
use homelab_autoscaler.Action.{Result, ok, err, Error, is_not_found, continue-eq-ok, ◌>>◌, pure}
use homelab_autoscaler.Api.{Node, Key, Group, second}
use homelab_autoscaler.Api.Maps.{lookup}
use homelab_autoscaler.Api.Text.{Texts}
use homelab_autoscaler.Api.Client.{Client}
use homelab_autoscaler.Fsm.Machine.{Sys}
use homelab_autoscaler.Fsm.Machine.Engine.{Engine}
use homelab_autoscaler.Controller.Cleanup.{cleanup_expired_locks}
use homelab_autoscaler.Controller.Nodes.{
  add_labels, set_provider_id, set_controller_reference, handle_node_deletion, transit, own, join,
  reconcile,
}

module _ {W : Type 0} (c : Client W) (t : Texts) (fuel : ℕ) (e : Engine (Sys W))
    (set_reference : Group → Node → Result Node) where
  -- What became of a node with a group label: its group is missing, and it is asked for again in 5
  -- seconds; or the group is its controller and then, if the node is being deleted, nothing more is
  -- done, and otherwise it is driven.
  abbrev pub Owned : Node → String → W → ℕ → W → Type 0
  Owned node name w wait v =
      ((x : Error) × (c.get_group (record { name = name; namespace = node.namespace }) w
          ≡ (err x, v))
        × (is_not_found x ≡ true)
        × (wait ≡ 5 * second))
      ⊎ ((group : Group) × (owned : Node) × (w1 w2 : W) × (c.get_group
              (record { name = name; namespace = node.namespace }) w
            ≡ (ok group, w1))
          × (set_controller_reference c set_reference node group w1 ≡ (ok owned, w2))
          × (((is_some owned.deletion_timestamp ≡ true)
                × (wait ≡ 0)
                × (v ≡ (set_provider_id c owned w2).1))
              ⊎ ((is_some owned.deletion_timestamp ≡ false)
                  × (transit c t fuel e owned (set_provider_id c owned w2).1 ≡ (ok wait, v)))))

  -- The whole course of a reconciliation: the cleanup of expired locks, the read of the node, the
  -- labels, and what becomes of the node.
  abbrev pub Handled : Key → W → ℕ → W → Type 0
  Handled request w wait v =
      (node : Node) × (name : String) × (w2 w3 : W) × (c.get_node request
          (cleanup_expired_locks c t w).1
        ≡ (ok node, w2))
      × (add_labels c node w2 ≡ (ok tt, w3))
      × (lookup node.labels "group" ≡ some name)
      × Owned node name w3 wait v

  pure-eq : {a b : ℕ} {u v : W} → pure a u ≡ (ok b, v) → (a ≡ b) × (u ≡ v)
  pure-eq h = (cc, ap (λ (r : Result ℕ × W). r.1) h)

  own-Owned :
      (node : Node) (name : String) (w : W) (r : Result Group × W) (wait : ℕ) (v : W)
      → c.get_group (record { name = name; namespace = node.namespace }) w ≡ r
      → own c t fuel e set_reference node r.0 r.1 ≡ (ok wait, v)
      → Owned node name w wait v
  unfolding own handle_node_deletion
  own-Owned node name w (err x, u) wait v got h = elim (Bool-cases (is_not_found x)) [
    | inl missing ↦
        let (same_wait, same_world) = pure-eq (rw missing at h) in
        inl (x, got ∙ ap (λ (y : W). (err x, y)) same_world, missing, sym same_wait)
    | inr other ↦ absurd (cc (rw other at h))
  ]
  own-Owned node name w (ok group, u) wait v got h =
      let (owned, w2, set, h1) =
        continue-eq-ok (set_controller_reference c set_reference node group u) _ h in
      elim (Bool-cases (is_some owned.deletion_timestamp)) [
        | inl gone ↦
            let (same_wait, same_world) = pure-eq (rw gone at h1) in
            inr (group, owned, u, w2, got, set, inl (gone, sym same_wait, sym same_world))
        | inr here ↦ inr (group, owned, u, w2, got, set, inr (here, rw here at h1))
      ]

  join-Owned :
      (node : Node) (o : Option String) (w : W) (wait : ℕ) (v : W)
      → join c t fuel e set_reference node o w ≡ (ok wait, v)
      → (name : String) × (o ≡ some name) × Owned node name w wait v
  unfolding join
  join-Owned node none w wait v h = absurd (cc)
  join-Owned node (some name) w wait v h = (
    name,
    refl,
    own-Owned node name w (c.get_group (record { name = name; namespace = node.namespace }) w) wait
        v refl h,
  )

  -- The only nodes that a reconciliation drives: if it ends without an error, then after the cleanup of
  -- expired locks it has read a node with a group label and written its labels, and after that either the group of that name was missing, and it asks to be called again in 5
  -- seconds; or the group was found and made the node's controller, and then a node that is being
  -- deleted is left alone but for the provider ID, with no further request, and only a node that is
  -- not being deleted goes on to have its state validated and its transitions handled.
  pub reconcile-Handled :
      (request : Key) (w : W) (wait : ℕ) (v : W)
      → reconcile c t fuel e set_reference request w ≡ (ok wait, v)
      → Handled request w wait v
  unfolding reconcile
  reconcile-Handled request w wait v h =
      let w1 = (cleanup_expired_locks c t w).1 in
      let (node, w2, got, h1) =
        continue-eq-ok (c.get_node request w1)
          (λ node.
            add_labels c node >> join c t fuel e set_reference node (lookup node.labels "group"))
          h in
      let (_, w3, labelled_kube, h2) =
        continue-eq-ok (add_labels c node w2)
          (λ _. join c t fuel e set_reference node (lookup node.labels "group")) h1 in
      let (name, labelled, owned) = join-Owned node (lookup node.labels "group") w3 wait v h2 in
      (node, name, w2, w3, got, labelled_kube, labelled, owned)
