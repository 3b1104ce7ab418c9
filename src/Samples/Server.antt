-- ===== src/Samples/Server.antt =====
-- The sample server keeps the laws of the API server.
use Prim.Native.String.{◌++◌ as text_append}
use mathlib.Core.Path.{fun_ext}
use homelab_autoscaler.Prelude.{
  inl, inr, Bool-cases, ℕ, str_eq, ◌≡◌, refl, Bool, true, false, Option, none, some, eq_iff,
  eq_refl, arith, sym, ◌∙◌, ap, subst₂, if◌then◌else◌,
}
use homelab_autoscaler.Action.{ok}
use homelab_autoscaler.Api.{Node, Key, key_of}
use homelab_autoscaler.Api.Client.{time_now}
use homelab_autoscaler.Api.Server.{ServerLaws, WriteLaws, same_key, replaced}
use homelab_autoscaler.Fsm.KubeNodes.Retries.{ClockLaws}
use homelab_autoscaler.Samples.World.{Cluster, server, accepts, give, put}

abbrev pub stored : Cluster → Key → Option Node
stored w k = if same_key (key_of w.node) k then some w.node else none

-- Between two calls nobody else writes here.
abbrev pub Later : Cluster → Cluster → Type 0
Later v w = v.node ≡ w.node

same_key-eq : (j k : Key) → same_key j k ≡ true → j ≡ k
same_key-eq j k h = ground (arith, eq_iff j.name k.name, eq_iff j.namespace k.namespace)

given :
    (b : Bool) (w : Cluster) (k : Key)
    → same_key (key_of w.node) k ≡ b
    → (n : Node) (v : Cluster) → give b w.node w ≡ (ok n, v)
    → (stored v k ≡ some n) × (key_of n ≡ k)
given true w k e n v h =
    let p : w.node ≡ n = cc in
    let q : w ≡ v = cc in
    subst₂ (λ (x : Node) (u : Cluster). (stored u k ≡ some x) × (key_of x ≡ k)) p q
      (rw e refl, same_key-eq _ k e)
given false w k e n v h = absurd (cc)

stored_node : (w : Cluster) (k : Key) (n : Node) → stored w k ≡ some n → n ≡ w.node
stored_node w k n h = ground arith

same_key_refl : (k : Key) → same_key k k ≡ true
same_key_refl k = rw (eq_refl k.name, eq_refl k.namespace)

accepts-eq :
    (w : Cluster) (n : Node)
    → accepts w n ≡ true
    → (same_key (key_of w.node) (key_of n) ≡ true) × (w.node.resource_version ≡ n.resource_version)
accepts-eq w n e = ground (arith, eq_iff w.node.resource_version n.resource_version)

stored-replaced :
    (w : Cluster) (x : Node)
    → key_of w.node ≡ key_of x
    → stored (record w { node = x }) ≡ replaced (stored w) (key_of x) x
stored-replaced w x h = fun_ext λ j. elim (Bool-cases (same_key (key_of x) j)) [
  | inl yes_key ↦ rw yes_key refl
  | inr no_key ↦ rw no_key (rw (ap (λ (k : Key). same_key k j) h ∙ no_key) refl)
]

putted :
    (b : Bool) (n : Node) (w : Cluster)
    → accepts w n ≡ b
    → (m : Node) (v : Cluster) → put b n w ≡ (ok m, v)
    → (u : Cluster) × Later w u
      × (old : Node) × (stored u (key_of n) ≡ some old)
      × (old.resource_version ≡ n.resource_version)
      × (stored v (key_of n) ≡ some m)
      × (m.annotations ≡ n.annotations)
      × (stored v ≡ replaced (stored u) (key_of n) m)
putted true n w e m v h =
    let x : Node = record n { resource_version = text_append "1" n.resource_version } in
    let p : x ≡ m = cc in
    let q : record w { node = x } ≡ v = cc in
    let (key, version) = accepts-eq w n e in
    (
      w,
      refl,
      w.node,
      rw key refl,
      version,
      subst₂ (λ (y : Node) (u : Cluster). stored u (key_of n) ≡ some y) p q
          (rw (same_key_refl (key_of n)) refl),
      sym (ap (λ (y : Node). y.annotations) p),
      subst₂ (λ (y : Node) (u : Cluster). stored u ≡ replaced (stored w) (key_of n) y) p q
          (stored-replaced w x (same_key-eq _ _ key)),
    )
putted false n w e m v h = absurd (cc)

pub server_laws : ServerLaws server stored Later
server_laws = record {
  later_refl = λ w. refl;
  later_trans = λ p q. p ∙ q;
  now_later = λ w. (unfold time_now in refl);
  get_node_stored = λ k w n v h. given (same_key (key_of w.node) k) w k refl n v h;
  same_version = λ v w k n m later p q _. stored_node v k n p ∙ later ∙ sym (stored_node w k m q);
  update_node_stored = λ n w m v h. putted (accepts w n) n w refl m v h;
  retry_last = λ f w. (w, refl);
  retry_once = λ f w h. refl;
}

abbrev pub clock_of : Cluster → ℕ
clock_of w = w.clock

given_world : {A : Type 0} (b : Bool) (a : A) (w : Cluster) → (give b a w).1 ≡ w
given_world true a w = refl
given_world false a w = refl

pub clock_laws : ClockLaws server clock_of
clock_laws = record {
  now_reads = λ w. refl;
  now_later = λ w. omega arith;
  get_later = λ name w. rw (given_world (str_eq name "metal") w.kube w) (omega arith);
  update_later = λ k w. omega arith;
  sleep_later = λ d w. omega arith;
}

pub put_keeps :
    (b : Bool) (n m : Node) (w v : Cluster)
    → put b n w ≡ (ok m, v)
    → (m.spec ≡ n.spec) × (m.status ≡ n.status)
put_keeps true n m w v h =
    let p : record n { resource_version = text_append "1" n.resource_version } ≡ m = cc in
    (ap (λ (x : Node). x.spec) (sym p), ap (λ (x : Node). x.status) (sym p))
put_keeps false n m w v h = absurd (cc)

pub write_laws : WriteLaws server
write_laws = record {
  update_node_keeps = λ n m w v h. put_keeps (accepts w n) n m w v h;
  update_status_keeps = λ n m w v h. (put_keeps (accepts w n) n m w v h).1;
}
