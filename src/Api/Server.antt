-- ===== src/Api/Server.antt =====
-- What the program relies on about the API server and its clock, as documented: optimistic locking
-- by resource versions, and client-go's `RetryOnConflict`.
use homelab_autoscaler.Prelude.{
  ◌≡◌, Bool, false, ◌||◌, ◌&&◌, if◌then◌else◌, Option, some, List, [], ◌∷◌, str_eq,
}
use homelab_autoscaler.Prelude.Lists.{exists_in}
use homelab_autoscaler.Action.{Act, Result, ok, err, is_conflict}
use homelab_autoscaler.Api.{Node, Condition, Key, key_of}
use homelab_autoscaler.Api.Client.{Client, time_now}

abbrev pub fails_with_conflict : {A : Type 0} → Result A → Bool
fails_with_conflict (ok _) = false
fails_with_conflict (err e) = is_conflict e

-- `a == b` on keys.
abbrev pub same_key : Key → Key → Bool
same_key j k = str_eq j.name k.name && str_eq j.namespace k.namespace

-- A store in which one object is replaced, and nothing else.
abbrev pub replaced : (Key → Option Node) → Key → Node → Key → Option Node
replaced store k n j = if same_key k j then some n else store j

-- `stored` is what the server holds, and `Later` the passing of time, with whatever others do.
pub record ServerLaws {W : Type 0} (c : Client W) (stored : W → Key → Option Node)
    (Later : W → W → Type 0) : Type 0 where
  pub later_refl : (w : W) → Later w w
  pub later_trans : {u v w : W} → Later u v → Later v w → Later u w
  pub now_later : (w : W) → Later w (time_now c w).1
  -- `Get` returns what is stored under the key when it answers.
  pub get_node_stored :
      (k : Key) (w : W) (n : Node) (v : W)
      → c.get_node k w ≡ (ok n, v)
      → (stored v k ≡ some n) × (key_of n ≡ k)
  -- A resource version names one content of an object: nothing changes without a new version.
  pub same_version :
      (v w : W) (k : Key) (n m : Node)
      → Later v w
      → stored v k ≡ some n
      → stored w k ≡ some m
      → n.resource_version ≡ m.resource_version
      → n ≡ m
  -- `Update` succeeds only on the version that is stored at that moment, and then stores the object: `u`
  -- and `v` are the moments right before and right after the write, which changes nothing else.
  pub update_node_stored :
      (n : Node) (w : W) (m : Node) (v : W)
      → c.update_node n w ≡ (ok m, v)
      → (u : W) × Later w u
        × (old : Node) × (stored u (key_of n) ≡ some old)
        × (old.resource_version ≡ n.resource_version)
        × (stored v (key_of n) ≡ some m)
        × (m.annotations ≡ n.annotations)
        × (stored v ≡ replaced (stored u) (key_of n) m)
  -- `RetryOnConflict` returns what its last run returned, and does not run again after a success
  -- or another error.
  pub retry_last : (f : Act W Unit) (w : W) → (v : W) × (c.retry_on_conflict f w ≡ f v)
  pub retry_once :
      (f : Act W Unit) (w : W) → fails_with_conflict (f w).0 ≡ false → c.retry_on_conflict f w ≡ f w

-- What a write answers with: `Update` the object as it was sent, but for what the server maintains
-- itself; `Status().Update` the status that was sent. The status is a subresource, so `Update` keeps the
-- stored one: that is the one sent, for the program sends the status of the version that it read.
pub record WriteLaws {W : Type 0} (c : Client W) : Type 0 where
  pub update_node_keeps :
      (n m : Node) (w v : W)
      → c.update_node n w ≡ (ok m, v)
      → (m.spec ≡ n.spec) × (m.status ≡ n.status)
  pub update_status_keeps :
      (n m : Node) (w v : W) → c.update_node_status n w ≡ (ok m, v) → m.status ≡ n.status

-- Whether two conditions of a list have one type.
unfoldable pub has_repeat : List Condition → Bool
has_repeat [] = false
has_repeat (x ∷ xs) =
    let rest = has_repeat xs in exists_in (λ (y : Condition). str_eq x.kind y.kind) xs || rest

-- The status of a Node declares its conditions as a map by type (`+listType=map`, `+listMapKey=type`),
-- so the server refuses one that has a type twice; and client-go's `RetryOnConflict` returns what its
-- last run returned.
pub record StatusLaws {W : Type 0} (c : Client W) : Type 0 where
  pub repeat_refused :
      (n m : Node) (w v : W)
      → c.update_node_status n w ≡ (ok m, v)
      → has_repeat n.status.conditions ≡ false
  pub retry_node_last : (f : Act W Node) (w : W) → (v : W) × (c.retry_node_on_conflict f w ≡ f v)
