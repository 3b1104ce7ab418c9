-- ===== src/Grpc/Manager/Steps.antt =====
-- The interleavings of the manager of the gRPC server (internal/grpcserver/manager.go): its one
-- caller, and the goroutines that serve.
use homelab_autoscaler.Prelude.{◌-◌, String, ◌≡◌, true, some, List, [], ◌∷◌, ◌++◌}
use homelab_autoscaler.Action.{Result, ok}
use homelab_autoscaler.Grpc.Manager.{
  Grpc, Host, Goroutine, spawned, serving, free, waiting, new_server_manager, start, stop,
  finish_stop,
}

module _ {W S L : Type 0} (g : Grpc W S L) where
  -- `Serve` has returned, and `wg.Done` has run.
  abbrev pub without : List (Goroutine S L) → Host W S L → Host W S L
  without left h = record h {
    goroutines = left;
    manager = record h.manager { wg = h.manager.wg - 1 };
  }

  -- The steps that lead to the end of a `Stop`: it returns when the wait group is at 0; a goroutine
  -- reads the server and calls `Serve`; and `Serve` returns, and `wg.Done` runs, on a server on which
  -- `GracefulStop` was called, as documented.
  pub data Closing (h : Host W S L) : Host W S L → Type 0 where
    stop_returns :
        {u : Host W S L}
        → h.caller ≡ waiting
        → h.manager.wg ≡ 0
        → finish_stop g h ≡ (ok tt, u)
        → Closing h u
    serve_begins :
        (before after : List (Goroutine S L)) (s : S) (lis : L)
        → h.goroutines ≡ before ++ spawned lis ∷ after
        → h.manager.server ≡ some s
        → Closing h (record h { goroutines = before ++ serving s lis ∷ after })
    serve_ends :
        (before after : List (Goroutine S L)) (s : S) (lis : L)
        → h.goroutines ≡ before ++ serving s lis ∷ after
        → g.stopping s h.world ≡ true
        → Closing h (without (before ++ after) h)

  -- Beside these, the caller calls `Start` and `Stop`; `Serve` may return at any time with an error,
  -- which is only logged; and at any time the world may change, but while the caller is in `Stop` no
  -- stopped server is as if it were not.
  pub data Step (h : Host W S L) : Host W S L → Type 0 where
    start_called :
        (r : Result Unit) {u : Host W S L} → h.caller ≡ free → start g h ≡ (r, u) → Step h u
    stop_called :
        (r : Result Unit) {u : Host W S L} → h.caller ≡ free → stop g h ≡ (r, u) → Step h u
    closes : {u : Host W S L} → Closing h u → Step h u
    serve_fails :
        (before after : List (Goroutine S L)) (s : S) (lis : L)
        → h.goroutines ≡ before ++ serving s lis ∷ after
        → Step h (without (before ++ after) h)
    elsewhere :
        (w : W)
        → ((s : S) → h.caller ≡ waiting → g.stopping s h.world ≡ true → g.stopping s w ≡ true)
        → Step h (record h { world = w })

  abbrev pub initial : String → W → Host W S L
  initial address w = record {
    manager = new_server_manager address;
    goroutines = [];
    caller = free;
    world = w;
  }

  pub data Reach (address : String) (w : W) : Host W S L → Type 0 where
    begin : Reach address w (initial address w)
    later : {h u : Host W S L} → Reach address w h → Step h u → Reach address w u

  -- A run of closing steps.
  pub data Steps : Host W S L → Host W S L → Type 0 where
    stay : {h : Host W S L} → Steps h h
    next : {h u v : Host W S L} → Closing h u → Steps u v → Steps h v
