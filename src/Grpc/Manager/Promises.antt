-- ===== src/Grpc/Manager/Promises.antt =====
-- What the users of the gRPC server's manager (internal/grpcserver/manager.go) can rely on.
use homelab_autoscaler.Prelude.{
  String, ◌≡◌, refl, inl, inr, true, Option, Option-cases, none, some, is_some, subst, List, [],
  ◌∷◌, ◌++◌, ap, sym, ◌∙◌,
}
use homelab_autoscaler.Action.{Result, ok, err, failure}
use homelab_autoscaler.Grpc.Manager.{
  Grpc, GrpcLaws, Host, Goroutine, spawned, serving, free, waiting, start, stop, finish_stop,
  is_running,
}
use homelab_autoscaler.Grpc.Manager.Steps.{
  start_called, stop_called, stop_returns, serve_begins, serve_ends, closes, serve_fails, elsewhere,
  begin, later, Reach, without, Steps, stay, next,
}
use homelab_autoscaler.Grpc.Manager.Lifecycle.{
  Crew, Stopped, Sound, Reach-Sound, Step-Sound, some_one, alone, start_busy, stop_idle, stop_busy,
  finish-Sound,
}

module _ {W S L : Type 0} (g : Grpc W S L) (address : String) (w : W) where
  -- In every interleaving, whenever a goroutine of `Start` has yet to read the manager's server, the
  -- server is there: the goroutine never calls `Serve` on nil, not even when `Stop` was called
  -- before it came to run.
  pub server_never_nil :
      (h : Host W S L) (before after : List (Goroutine S L)) (lis : L)
      → Reach g address w h
      → h.goroutines ≡ before ++ spawned lis ∷ after
      → (s : S) × (h.manager.server ≡ some s) × (h.manager.listener ≡ some lis)
  server_never_nil h before after lis reach at = go (Reach-Sound g address w h reach)
    where
      go :
          Sound g address h
          → (s : S) × (h.manager.server ≡ some s) × (h.manager.listener ≡ some lis)
      go (inl (m, l, f)) = absurd (some_one g _ before after (sym at ∙ l))
      go (inr (s, lis', got, heard, named, inl (over, z))) =
          absurd (some_one g _ before after (sym at ∙ over))
      go (inr (s, lis', got, heard, named, inr (inl (one, z)))) =
          let (x, b, a) = alone g _ _ before after (sym one ∙ at) in (s, got, heard ∙ cc)
      go (inr (s, lis', got, heard, named, inr (inr (one, z)))) =
          let (x, b, a) = alone g _ _ before after (sym one ∙ at) in absurd (cc)

  returned :
      (h : Host W S L)
      → Sound g address h
      → h.caller ≡ waiting
      → h.manager.wg ≡ 0
      → (u : Host W S L) × Steps g h u × Stopped g address u
  unfolding finish_stop
  returned h sound c z = (
    (finish_stop g h).1,
    next (stop_returns {u = (finish_stop g h).1} c z refl) stay,
    finish-Sound g address h c z sound,
  )

  ended :
      (h : Host W S L) (s : S) (lis : L)
      → g.stopping s h.world ≡ true
      → Sound g address h
      → h.caller ≡ waiting
      → h.goroutines ≡ serving s lis ∷ []
      → h.manager.wg ≡ 1
      → (u : Host W S L) × Steps g h u × Stopped g address u
  ended h s lis asked sound c at one =
      let step = serve_ends [] [] s lis at asked in
      let (u, steps, stopped) =
        returned _ (Step-Sound g address (closes step) sound) c (rw one refl) in
      (u, next step steps, stopped)

  -- Whenever the caller waits in `Stop`, `GracefulStop` was called on the manager's server.
  Asked : Host W S L → Type 0
  Asked h =
      h.caller ≡ waiting → (s : S) × (h.manager.server ≡ some s) × (g.stopping s h.world ≡ true)

  start_caller : (h : Host W S L) → (start g h).1.caller ≡ h.caller
  unfolding start
  start_caller h = go h.manager.server (g.listen h.manager.address h.world) refl refl
    where
      go :
          (o : Option S) (r : Result L × W)
          → h.manager.server ≡ o
          → g.listen h.manager.address h.world ≡ r
          → (start g h).1.caller ≡ h.caller
      go (some s) r at heard = rw at refl
      go none (ok lis, v) at heard = rw (at, heard) refl
      go none (err x, v) at heard = rw (at, heard) refl

  stop-Asked : (h : Host W S L) → h.caller ≡ free → GrpcLaws g → Asked (stop g h).1
  unfolding Asked
  stop-Asked h idle laws waits = elim (Option-cases h.manager.server) [
    | inl at ↦ absurd (cc (idle, ap (λ (u : Host W S L). u.caller) (stop_idle g h at), waits))
    | inr (s, at) ↦
        let now = stop_busy g h s at in
        (
          s,
          ap (λ (u : Host W S L). u.manager.server) now ∙ at,
          ap (λ (u : Host W S L). g.stopping s u.world) now ∙ laws.graceful_stop_stops s h.world,
        )
  ]

  Reach-Asked : GrpcLaws g → (h : Host W S L) → Reach g address w h → Asked h
  unfolding Asked finish_stop
  Reach-Asked laws h begin waits = absurd (cc)
  Reach-Asked laws u (later {h} before (start_called r idle ran)) waits =
      absurd
        (cc (idle, start_caller h, ap (λ (x : Result Unit × Host W S L). x.1.caller) ran, waits))
  Reach-Asked laws u (later {h} before (stop_called r idle ran)) waits =
      subst Asked (ap (λ (x : Result Unit × Host W S L). x.1) ran) (stop-Asked h idle laws) waits
  Reach-Asked laws u (later {h} before (closes (stop_returns c z ran))) waits =
      absurd (cc (ap (λ (x : Result Unit × Host W S L). x.1.caller) ran, waits))
  Reach-Asked laws u (later {h} before (closes (serve_begins b a s lis at got))) waits =
      Reach-Asked laws h before waits
  Reach-Asked laws u (later {h} before (closes (serve_ends b a s lis at asked))) waits =
      Reach-Asked laws h before waits
  Reach-Asked laws u (later {h} before (serve_fails b a s lis at)) waits =
      Reach-Asked laws h before waits
  Reach-Asked laws u (later {h} before (elsewhere x keeps)) waits =
      let (s, at, asked) = Reach-Asked laws h before waits in (s, at, keeps s waits asked)

  -- `Stop` can always complete, for `GracefulStop` was called: with a gRPC library in which `Serve` is
  -- only known to return after that, in every interleaving in which the caller waits in `Stop`, there
  -- are steps of the goroutines and a return of `Stop` after which no goroutine is left and the manager
  -- is as `NewServerManager` made it, so that it can be started again.
  pub stop_completes :
      (laws : GrpcLaws g) (h : Host W S L)
      → Reach g address w h
      → h.caller ≡ waiting
      → (u : Host W S L) × Steps g h u × Stopped g address u
  unfolding Asked
  stop_completes laws h reach c =
      let (s', at', asked') = Reach-Asked laws h reach c in
      go s' at' asked' (Reach-Sound g address w h reach)
    where
      asked_of :
          (s s' : S)
          → h.manager.server ≡ some s'
          → g.stopping s' h.world ≡ true
          → h.manager.server ≡ some s
          → g.stopping s h.world ≡ true
      asked_of s s' at' asked' got =
          let same : s' ≡ s = cc in subst (λ x. g.stopping x h.world ≡ true) same asked'

      go :
          (s' : S)
          → h.manager.server ≡ some s'
          → g.stopping s' h.world ≡ true
          → Sound g address h
          → (u : Host W S L) × Steps g h u × Stopped g address u
      go s' at' asked' (inl (m, l, f)) = absurd (cc)
      go s' at' asked' (inr (s, lis, got, heard, named, inl (over, z))) =
          returned h (inr (s, lis, got, heard, named, inl (over, z))) c z
      go s' at' asked' (inr (s, lis, got, heard, named, inr (inl (one, z)))) =
          let sound : Sound g address h = inr (s, lis, got, heard, named, inr (inl (one, z))) in
          let step = serve_begins [] [] s lis one got in
          let (u, steps, stopped) =
            ended _ s lis (asked_of s s' at' asked' got) (Step-Sound g address (closes step) sound)
              c refl z in
          (u, next step steps, stopped)
      go s' at' asked' (inr (s, lis, got, heard, named, inr (inr (one, z)))) =
          ended h s lis (asked_of s s' at' asked' got)
            (inr (s, lis, got, heard, named, inr (inr (one, z)))) c one z

  -- `IsRunning` does not look at the goroutine: when `Serve` has returned, with an error or without,
  -- before `Stop` was called, then in every interleaving no goroutine serves any more, `IsRunning` still
  -- answers true, and `Start` refuses to serve again.
  pub running_without_serving :
      (h : Host W S L) (before after : List (Goroutine S L)) (s : S) (lis : L)
      → Reach g address w h
      → h.goroutines ≡ before ++ serving s lis ∷ after
      → ((without g (before ++ after) h).goroutines ≡ [])
        × (is_running (without g (before ++ after) h).manager ≡ true)
        × (start g (without g (before ++ after) h)
            ≡ (err (failure "server is already running"), without g (before ++ after) h))
  running_without_serving h before after s lis reach at = go (Reach-Sound g address w h reach)
    where
      go :
          Sound g address h
          → ((without g (before ++ after) h).goroutines ≡ [])
            × (is_running (without g (before ++ after) h).manager ≡ true)
            × (start g (without g (before ++ after) h)
                ≡ (err (failure "server is already running"), without g (before ++ after) h))
      go (inl (m, l, f)) = absurd (some_one g _ before after (sym at ∙ l))
      go (inr (s', lis', got, heard, named, crew)) =
          (alone_left crew, ap (λ (o : Option S). is_some o) got, start_busy g _ s' got)
        where
          alone_left : Crew g s' lis' h.manager.wg h.goroutines → before ++ after ≡ []
          alone_left (inl (over, z)) = absurd (some_one g _ before after (sym at ∙ over))
          alone_left (inr (inl (one, z))) =
              let (x, b, a) = alone g _ _ before after (sym one ∙ at) in rw (b, a) refl
          alone_left (inr (inr (one, z))) =
              let (x, b, a) = alone g _ _ before after (sym one ∙ at) in rw (b, a) refl
