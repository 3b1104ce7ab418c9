-- ===== src/Grpc/Manager/Lifecycle.antt =====
-- What holds of the gRPC server's manager (internal/grpcserver/manager.go) in every interleaving.
use homelab_autoscaler.Prelude.{
  ℕ, ◌-◌, String, ◌≡◌, ◌≢◌, refl, ◌⊎◌, inl, inr, none, some, List, [], ◌∷◌, ◌++◌, ap, sym, ◌∙◌,
  subst, arith,
}
use homelab_autoscaler.Action.{Result, ok, err, failure}
use homelab_autoscaler.Grpc.Manager.{
  Grpc, Host, Goroutine, spawned, serving, free, waiting, ServerManager, new_server_manager, start,
  stop, finish_stop,
}
use homelab_autoscaler.Grpc.Manager.Steps.{
  Step, start_called, stop_called, stop_returns, serve_begins, serve_ends, closes, serve_fails,
  elsewhere, Reach, begin, later, initial, without,
}

module _ {W S L : Type 0} (g : Grpc W S L) where
  -- The goroutines of a manager with the server `s` and the listener `lis`, and its wait group.
  abbrev pub Crew : S → L → ℕ → List (Goroutine S L) → Type 0
  Crew s lis wg crew =
      ((crew ≡ []) × (wg ≡ 0))
      ⊎ ((crew ≡ spawned lis ∷ []) × (wg ≡ 1))
      ⊎ ((crew ≡ serving s lis ∷ []) × (wg ≡ 1))

  abbrev pub Stopped : String → Host W S L → Type 0
  Stopped address h =
      (h.manager ≡ new_server_manager address) × (h.goroutines ≡ []) × (h.caller ≡ free)

  abbrev pub Started : String → Host W S L → Type 0
  Started address h =
      (s : S) × (lis : L) × (h.manager.server ≡ some s)
      × (h.manager.listener ≡ some lis)
      × (h.manager.address ≡ address)
      × Crew s lis h.manager.wg h.goroutines

  abbrev pub Sound : String → Host W S L → Type 0
  Sound address h = Stopped address h ⊎ Started address h

  start_fresh :
      (address : String) (w : W) (r : Result L × W)
      → g.listen address w ≡ r
      → Sound address (start g (initial g address w)).1
  unfolding start
  start_fresh address w (ok lis, v) heard =
      rw heard (inr (_, lis, refl, refl, refl, inr (inl (refl, refl))))
  start_fresh address w (err e, v) heard = rw heard (inl (refl, refl, refl))

  Stopped-initial :
      (address : String) (h : Host W S L) → Stopped address h → initial g address h.world ≡ h
  Stopped-initial address h (m, l, f) =
      λ i. record { manager = sym m i; goroutines = sym l i; caller = sym f i; world = h.world }

  pub start_busy :
      (h : Host W S L) (s : S)
      → h.manager.server ≡ some s
      → start g h ≡ (err (failure "server is already running"), h)
  unfolding start
  start_busy h s at = rw at refl

  start-Sound : (address : String) (h : Host W S L) → Sound address h → Sound address (start g h).1
  start-Sound address h (inl stopped) =
      subst (λ k. Sound address (start g k).1) (Stopped-initial address h stopped)
        (start_fresh address h.world _ refl)
  start-Sound address h (inr started) =
      subst (λ k. Sound address k)
        (ap (λ (r : Result Unit × Host W S L). r.1) (sym (start_busy h started.0 started.2)))
        (inr started)

  pub stop_idle : (h : Host W S L) → h.manager.server ≡ none → (stop g h).1 ≡ h
  unfolding stop
  stop_idle h at = rw at refl

  pub stop_busy :
      (h : Host W S L) (s : S)
      → h.manager.server ≡ some s
      → (stop g h).1 ≡ record h { caller = waiting; world = g.graceful_stop s h.world }
  unfolding stop
  stop_busy h s at = rw at refl

  stop-Sound : (address : String) (h : Host W S L) → Sound address h → Sound address (stop g h).1
  stop-Sound address h (inl stopped) =
      subst (λ k. Sound address k)
        (sym (stop_idle h (ap (λ (m : ServerManager S L). m.server) stopped.0))) (inl stopped)
  stop-Sound address h (inr (s, lis, at, heard, named, crew)) =
      subst (λ k. Sound address k) (sym (stop_busy h s at)) (inr (s, lis, at, heard, named, crew))

  pub finish-Sound :
      (address : String) (h : Host W S L)
      → h.caller ≡ waiting
      → h.manager.wg ≡ 0
      → Sound address h
      → Stopped address (finish_stop g h).1
  unfolding finish_stop
  finish-Sound address h c z (inl (m, l, f)) = absurd (cc)
  finish-Sound address h c z (inr (s, lis, at, heard, named, inl (over, _))) =
      (λ i. record { server = none; listener = none; address = named i; wg = z i }, over, refl)
  finish-Sound address h c z (inr (s, lis, at, heard, named, inr (inl (_, one)))) =
      absurd (omega (arith, z, one))
  finish-Sound address h c z (inr (s, lis, at, heard, named, inr (inr (_, one)))) =
      absurd (omega (arith, z, one))

  pub some_one :
      (y : Goroutine S L) (before after : List (Goroutine S L)) → before ++ y ∷ after ≢ []
  some_one y [] after h = cc
  some_one y (b ∷ before) after h = cc

  pub alone :
      (x y : Goroutine S L) (before after : List (Goroutine S L))
      → x ∷ [] ≡ before ++ y ∷ after
      → (x ≡ y) × (before ≡ []) × (after ≡ [])
  alone x y [] after h = (cc, refl, cc)
  alone x y (b ∷ []) after h = absurd (cc)
  alone x y (b ∷ d ∷ before) after h = absurd (cc)

  Crew-begins :
      (s : S) (lis lis' : L) (wg : ℕ) (crew before after : List (Goroutine S L))
      → crew ≡ before ++ spawned lis' ∷ after
      → Crew s lis wg crew
      → Crew s lis wg (before ++ serving s lis' ∷ after)
  Crew-begins s lis lis' wg crew before after h (inl (over, z)) =
      absurd (some_one _ before after (sym h ∙ over))
  Crew-begins s lis lis' wg crew before after h (inr (inl (one, z))) =
      let (x, b, a) = alone _ _ before after (sym one ∙ h) in inr (inr (rw (b, a) (cc), z))
  Crew-begins s lis lis' wg crew before after h (inr (inr (one, z))) =
      let (x, b, a) = alone _ _ before after (sym one ∙ h) in absurd (cc)

  Crew-ends :
      (s s' : S) (lis lis' : L) (wg : ℕ) (crew before after : List (Goroutine S L))
      → crew ≡ before ++ serving s' lis' ∷ after
      → Crew s lis wg crew
      → Crew s lis (wg - 1) (before ++ after)
  Crew-ends s s' lis lis' wg crew before after h (inl (over, z)) =
      absurd (some_one _ before after (sym h ∙ over))
  Crew-ends s s' lis lis' wg crew before after h (inr (inl (one, z))) =
      let (x, b, a) = alone _ _ before after (sym one ∙ h) in absurd (cc)
  Crew-ends s s' lis lis' wg crew before after h (inr (inr (one, z))) =
      let (x, b, a) = alone _ _ before after (sym one ∙ h) in inl (rw (b, a) refl, rw z refl)

  end-Sound :
      (address : String) (h : Host W S L) (before after : List (Goroutine S L)) (s : S) (lis : L)
      → h.goroutines ≡ before ++ serving s lis ∷ after
      → Sound address h
      → Sound address (without g (before ++ after) h)
  end-Sound address h before after s lis at (inl (m, l, f)) =
      absurd (some_one _ before after (sym at ∙ l))
  end-Sound address h before after s lis at (inr (s', lis', got', heard, named, crew)) = inr (
    s',
    lis',
    got',
    heard,
    named,
    Crew-ends s' s lis' lis h.manager.wg h.goroutines before after at crew,
  )

  pub Step-Sound :
      (address : String) {h u : Host W S L} → Step g h u → Sound address h → Sound address u
  Step-Sound address {h} (start_called r c ran) sound =
      subst (λ k. Sound address k) (ap (λ (r : Result Unit × Host W S L). r.1) ran)
        (start-Sound address h sound)
  Step-Sound address {h} (stop_called r c ran) sound =
      subst (λ k. Sound address k) (ap (λ (r : Result Unit × Host W S L). r.1) ran)
        (stop-Sound address h sound)
  Step-Sound address {h} (closes (stop_returns c z ran)) sound =
      subst (λ k. Sound address k) (ap (λ (r : Result Unit × Host W S L). r.1) ran)
        (inl (finish-Sound address h c z sound))
  Step-Sound address {h} (closes (serve_begins before after s lis at got)) (inl (m, l, f)) =
      absurd (some_one _ before after (sym at ∙ l))
  Step-Sound address {h} (closes (serve_begins before after s lis at got))
        (inr (s', lis', got', heard, named, crew)) =
      inr (
        s,
        lis',
        got,
        heard,
        named,
        Crew-begins s lis' lis h.manager.wg h.goroutines before after at
            (subst (λ x. Crew x lis' h.manager.wg h.goroutines) (cc) crew),
      )
  Step-Sound address {h} (closes (serve_ends before after s lis at asked)) sound =
      end-Sound address h before after s lis at sound
  Step-Sound address {h} (serve_fails before after s lis at) sound =
      end-Sound address h before after s lis at sound
  Step-Sound address (elsewhere w keeps) sound = sound

  -- In every interleaving the manager of the gRPC server is either stopped, and then it is as
  -- `NewServerManager` made it and no goroutine of it is left; or it has a server and a listener, and at
  -- most one goroutine, which holds that listener and, once it serves, serves that server, while the
  -- wait group counts exactly the goroutines.
  pub Reach-Sound :
      (address : String) (w : W) (h : Host W S L) → Reach g address w h → Sound address h
  Reach-Sound address w h begin = inl (refl, refl, refl)
  Reach-Sound address w h (later before step) =
      Step-Sound address step (Reach-Sound address w _ before)
