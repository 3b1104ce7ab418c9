-- ===== src/Entry/Ends.antt =====
-- How the entry point (cmd/main.go) ends, and what becomes of the gRPC server.
use homelab_autoscaler.Prelude.{String, ◌≡◌, refl, true, Option, some, is_some, ap, sym, ◌∙◌, subst}
use homelab_autoscaler.Action.{Act, Result, ok, err, Error, when, ◌>>◌, continue-eq-ok}
use homelab_autoscaler.Grpc.Manager.{
  Grpc, GrpcLaws, Host, free, waiting, is_running, new_server_manager, start, stop, call_host,
}
use homelab_autoscaler.Grpc.Manager.Steps.{
  start_called, stop_called, elsewhere, Reach, begin, later, Steps, initial,
}
use homelab_autoscaler.Grpc.Manager.Lifecycle.{Stopped, stop_busy}
use homelab_autoscaler.Grpc.Manager.Promises.{stop_completes}
use homelab_autoscaler.Entry.{Runtime, set_up, start_grpc, stop_grpc, main}
use homelab_autoscaler.Entry.Options.{Flags}

module _ {W S L : Type 0} (g : Grpc W S L) where
  call_frame :
      {A : Type 0} (m : Act W A) (h k : Host W S L) (r : Result A)
      → call_host g m h ≡ (r, k)
      → k ≡ record h { world = k.world }
  call_frame {A} m h k r e =
      let same = ap (λ (x : Result A × Host W S L). x.1) e in
      sym same ∙ ap (λ (x : Host W S L). record h { world = x.world }) same

  -- A start that succeeds has made a server, and leaves the caller free.
  start-ok :
      (address : String) (w : W) (h : Host W S L) (r : Result L × W)
      → g.listen address w ≡ r
      → start g (initial g address w) ≡ (ok tt, h)
      → (s : S) × (h.manager.server ≡ some s) × (h.caller ≡ free)
  unfolding start
  start-ok address w h (ok lis, v) heard ran =
      let settled = rw heard at ran in
      (
        _,
        sym (ap (λ (x : Result Unit × Host W S L). x.1.manager.server) settled),
        sym (ap (λ (x : Result Unit × Host W S L). x.1.caller) settled),
      )
  start-ok address w h (err x, v) heard ran = absurd (cc (rw heard at ran))

  module _ {M : Type 0} (rt : Runtime W M) (flags : Flags) (env : String) where
    -- If the controller manager ends with an error while the gRPC server runs, `main` exits without
    -- having called `Stop`: it leaves the server of the `ServerManager` as it was.
    pub main_skips_stop :
        (address : String) (w w1 w3 : W) (mgr : M) (h : Host W S L) (x : Error)
        → flags.enable_grpc_server ≡ true
        → set_up rt flags env w ≡ (ok mgr, w1)
        → start g (initial g flags.grpc_server_addr w1) ≡ (ok tt, h)
        → rt.start_manager mgr h.world ≡ (err x, w3)
        → (main rt g flags env (initial g address w) ≡ (err x, record h { world = w3 }))
          × (is_running h.manager ≡ true)
          × (h.caller ≡ free)
    unfolding main start_grpc
    main_skips_stop address w w1 w3 mgr h x enabled ready started failed =
        let (s, at, still) =
          start-ok flags.grpc_server_addr w1 h (g.listen flags.grpc_server_addr w1) refl started in
        (
          rw (ready, enabled) (rw started (rw failed refl)),
          ap (λ (o : Option S). is_some o) at,
          still,
        )

    -- The runs of a `main` that returned: its steps, and that its deferred `Stop` waits.
    returned :
        (address : String) (w : W) (h h' u : Host W S L)
        → start g (initial g address w) ≡ (ok tt, h)
        → h' ≡ record h { world = h'.world }
        → stop_grpc rt g h' ≡ (ok tt, u)
        → Reach g address w u × (u.caller ≡ waiting)
    unfolding stop_grpc
    returned address w h h' u started same ran =
        let (s, at, still) = start-ok address w h (g.listen address w) refl started in
        let up : h'.manager.server ≡ some s = ap (λ (k : Host W S L). k.manager.server) same ∙ at in
        let here : Reach g address w h' =
          subst (λ k. Reach g address w k) (sym same)
            (later (later begin (start_called (ok tt) refl started))
              (elsewhere h'.world (λ s waits. absurd (cc)))) in
        let after : (stop g h').1 ≡ u = ap (λ (r : Result Unit × Host W S L). r.1) ran in
        (
          later here (
              stop_called (stop g h').0 (ap (λ (k : Host W S L). k.caller) same ∙ still)
                (ap (λ (k : Host W S L). ((stop g h').0, k)) after)),
          sym (ap (λ (k : Host W S L). k.caller) after)
              ∙ ap (λ (k : Host W S L). k.caller) (stop_busy g h' s up),
        )

    -- When the controller manager ends without an error, so that `main` returns, its deferred call waits
    -- in `Stop`, where the gRPC server was enabled, and can complete: with a gRPC library in which
    -- `Serve` is only known to return after `GracefulStop`, there are steps of the server's goroutine
    -- and a return of `Stop` after which no goroutine is left and the manager is as
    -- `NewServerManager` made it.
    pub main_stops :
        (laws : GrpcLaws g) (address : String) (w : W) (u : Host W S L)
        → flags.enable_grpc_server ≡ true
        → main rt g flags env (initial g address w) ≡ (ok tt, u)
        → (u.caller ≡ waiting)
          × ((v : Host W S L) × Steps g u v × Stopped g flags.grpc_server_addr v)
    unfolding main start_grpc
    main_stops laws address w u enabled ran =
        let (mgr, h1, got, ran1) =
          continue-eq-ok (call_host g (set_up rt flags env) (initial g address w))
            (λ (mgr : M).
              when flags.enable_grpc_server (start_grpc rt g flags.grpc_server_addr)
              >> (call_host g (rt.start_manager mgr)
                  >> when flags.enable_grpc_server (stop_grpc rt g)))
            ran in
        let (_, h2, started, ran2) =
          continue-eq-ok (start_grpc rt g flags.grpc_server_addr h1)
            (λ _. call_host g (rt.start_manager mgr) >> stop_grpc rt g) (rw enabled at ran1) in
        let (_, h3, served, ran3) =
          continue-eq-ok (call_host g (rt.start_manager mgr) h2) (λ _. stop_grpc rt g) ran2 in
        let (reach, waits) =
          returned flags.grpc_server_addr h1.world h2 h3 u
            (ap
                (λ (k : Host W S L).
                  start g (record k { manager = new_server_manager flags.grpc_server_addr }))
                (sym (call_frame (set_up rt flags env) (initial g address w) h1 _ got))
              ∙ started)
            (call_frame (rt.start_manager mgr) h2 h3 _ served) ran3 in
        (waits, stop_completes g flags.grpc_server_addr h1.world laws u reach waits)
