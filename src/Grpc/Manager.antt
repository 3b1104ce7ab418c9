-- ===== src/Grpc/Manager.antt =====
-- The manager of the gRPC server (internal/grpcserver/manager.go). The network and the gRPC library
-- are parameters. `Stop` blocks in `wg.Wait`, so it is two actions, before and after.
pub mod Steps
pub mod Lifecycle
pub mod Promises
use homelab_autoscaler.Prelude.{
  ℕ, ◌+◌, ◌-◌, String, ◌≡◌, Bool, true, Option, none, some, is_some, List, [], ◌∷◌, ◌++◌,
}
use homelab_autoscaler.Action.{Act, Result, ok, err, pure, raise, failure, wrap, when, ◌>>=◌, ◌>>◌}
use homelab_autoscaler.Grpc.Constants.{HomeClusterProviderServer, new_home_cluster_provider_server}

-- `net.Listen` for TCP and the address of a listener; `grpc.NewServer`, the registration of the two
-- services, and `GracefulStop`. `stopping` tells whether `GracefulStop` was called on a server.
pub record Grpc (W S L : Type 0) : Type 0 where
  pub listen : String → Act W L
  pub addr : L → String
  pub new_server : W → S × W
  pub register_reflection : S → W → W
  pub register_provider : S → HomeClusterProviderServer → W → W
  pub graceful_stop : S → W → W
  pub stopping : S → W → Bool

pub record GrpcLaws {W S L : Type 0} (g : Grpc W S L) : Type 0 where
  pub graceful_stop_stops : (s : S) (w : W) → g.stopping s (g.graceful_stop s w) ≡ true

-- The fields but for the API client and the scheme; `wg` is the counter of the wait group.
pub record ServerManager (S L : Type 0) : Type 0 where
  pub server : Option S
  pub listener : Option L
  pub address : String
  pub wg : ℕ

-- The goroutine of `Start`: it has the listener, and reads the server when it comes to run.
pub data Goroutine (S L : Type 0) : Type 0 where
  spawned : L → Goroutine S L
  serving : S → L → Goroutine S L

-- Whether the one caller is inside `Stop`.
pub data Caller : Type 0 where
  free waiting : Caller

pub record Host (W S L : Type 0) : Type 0 where
  pub manager : ServerManager S L
  pub goroutines : List (Goroutine S L)
  pub caller : Caller
  pub world : W

module _ {S L : Type 0} where
  abbrev pub new_server_manager : String → ServerManager S L
  new_server_manager address = record { server = none; listener = none; address = address; wg = 0 }

  abbrev pub is_running : ServerManager S L → Bool
  is_running sm = is_some sm.server

module _ {W S L : Type 0} (g : Grpc W S L) where
  abbrev pub get_address : ServerManager S L → String
  get_address sm = elim sm.listener [ none ↦ sm.address | some lis ↦ g.addr lis ]

  abbrev pub call_host : {A : Type 0} → Act W A → Act (Host W S L) A
  call_host m h = let (r, w) = m h.world in (r, record h { world = w })

  abbrev pub modify_manager : (ServerManager S L → ServerManager S L) → Act (Host W S L) Unit
  modify_manager f h = (ok tt, record h { manager = f h.manager })

  abbrev get_manager : Act (Host W S L) (ServerManager S L)
  get_manager h = (ok h.manager, h)

  -- The server, made and with its services registered.
  serve_setup : Act W S
  serve_setup w =
      let (s, w1) = g.new_server w in
      (ok s, g.register_provider s new_home_cluster_provider_server (g.register_reflection s w1))

  -- `go func() { … }()`
  abbrev go_serve : L → Act (Host W S L) Unit
  go_serve lis h = (ok tt, record h { goroutines = h.goroutines ++ spawned lis ∷ [] })

  unfoldable pub start : Act (Host W S L) Unit
  unfolding serve_setup
  start = do
    sm ← get_manager
    when (is_some sm.server) (raise (failure "server is already running"))
    lis ← wrap "failed to listen" (call_host (g.listen sm.address))
    modify_manager (λ m. record m { listener = some lis })
    s ← call_host serve_setup
    modify_manager (λ m. record m { server = some s })
    modify_manager (λ m. record m { wg = m.wg + 1 })
    go_serve lis

  stop_server : Option S → Act (Host W S L) Unit
  stop_server none h = raise (failure "server is not running") h
  stop_server (some s) h = (ok tt, record h { caller = waiting; world = g.graceful_stop s h.world })

  -- `Stop` up to `wg.Wait`
  unfoldable pub stop : Act (Host W S L) Unit
  unfolding stop_server
  stop = do sm ← get_manager; stop_server sm.server

  -- `Stop` from the return of `wg.Wait` on
  unfoldable pub finish_stop : Act (Host W S L) Unit
  finish_stop h = (
    ok tt,
    record h { manager = record h.manager { server = none; listener = none }; caller = free },
  )
