-- ===== src/Entry.antt =====
-- The entry point (cmd/main.go) with the functions that register the controllers and the webhook. The
-- controller runtime is a parameter; an error is an exit with code 1, which runs no deferred function.
pub mod Ends
pub mod Options
use homelab_autoscaler.Prelude.{String, Bool, true, false, not, Option, none, some, str_eq}
use homelab_autoscaler.Action.{Act, Result, ok, err, pure, attempt, when, ◌>>=◌, ◌>>◌}
use homelab_autoscaler.Grpc.Manager.{
  Grpc, Host, new_server_manager, start, stop, call_host, modify_manager,
}
use homelab_autoscaler.Entry.Options.{Flags, ManagerOptions, manager_options, webhooks_enabled}

-- What the program asks of the controller runtime; a controller is registered under its name.
pub record Runtime (W M : Type 0) : Type 0 where
  pub new_manager : ManagerOptions → Act W M
  pub index_field : M → String → Act W (Unit {0})
  pub complete : M → String → Act W (Unit {0})
  pub complete_webhook : M → Act W (Unit {0})
  pub add_healthz_check : M → String → Act W (Unit {0})
  pub add_readyz_check : M → String → Act W (Unit {0})
  pub start_manager : M → Act W (Unit {0})

module _ {W M : Type 0} (rt : Runtime W M) where
  abbrev pub setup_group_reconciler : M → Act W Unit
  setup_group_reconciler mgr = rt.complete mgr "group"

  abbrev pub setup_node_reconciler : M → Act W Unit
  setup_node_reconciler mgr = do rt.index_field mgr "spec.nodeName"; rt.complete mgr "node"

  abbrev pub setup_kubernetes_node_reconciler : M → Act W Unit
  setup_kubernetes_node_reconciler mgr = rt.complete mgr "core-node"

  abbrev pub setup_node_webhook : M → Act W Unit
  setup_node_webhook mgr = rt.complete_webhook mgr

  -- From the making of the manager to the ready check; `env` is the variable ENABLE_WEBHOOKS.
  unfoldable pub set_up : Flags → String → Act W M
  set_up flags env = do
    mgr ← rt.new_manager (manager_options flags env)
    setup_group_reconciler mgr
    setup_node_reconciler mgr
    setup_kubernetes_node_reconciler mgr
    when (webhooks_enabled env) (setup_node_webhook mgr)
    rt.add_healthz_check mgr "healthz"
    rt.add_readyz_check mgr "readyz"
    pure mgr

  module _ {S L : Type 0} (g : Grpc W S L) where
    unfoldable pub start_grpc : String → Act (Host W S L) Unit
    start_grpc address = do modify_manager g (λ _. new_server_manager address); start g

    -- The deferred `Stop`; its error is only logged. It returns with the caller in `wg.Wait`.
    unfoldable pub stop_grpc : Act (Host W S L) Unit
    stop_grpc = do attempt (stop g); pure tt

    unfoldable pub main : Flags → String → Act (Host W S L) Unit
    unfolding start_grpc stop_grpc
    main flags env = do
      mgr ← call_host g (set_up flags env)
      when flags.enable_grpc_server (start_grpc flags.grpc_server_addr)
      call_host g (rt.start_manager mgr)
      when flags.enable_grpc_server stop_grpc
