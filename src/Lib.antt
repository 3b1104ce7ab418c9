-- ===== src/Lib.antt =====
-- Homelab Autoscaler: a Kubernetes controller that powers the machines of a homelab on and off for
-- the cluster autoscaler. A Node resource stands for a machine. The gRPC server, which the autoscaler
-- calls, writes desired power states; the node controller reconciles each Node through a state
-- machine, which takes a coordination lock, runs a startup or shutdown job and monitors it; a second
-- controller copies the readiness of the Kubernetes nodes back into the Node resources; a webhook
-- admits Node resources.
--
-- The files and the code:
--   Prelude, Prelude/Int, Prelude/Lists, Prelude/Perms  names of the libraries passed on, integers,
--     lists and their permutations over the native numbers.
--   Action  Go functions that fail: an action takes the state of the world to a result and a new
--     state, so what was done before an error stays done. Action/Codes has rules for the errors of
--     actions.
--   Api     api/infra/v1alpha1 (node_types.go, group_types.go) and the Kubernetes objects; Api/Maps
--     is Go's string maps, Api/Power the texts of the power state. Api/Client is the API server, the
--     clock and client-go's retry, a parameter over any state W; each call may change W, so the acts
--     of others between two calls are part of the calls. Api/Server has what is relied on: optimistic
--     locking by resource versions, and conditions as a map by type. Api/Text is Go's
--     printing and reading of times, a parameter.
--   Fsm     internal/fsm: Fsm/Events is events.go, Fsm/Coordination is coordination.go, with the
--     interface of types.go that the hooks use (Fsm/Coordination/Interface) and the writes of all
--     managers to a node as a history (Fsm/Coordination/Histories), Fsm/Machine
--     with Fsm/Machine/Hooks is types.go and hooks.go, and Fsm/Operations, Fsm/Jobs and Fsm/KubeNodes
--     are node_state_machine.go. The looplab engine is a parameter (Fsm/Machine/Engine). Each
--     reconciliation makes a machine of its own: Fsm/Operations/Fleets interleaves the operations of
--     any number of them over one API server. Fsm/Operations/Watches is what a monitor sees of its
--     job, beside the code of the monitor.
--   Grpc    internal/grpcserver: Grpc/Sizes, Grpc/Groups, Grpc/Template and Grpc/Constants are
--     server.go, Grpc/Manager is manager.go, over a network and a gRPC library that are parameters; its
--     goroutines and its caller are interleaved by a step relation (Grpc/Manager/Steps).
--   Controller  internal/controller: Cleanup, Transitions and Nodes are infra/node_controller.go,
--     Status is core/node_controller.go and infra/group_controller.go.
--   Scaling what the gRPC server writes and what the controller then does with it.
--   Entry   cmd/main.go and the registration of the controllers and the webhook, over a controller
--     runtime that is a parameter; an exit with code 1 is an error.
--   Webhook internal/webhook/infra/v1alpha1/node_webhook.go
--   Config  internal/config/namespace.go
--   Samples a cluster with one node, with parameters that keep the laws, and runs of the theorems.
-- Functions keep their names, in lower case with underscores; StartNode and ShutdownNode are
-- start_node_op and shutdown_node_op, beside the events of these names. The function that a retry is
-- given has a name of its own (try_acquire, try_release).
--
-- Times and durations count nanoseconds; int32 and int64 conversions wrap around as written out.
-- The one loop without a structural measure is the uncordon loop of internal/fsm/node_state_machine.go
-- (set_node_schedulable_with_retry): it runs on fuel, which the hooks pass on as a parameter. It sleeps
-- at least 2 seconds a round and its default limit is 90 seconds, so 46 rounds are enough where a sleep
-- moves the clock by its duration (Fsm/KubeNodes/Retries).
-- A monitor runs over the list of what wakes it, ticks and the end of its timeout.
--
-- Not modelled: log lines and message texts, the flags of the logger, generated code, and the
-- interleaving of a monitor with a reconciliation inside one operation of a machine (other parties act
-- in the calls of the client, and machines take turns operation by operation),
-- and calls that are pending when GracefulStop is called: it is taken to return.
mod Prelude
pub mod Action
pub mod Api
pub mod Fsm
pub mod Grpc
pub mod Config
pub mod Webhook
pub mod Controller
pub mod Scaling
pub mod Entry
mod Samples
