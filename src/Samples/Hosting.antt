-- ===== src/Samples/Hosting.antt =====
-- Runs of the gRPC server's manager on a network where every address but one can be listened on.
use homelab_autoscaler.Prelude.{
  ℕ, suc, ltb, arith, ◌+◌, refl, some, String, [], ◌∷◌, str_eq, if◌then◌else◌,
}
use homelab_autoscaler.Action.{ok, err, failure}
use homelab_autoscaler.Grpc.Manager.{
  Grpc, GrpcLaws, Host, spawned, serving, free, waiting, start, stop,
}
use homelab_autoscaler.Grpc.Manager.Steps.{
  start_called, stop_called, serve_begins, closes, Reach, begin, later, Steps,
}
use homelab_autoscaler.Grpc.Manager.Lifecycle.{Stopped, Sound, Reach-Sound}
use homelab_autoscaler.Grpc.Manager.Promises.{stop_completes}

-- The servers made and how many of them, from the first on, were told to stop; a server is its number,
-- a listener its address.
pub record Wire : Type 0 where
  pub made : ℕ
  pub stopped : ℕ

abbrev pub fresh : Wire
fresh = record { made = 0; stopped = 0 }

abbrev pub net : Grpc Wire ℕ String
net = record {
  listen = λ a w. if str_eq a "taken" then (err (failure "address in use"), w) else (ok a, w);
  addr = λ a. a;
  new_server = λ w. (w.made, record w { made = w.made + 1 });
  register_reflection = λ _ w. w;
  register_provider = λ _ _ w. w;
  graceful_stop = λ s w. record w { stopped = suc s };
  stopping = λ s w. ltb s w.stopped;
}

pub net_laws : GrpcLaws net
net_laws = record { graceful_stop_stops = λ s w. ground arith }

abbrev pub port : String
port = ":50051"

abbrev called : Host Wire ℕ String
called = record {
  manager = record { server = some 0; listener = some port; address = port; wg = 1 };
  goroutines = spawned port ∷ [];
  caller = free;
  world = record { made = 1; stopped = 0 };
}

called-Reach : Reach net port fresh called
unfolding start
called-Reach = later begin (start_called (ok tt) refl refl)

abbrev stopping : Host Wire ℕ String
stopping = record called { caller = waiting; world = record { made = 1; stopped = 1 } }

stopping-Reach : Reach net port fresh stopping
unfolding stop
stopping-Reach = later called-Reach (stop_called (ok tt) refl refl)

abbrev running : Host Wire ℕ String
running = record called { goroutines = serving 0 port ∷ [] }

running-Reach : Reach net port fresh running
running-Reach = later called-Reach (closes (serve_begins [] [] 0 port refl refl))

Reach-Sound_example : Sound net port running
Reach-Sound_example = Reach-Sound net port fresh running running-Reach

stop_completes_example : (u : Host Wire ℕ String) × Steps net stopping u × Stopped net port u
stop_completes_example = stop_completes net port fresh net_laws stopping stopping-Reach refl
