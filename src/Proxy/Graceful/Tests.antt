-- ===== src/Proxy/Graceful/Tests.antt =====
-- Two requests, and a host on which no destination is idle.
use kube_router.Prelude.{String, ℕ, ◌≡◌, refl, true, List, [], ◌∷◌}
use kube_router.Exec.{ok, err}
use kube_router.Proxy.Graceful.{
  Service, Destination, Request, Host, Nsc, same_endpoint, graceful_sync,
}
use kube_router.Proxy.Graceful.Queue.{
  Distinct, Call, delete_destination, sync, calls, calls-Distinct,
}
use kube_router.Proxy.Graceful.Due.{delete_each, graceful_sync-expired}

abbrev dns : Service
dns = record { address = "10.96.0.10"; port = 53; protocol = 17 }

abbrev backend : String → Destination
backend address = record {
  address = address;
  port = 53;
  weight = 0;
  active_connections = 1;
  inactive_connections = 0;
}

-- The state is the list of the addresses that were deleted.
abbrev busy_host : Host (List String)
busy_host = record {
  update_destination = λ svc dst w. (ok tt, w);
  del_destination = λ svc dst w. (err "no such destination", dst.address ∷ w);
  get_destinations = λ svc w. ok (backend "10.0.0.1" ∷ backend "10.0.0.2" ∷ []);
  pod_grace_period = λ address w. ok 30;
  flush_conntrack_udp = λ svc w. (ok tt, w);
}

abbrev job : String → ℕ → Request
job address period = record {
  svc = dns;
  dst = backend address;
  deletion_time = 100;
  period = period;
}

abbrev controller : Nsc (List String)
controller = record {
  graceful_termination = true;
  graceful_period = 30;
  queue = job "10.0.0.1" 30 ∷ job "10.0.0.2" 50 ∷ [];
  world = [];
}

controller-Distinct : Distinct controller.queue
unfolding same_endpoint
controller-Distinct = (refl, (refl, tt))

abbrev two_calls : List Call
two_calls = delete_destination 120 dns (backend "10.0.0.3") ∷ sync 140 ∷ []

calls-Distinct_example : Distinct (calls busy_host two_calls controller).queue
calls-Distinct_example = calls-Distinct busy_host two_calls controller controller-Distinct

graceful_sync-expired_example : graceful_sync busy_host 200 controller ≡ record controller {
  queue = [];
  world = delete_each busy_host controller.queue controller.world;
}
graceful_sync-expired_example = graceful_sync-expired busy_host 200 controller refl
