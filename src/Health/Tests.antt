-- ===== src/Health/Tests.antt =====
-- All controllers are switched on and sync every second; the last heartbeats came at 10 seconds.
use kube_router.Prelude.{ℕ, ◌≡◌, refl, arith, true, List, [], ◌∷◌, ◌++◌, all}
use kube_router.Health.{
  Config, HealthStats, Event, heartbeat, tick, ControllerHeartbeat, run_check, handler,
}
use kube_router.Health.Missed.{not_policy, run_check-missed}

abbrev config : Config
config = record {
  run_firewall = true;
  run_router = true;
  run_service_proxy = true;
  metrics_enabled = true;
  iptables_sync_period = 1000000000;
  routes_sync_period = 1000000000;
  ipvs_sync_period = 1000000000;
}

abbrev stats : HealthStats
stats = record {
  healthy = true;
  metrics_controller_alive = 10000000000;
  network_policy_controller_alive = 10000000000;
  network_policy_controller_alive_ttl = 500000000;
  network_routing_controller_alive = 10000000000;
  network_routing_controller_alive_ttl = 500000000;
  network_services_controller_alive = 10000000000;
  network_services_controller_alive_ttl = 500000000;
}

abbrev beat : ControllerHeartbeat
beat = record { component = "NRC"; last_heart_beat = 12000000000 }

abbrev events : List (ℕ × Event)
events = (12000000000, heartbeat beat) ∷ []

no_policy_beat : all not_policy events ≡ true
unfolding not_policy
no_policy_beat = refl

last_tick : not_policy (13000000001, tick) ≡ true
unfolding not_policy
last_tick = refl

run_check-missed_example :
    handler (run_check config (events ++ (13000000001, tick) ∷ []) stats) ≡ (500, "Unhealthy")
run_check-missed_example =
    run_check-missed config events 13000000001 tick stats refl no_policy_beat last_tick
      (omega arith) (omega arith)
