-- ===== src/Health.antt =====
-- The health of the controllers (pkg/healthcheck/health_controller.go). A time is nanoseconds since Go's
-- zero time, which is 0, and `time.Now` is an argument, never before a time that was read earlier. A
-- duration is a 64-bit integer: it wraps around in a sum, and `time.Since` stops at the largest one.
pub mod Missed
pub mod Alive
mod Tests
use kube_router.Prelude.{
  String, ℕ, ◌+◌, ◌-◌, ◌*◌, ◌^◌, ◌%◌, Bool, true, false, ◌==◌, ◌||◌, ◌&&◌, not, ltb, leb, eqb,
  if◌then◌else◌, List, [], ◌∷◌,
}

pub record ControllerHeartbeat : Type 0 where
  pub component : String
  pub last_heart_beat : ℕ

pub record HealthStats : Type 0 where
  pub healthy : Bool
  pub metrics_controller_alive : ℕ
  pub network_policy_controller_alive : ℕ
  pub network_policy_controller_alive_ttl : ℕ
  pub network_routing_controller_alive : ℕ
  pub network_routing_controller_alive_ttl : ℕ
  pub network_services_controller_alive : ℕ
  pub network_services_controller_alive_ttl : ℕ

-- The fields of options.KubeRouterConfig that are read here.
pub record Config : Type 0 where
  pub run_firewall : Bool
  pub run_router : Bool
  pub run_service_proxy : Bool
  pub metrics_enabled : Bool
  pub iptables_sync_period : ℕ
  pub routes_sync_period : ℕ
  pub ipvs_sync_period : ℕ

abbrev pub default_grace_time_duration : ℕ
default_grace_time_duration = 1500000000

abbrev pub metrics_limit : ℕ
metrics_limit = 5000000000

-- time.Since
unfoldable pub since : ℕ → ℕ → ℕ
since now t = let d = now - t in if ltb d (2 ^ 63) then d else 2 ^ 63 - 1

-- `time.Since(alive) > period + ttl + graceTime`: a sum from 2 ^ 63 on is a negative duration.
unfoldable pub is_missed : ℕ → ℕ → ℕ → ℕ → Bool
unfolding since
is_missed now alive period ttl =
    let limit = (period + ttl + default_grace_time_duration) % 2 ^ 64 in
    if ltb limit (2 ^ 63) then ltb limit (since now alive) else true

-- The time that the first heartbeat took; a later one leaves it.
unfoldable pub ttl_after : ℕ → ℕ → ℕ → ℕ
unfolding since
ttl_after now alive ttl = if eqb ttl 0 then since now alive else ttl

-- HandleHeartbeat
unfoldable pub handle_heartbeat : ℕ → ControllerHeartbeat → HealthStats → HealthStats
unfolding ttl_after
handle_heartbeat now beat s =
    if beat.component == "NSC"
    then record s {
      network_services_controller_alive_ttl =
          ttl_after now s.network_services_controller_alive s.network_services_controller_alive_ttl;
      network_services_controller_alive = beat.last_heart_beat;
    }
    else if beat.component == "NRC"
    then record s {
      network_routing_controller_alive_ttl =
          ttl_after now s.network_routing_controller_alive s.network_routing_controller_alive_ttl;
      network_routing_controller_alive = beat.last_heart_beat;
    }
    else if beat.component == "NPC"
    then record s {
      network_policy_controller_alive_ttl =
          ttl_after now s.network_policy_controller_alive s.network_policy_controller_alive_ttl;
      network_policy_controller_alive = beat.last_heart_beat;
    }
    else if beat.component == "MC"
    then record s { metrics_controller_alive = beat.last_heart_beat }
    else s

-- CheckHealth, the test of each controller and then all of them.
unfoldable pub firewall_ok : Config → ℕ → HealthStats → Bool
unfolding is_missed
firewall_ok c now s = not (
    c.run_firewall
    && is_missed now s.network_policy_controller_alive c.iptables_sync_period
        s.network_policy_controller_alive_ttl)

unfoldable pub router_ok : Config → ℕ → HealthStats → Bool
unfolding is_missed
router_ok c now s = not (
    c.run_router
    && is_missed now s.network_routing_controller_alive c.routes_sync_period
        s.network_routing_controller_alive_ttl)

unfoldable pub proxy_ok : Config → ℕ → HealthStats → Bool
unfolding is_missed
proxy_ok c now s = not (
    c.run_service_proxy
    && is_missed now s.network_services_controller_alive c.ipvs_sync_period
        s.network_services_controller_alive_ttl)

unfoldable pub metrics_ok : Config → ℕ → HealthStats → Bool
unfolding since
metrics_ok c now s =
    not (c.metrics_enabled && ltb metrics_limit (since now s.metrics_controller_alive))

unfoldable pub check_health : Config → ℕ → HealthStats → Bool
unfolding firewall_ok router_ok proxy_ok metrics_ok
check_health c now s =
    firewall_ok c now s && (router_ok c now s && (proxy_ok c now s && metrics_ok c now s))

-- SetAlive
unfoldable pub set_alive : ℕ → HealthStats → HealthStats
set_alive now s = record s {
  metrics_controller_alive = now;
  network_policy_controller_alive = now;
  network_routing_controller_alive = now;
  network_services_controller_alive = now;
}

-- One round of the loop of RunCheck: a heartbeat or a tick, and then the check.
pub data Event : Type 0 where
  heartbeat : ControllerHeartbeat → Event
  tick : Event

unfoldable pub receive : ℕ → Event → HealthStats → HealthStats
unfolding handle_heartbeat
receive now (heartbeat beat) s = handle_heartbeat now beat s
receive now tick s = s

unfoldable pub round : Config → ℕ → Event → HealthStats → HealthStats
unfolding receive check_health
round c now e s = let s' = receive now e s in record s' { healthy = check_health c now s' }

-- RunCheck until it is stopped.
unfoldable pub run_check : Config → List (ℕ × Event) → HealthStats → HealthStats
unfolding round
run_check c [] s = s
run_check c ((now, e) ∷ es) s = run_check c es (round c now e s)

-- The status line that Handler writes: http.StatusOK or http.StatusInternalServerError.
unfoldable pub handler : HealthStats → ℕ × String
handler s = if s.healthy then (200, "OK\n") else (500, "Unhealthy")

-- The status of NewHealthController.
abbrev pub new_status : HealthStats
new_status = record {
  healthy = true;
  metrics_controller_alive = 0;
  network_policy_controller_alive = 0;
  network_policy_controller_alive_ttl = 0;
  network_routing_controller_alive = 0;
  network_routing_controller_alive_ttl = 0;
  network_services_controller_alive = 0;
  network_services_controller_alive_ttl = 0;
}
