-- ===== src/Health/Alive.antt =====
-- Controllers that report in time.
use kube_router.Prelude.{
  ℕ, ◌≡◌, refl, ◌∙◌, ◌+◌, ◌-◌, ◌<◌, ◌^◌, ◌%◌, Bool, true, ◌&&◌, ◌||◌, not, arith, List, [], ◌∷◌,
  leb, eqb,
}
use kube_router.Health.{
  Config, HealthStats, Event, heartbeat, tick, handle_heartbeat, is_missed, since, firewall_ok,
  router_ok, proxy_ok, metrics_ok, metrics_limit, ttl_after, default_grace_time_duration,
  check_health, round, receive, run_check,
}

-- A controller that is switched off, or whose last heartbeat is at most `limit` old.
unfoldable pub in_time : Bool → ℕ → ℕ → ℕ → Bool
in_time enabled now alive limit = not enabled || leb (now - alive) limit

abbrev pub limit : ℕ → ℕ → ℕ
limit period ttl = period + ttl + default_grace_time_duration

is_missed-limit :
    (now alive period ttl : ℕ)
    → limit period ttl < 2 ^ 63 - 1
    → is_missed now alive period ttl ≡ not (leb (now - alive) (limit period ttl))
unfolding is_missed since
is_missed-limit now alive period ttl b =
    let m : limit period ttl % 2 ^ 64 ≡ limit period ttl = omega arith in rw m (ground arith)

-- The check is passed exactly if every controller that is switched on is in time: its last heartbeat is at
-- most the sync period, the first interval and the grace time together old, or 5 seconds for the metrics
-- controller. The three sums are durations that do not wrap around.
check_health_lem :
    (c : Config) (now : ℕ) (s : HealthStats)
    → limit c.iptables_sync_period s.network_policy_controller_alive_ttl < 2 ^ 63 - 1
    → limit c.routes_sync_period s.network_routing_controller_alive_ttl < 2 ^ 63 - 1
    → limit c.ipvs_sync_period s.network_services_controller_alive_ttl < 2 ^ 63 - 1
    → check_health c now s ≡ (
        in_time c.run_firewall now s.network_policy_controller_alive
          (limit c.iptables_sync_period s.network_policy_controller_alive_ttl)
        && (in_time c.run_router now s.network_routing_controller_alive
              (limit c.routes_sync_period s.network_routing_controller_alive_ttl)
            && (in_time c.run_service_proxy now s.network_services_controller_alive
                  (limit c.ipvs_sync_period s.network_services_controller_alive_ttl)
                && in_time c.metrics_enabled now s.metrics_controller_alive metrics_limit)))
unfolding check_health firewall_ok router_ok proxy_ok metrics_ok in_time since
check_health_lem c now s a b d =
    rw
      (
        is_missed-limit now s.network_policy_controller_alive c.iptables_sync_period
            s.network_policy_controller_alive_ttl a,
        is_missed-limit now s.network_routing_controller_alive c.routes_sync_period
            s.network_routing_controller_alive_ttl b,
        is_missed-limit now s.network_services_controller_alive c.ipvs_sync_period
            s.network_services_controller_alive_ttl d,
      )
      (ground arith)

-- The intervals of the first heartbeats, of the policy, the routing and the services controller.
abbrev pub ttls : HealthStats → ℕ × ℕ × ℕ
ttls s = (
  s.network_policy_controller_alive_ttl, s.network_routing_controller_alive_ttl,
  s.network_services_controller_alive_ttl,
)

abbrev pub all_set : HealthStats → Bool
all_set s =
    not (eqb s.network_policy_controller_alive_ttl 0)
    && (not (eqb s.network_routing_controller_alive_ttl 0)
        && not (eqb s.network_services_controller_alive_ttl 0))

round-ttls :
    (c : Config) (now : ℕ) (e : Event) (s : HealthStats)
    → all_set s ≡ true
    → ttls (round c now e s) ≡ ttls s
unfolding round receive handle_heartbeat ttl_after
round-ttls c now (heartbeat beat) s h = ground arith
round-ttls c now tick s h = refl

-- Once the three controllers have each an interval that is not 0, no run of RunCheck changes it.
run_check-ttls :
    (c : Config) (es : List (ℕ × Event)) (s : HealthStats)
    → all_set s ≡ true
    → ttls (run_check c es s) ≡ ttls s
unfolding run_check
run_check-ttls c [] s h = refl
run_check-ttls c ((now, e) ∷ es) s h =
    let e1 = round-ttls c now e s h in
    run_check-ttls c es (round c now e s) (ground (arith, e1)) ∙ e1
