-- ===== src/Health/Missed.antt =====
-- A controller that stops sending heartbeats.
use kube_router.Prelude.{
  ℕ, ◌≡◌, refl, ◌+◌, ◌-◌, ◌<◌, ◌^◌, ◌%◌, Bool, true, false, ◌==◌, ◌++◌, not, arith, List, [], ◌∷◌,
  all,
}
use kube_router.Health.{
  Config, HealthStats, Event, heartbeat, tick, handle_heartbeat, is_missed, since, firewall_ok,
  default_grace_time_duration, check_health, round, receive, run_check, handler,
}

-- The event is no heartbeat of the network policy controller.
unfoldable pub not_policy : ℕ × Event → Bool
not_policy (now, heartbeat beat) = not (beat.component == "NPC")
not_policy (now, tick) = true

round-alive :
    (c : Config) (now : ℕ) (e : Event) (s : HealthStats)
    → not_policy (now, e) ≡ true
    → (round c now e s).network_policy_controller_alive ≡ s.network_policy_controller_alive
unfolding round receive handle_heartbeat not_policy
round-alive c now (heartbeat beat) s h = ground arith
round-alive c now tick s h = refl

round-ttl :
    (c : Config) (now : ℕ) (e : Event) (s : HealthStats)
    → not_policy (now, e) ≡ true
    → (round c now e s).network_policy_controller_alive_ttl ≡ s.network_policy_controller_alive_ttl
unfolding round receive handle_heartbeat not_policy
round-ttl c now (heartbeat beat) s h = ground arith
round-ttl c now tick s h = refl

is_missed_lem :
    (now alive period ttl : ℕ)
    → period + ttl + default_grace_time_duration < now - alive
    → period + ttl + default_grace_time_duration < 2 ^ 63 - 1
    → is_missed now alive period ttl ≡ true
unfolding is_missed since
is_missed_lem now alive period ttl h b =
    let m : (period + ttl + default_grace_time_duration) % 2 ^ 64
        ≡ period + ttl + default_grace_time_duration =
      omega arith in
    rw m (ground arith)

round-missed :
    (c : Config) (now : ℕ) (e : Event) (s : HealthStats)
    → c.run_firewall ≡ true
    → not_policy (now, e) ≡ true
    → is_missed now s.network_policy_controller_alive c.iptables_sync_period
        s.network_policy_controller_alive_ttl
      ≡ true
    → (round c now e s).healthy ≡ false
unfolding round check_health firewall_ok
round-missed c now e s r h m = ground (arith, round-alive c now e s h, round-ttl c now e s h)

-- The network policy controller's heartbeat is missed, whatever the other controllers send: after rounds
-- without a heartbeat of it, with the firewall switched on, the first round at which the last one is
-- older than the sync period, the first interval and the grace time together makes the handler answer
-- with status 500. That sum is a duration that does not wrap around.
pub run_check-missed :
    (c : Config) (es : List (ℕ × Event)) (now : ℕ) (e : Event) (s : HealthStats)
    → c.run_firewall ≡ true
    → all not_policy es ≡ true
    → not_policy (now, e) ≡ true
    → c.iptables_sync_period + s.network_policy_controller_alive_ttl + default_grace_time_duration
      < now - s.network_policy_controller_alive
    → c.iptables_sync_period + s.network_policy_controller_alive_ttl + default_grace_time_duration
      < 2 ^ 63 - 1
    → handler (run_check c (es ++ (now, e) ∷ []) s) ≡ (500, "Unhealthy")
unfolding run_check handler
run_check-missed c [] now e s r hs h l b = ground (
  arith,
  round-missed c now e s,
  is_missed_lem now s.network_policy_controller_alive c.iptables_sync_period
      s.network_policy_controller_alive_ttl,
)
run_check-missed c ((t, d) ∷ es) now e s r hs h l b =
    let a = round-alive c t d s (ground arith) in
    let i = round-ttl c t d s (ground arith) in
    run_check-missed c es now e (round c t d s) r (ground arith) h (ground (arith, a, i))
      (ground (arith, a, i))
