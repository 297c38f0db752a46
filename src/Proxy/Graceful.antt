-- ===== src/Proxy/Graceful.antt =====
-- Graceful termination of destinations (pkg/controllers/proxy/network_service_graceful.go). IPVS, the
-- listing of pods and `conntrack` are parameters over the state `W` of the host; `getPodObjectForEndpoint`
-- stands with the pod's grace period. Times are nanoseconds, and `time.Now` is an argument.
pub mod Queue
pub mod Due
mod Tests
use kube_router.Prelude.{
  String, ℕ, ◌-◌, Bool, true, false, Option, none, some, List, [], ◌∷◌, ◌++◌, ◌&&◌, ◌||◌, any, ltb,
  eqb, if◌then◌else◌, ◌==◌,
}
use kube_router.Exec.{Result, ok, err}

-- ipvs.Service and ipvs.Destination, as far as they are read here. Two addresses are equal (net.IP.Equal)
-- if their texts are.
pub record Service : Type 0 where
  pub address : String
  pub port : ℕ
  pub protocol : ℕ

pub record Destination : Type 0 where
  pub address : String
  pub port : ℕ
  pub weight : ℕ
  pub active_connections : ℕ
  pub inactive_connections : ℕ

pub record Request : Type 0 where
  pub svc : Service
  pub dst : Destination
  pub deletion_time : ℕ
  pub period : ℕ

pub record Host (W : Type 0) : Type 0 where
  pub update_destination : Service → Destination → W → Result (Unit {0}) × W
  pub del_destination : Service → Destination → W → Result (Unit {0}) × W
  pub get_destinations : Service → W → Result (List Destination)
  pub pod_grace_period : String → W → Result ℕ
  pub flush_conntrack_udp : Service → W → Result (Unit {0}) × W

-- The fields of NetworkServicesController that are used here.
pub record Nsc (W : Type 0) : Type 0 where
  pub graceful_termination : Bool
  pub graceful_period : ℕ
  pub queue : List Request
  pub world : W

abbrev pub udp : ℕ
udp = 17

-- The test of the loop in addToGracefulQueue.
unfoldable pub same_endpoint : Request → Request → Bool
same_endpoint a b =
    (a.svc.address == b.svc.address
      && (eqb a.svc.port b.svc.port && eqb a.svc.protocol b.svc.protocol))
    && (a.dst.address == b.dst.address && eqb a.dst.port b.dst.port)

unfoldable pub period_of : ℕ → Result ℕ → ℕ
period_of default (ok period) = period
period_of default (err e) = default

-- The destination's counters, from the list that IPVS gives.
unfoldable pub find_stats : Destination → List Destination → Result (ℕ × ℕ)
find_stats dst [] = err "destination not found on IPVS service"
find_stats dst (d ∷ ds) =
    if d.address == dst.address && eqb d.port dst.port
    then ok (d.active_connections, d.inactive_connections)
    else find_stats dst ds

-- Neither active nor inactive connections are left; false if they cannot be counted.
unfoldable pub is_idle : Result (ℕ × ℕ) → Bool
is_idle (ok (active, inactive)) = eqb active 0 && eqb inactive 0
is_idle (err e) = false

module _ {W : Type 0} (host : Host W) where
  -- addToGracefulQueue
  unfoldable pub add_to_graceful_queue : Request → Nsc W → Nsc W
  unfolding same_endpoint period_of
  add_to_graceful_queue req nsc =
      if any (λ job. same_endpoint job req) nsc.queue
      then nsc
      else (let period =
            period_of nsc.graceful_period (host.pod_grace_period req.dst.address nsc.world) in
          record nsc { queue = nsc.queue ++ record req { period = period } ∷ [] })

  -- The flush behind a removal for a UDP service; its error is logged only.
  unfoldable pub flush_if_udp : Service → Nsc W → Nsc W
  flush_if_udp svc nsc =
      if eqb svc.protocol udp
      then record nsc { world = (host.flush_conntrack_udp svc nsc.world).1 }
      else nsc

  unfoldable pub finish :
      Service → (Nsc W → Nsc W) → Result (Unit {0}) → Nsc W → Result (Unit {0}) × Nsc W
  unfolding flush_if_udp
  finish svc then_do (err e) nsc = (err e, nsc)
  finish svc then_do (ok done) nsc = (ok tt, flush_if_udp svc (then_do nsc))

  -- ipvsDeleteDestination
  unfoldable pub ipvs_delete_destination :
      ℕ → Service → Destination → Nsc W → Result (Unit {0}) × Nsc W
  unfolding add_to_graceful_queue finish
  ipvs_delete_destination now svc dst nsc =
      if nsc.graceful_termination
      then (let dst0 = record dst { weight = 0 } in
          let (r, w) = host.update_destination svc dst0 nsc.world in
          finish svc
            (add_to_graceful_queue
              (record { svc = svc; dst = dst0; deletion_time = now; period = 0 }))
            r (record nsc { world = w }))
      else (let (r, w) = host.del_destination svc dst nsc.world in
          finish svc (λ n. n) r (record nsc { world = w }))

  unfoldable pub stats_of : Destination → Result (List Destination) → Result (ℕ × ℕ)
  unfolding find_stats
  stats_of dst (ok ds) = find_stats dst ds
  stats_of dst (err e) = err e

  -- getIpvsDestinationConnStats
  unfoldable pub conn_stats : Service → Destination → W → Result (ℕ × ℕ)
  unfolding stats_of
  conn_stats svc dst w = stats_of dst (host.get_destinations svc w)

  -- The two conditions of gracefulDeleteIpvsDestination.
  unfoldable pub is_due : ℕ → Request → W → Bool
  unfolding conn_stats is_idle
  is_due now req w =
      is_idle (conn_stats req.svc req.dst w) || ltb req.period (now - req.deletion_time)

  -- gracefulDeleteIpvsDestination; a failed removal is logged only.
  unfoldable pub graceful_delete_ipvs_destination : ℕ → Request → W → Bool × W
  unfolding is_due
  graceful_delete_ipvs_destination now req w =
      if is_due now req w then (true, (host.del_destination req.svc req.dst w).1) else (false, w)

  unfoldable pub sync_queue : ℕ → List Request → W → List Request × W
  unfolding graceful_delete_ipvs_destination
  sync_queue now [] w = ([], w)
  sync_queue now (job ∷ jobs) w =
      let (removed, w') = graceful_delete_ipvs_destination now job w in
      let (rest, w'') = sync_queue now jobs w' in (if removed then rest else job ∷ rest, w'')

  -- gracefulSync
  unfoldable pub graceful_sync : ℕ → Nsc W → Nsc W
  unfolding sync_queue
  graceful_sync now nsc =
      let (queue, w) = sync_queue now nsc.queue nsc.world in record nsc { queue = queue; world = w }
