-- ===== src/Proxy/Graceful/Due.antt =====
-- When gracefulSync removes a request.
use kube_router.Prelude.{
  ℕ, ◌≡◌, refl, ◌-◌, Bool, true, false, List, [], ◌∷◌, arith, all, ltb, ltb_iff, leb, leb_iff,
}
use kube_router.Proxy.Graceful.{
  Request, Host, Nsc, is_due, graceful_delete_ipvs_destination, sync_queue, graceful_sync,
}

abbrev pub within_period : ℕ → Request → Bool
within_period now job = leb (now - job.deletion_time) job.period

abbrev pub is_expired : ℕ → Request → Bool
is_expired now job = ltb job.period (now - job.deletion_time)

module _ {W : Type 0} (host : Host W) where
  graceful_delete_ipvs_destination-expired :
      (now : ℕ) (job : Request) (w : W)
      → is_expired now job ≡ true
      → graceful_delete_ipvs_destination host now job w
        ≡ (true, (host.del_destination job.svc job.dst w).1)
  unfolding graceful_delete_ipvs_destination is_due
  graceful_delete_ipvs_destination-expired now job w h = ground arith

  graceful_delete_ipvs_destination-kept :
      (now : ℕ) (job : Request) (w : W)
      → (graceful_delete_ipvs_destination host now job w).0 ≡ false
      → within_period now job ≡ true
  unfolding graceful_delete_ipvs_destination is_due
  graceful_delete_ipvs_destination-kept now job w h = ground (
    arith,
    ltb_iff job.period (now - job.deletion_time),
    leb_iff (now - job.deletion_time) job.period,
  )

  -- Each destination is deleted in the order of the queue, whether the one before it could be or not.
  unfoldable pub delete_each : List Request → W → W
  delete_each [] w = w
  delete_each (job ∷ jobs) w = delete_each jobs (host.del_destination job.svc job.dst w).1

  sync_queue-expired :
      (now : ℕ) (jobs : List Request) (w : W)
      → all (is_expired now) jobs ≡ true
      → sync_queue host now jobs w ≡ ([], delete_each jobs w)
  unfolding sync_queue delete_each
  sync_queue-expired now [] w h = refl
  sync_queue-expired now (job ∷ jobs) w h = ground (
    arith,
    graceful_delete_ipvs_destination-expired now job w,
    sync_queue-expired now jobs (host.del_destination job.svc job.dst w).1,
  )

  sync_queue-within :
      (now : ℕ) (jobs : List Request) (w : W)
      → all (within_period now) (sync_queue host now jobs w).0 ≡ true
  unfolding sync_queue
  sync_queue-within now [] w = refl
  sync_queue-within now (job ∷ jobs) w = ground (
    arith,
    graceful_delete_ipvs_destination-kept now job w,
    sync_queue-within now jobs (graceful_delete_ipvs_destination host now job w).1,
  )

  -- Once the periods of all requests have passed, one call of gracefulSync deletes each destination, in
  -- the order of the queue, and leaves the queue empty: an error of a deletion neither stops the loop
  -- nor keeps its request.
  pub graceful_sync-expired :
      (now : ℕ) (nsc : Nsc W)
      → all (is_expired now) nsc.queue ≡ true
      → graceful_sync host now nsc
        ≡ record nsc { queue = []; world = delete_each nsc.queue nsc.world }
  unfolding graceful_sync
  graceful_sync-expired now nsc h = rw (sync_queue-expired now nsc.queue nsc.world h) refl

  -- No request that gracefulSync keeps is older than its period.
  graceful_sync-within :
      (now : ℕ) (nsc : Nsc W) → all (within_period now) (graceful_sync host now nsc).queue ≡ true
  unfolding graceful_sync
  graceful_sync-within now nsc = sync_queue-within now nsc.queue nsc.world
