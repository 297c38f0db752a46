-- ===== src/Proxy/Graceful/Queue.antt =====
-- The queue never holds two requests for one destination of one service.
use kube_router.Prelude.{
  ℕ, ◌≡◌, refl, ◌∙◌, false, List, [], ◌∷◌, ◌++◌, arith, any, Bool-cases, inl, inr,
}
use kube_router.Exec.{Result, ok, err}
use kube_router.Proxy.Graceful.{
  Service, Destination, Request, Host, Nsc, same_endpoint, add_to_graceful_queue, flush_if_udp,
  finish, ipvs_delete_destination, graceful_delete_ipvs_destination, sync_queue, graceful_sync,
  period_of,
}

abbrev pub Distinct : List Request → Type 0
Distinct [] = Unit
Distinct (r ∷ rs) = (any (λ s. same_endpoint r s) rs ≡ false) × Distinct rs

-- The period of a request plays no part.
same_endpoint-period :
    (a b : Request) (n : ℕ) → same_endpoint a (record b { period = n }) ≡ same_endpoint a b
unfolding same_endpoint
same_endpoint-period a b n = refl

any_last :
    (a r : Request) (rs : List Request)
    → any (λ s. same_endpoint a s) rs ≡ false
    → same_endpoint a r ≡ false
    → any (λ s. same_endpoint a s) (rs ++ r ∷ []) ≡ false
any_last a r [] h k = ground arith
any_last a r (s ∷ rs) h k = ground (arith, any_last a r rs)

Distinct-last :
    (r : Request) (rs : List Request)
    → any (λ s. same_endpoint s r) rs ≡ false
    → Distinct rs
    → Distinct (rs ++ r ∷ [])
Distinct-last r [] h d = (refl, tt)
Distinct-last r (s ∷ rs) h d =
    (any_last s r rs d.0 (ground arith), Distinct-last r rs (ground arith) d.1)

any-period :
    (req : Request) (n : ℕ) (rs : List Request)
    → any (λ s. same_endpoint s (record req { period = n })) rs ≡ any (λ s. same_endpoint s req) rs
any-period req n [] = refl
any-period req n (s ∷ rs) = ground (arith, same_endpoint-period s req n, any-period req n rs)

module _ {W : Type 0} (host : Host W) where
  add_to_graceful_queue-Distinct :
      (req : Request) (nsc : Nsc W)
      → Distinct nsc.queue
      → Distinct (add_to_graceful_queue host req nsc).queue
  unfolding add_to_graceful_queue
  add_to_graceful_queue-Distinct req nsc d =
      elim (Bool-cases (any (λ job. same_endpoint job req) nsc.queue)) [
        | inl e ↦ rw e d
        | inr e ↦ rw e (
            Distinct-last _ nsc.queue
              (any-period req
                  (period_of nsc.graceful_period (host.pod_grace_period req.dst.address nsc.world))
                  nsc.queue
                ∙ e)
              d)
      ]

  flush_if_udp-queue : (svc : Service) (nsc : Nsc W) → (flush_if_udp host svc nsc).queue ≡ nsc.queue
  unfolding flush_if_udp
  flush_if_udp-queue svc nsc = ground arith

  finish-queue :
      (svc : Service) (f : Nsc W → Nsc W) (r : Result (Unit {0})) (nsc : Nsc W)
      → Distinct nsc.queue
      → Distinct (f nsc).queue
      → Distinct (finish host svc f r nsc).1.queue
  unfolding finish
  finish-queue svc f (ok done) nsc d e = rw (flush_if_udp-queue svc (f nsc)) e
  finish-queue svc f (err x) nsc d e = d

  sync_queue-any :
      (now : ℕ) (a : Request) (jobs : List Request) (w : W)
      → any (λ s. same_endpoint a s) jobs ≡ false
      → any (λ s. same_endpoint a s) (sync_queue host now jobs w).0 ≡ false
  unfolding sync_queue
  sync_queue-any now a [] w h = refl
  sync_queue-any now a (job ∷ jobs) w h =
      ground (arith, sync_queue-any now a jobs (graceful_delete_ipvs_destination host now job w).1)

  sync_queue-Distinct :
      (now : ℕ) (jobs : List Request) (w : W)
      → Distinct jobs
      → Distinct (sync_queue host now jobs w).0
  unfolding sync_queue
  sync_queue-Distinct now [] w d = tt
  sync_queue-Distinct now (job ∷ jobs) w d =
      let w' = (graceful_delete_ipvs_destination host now job w).1 in
      elim (Bool-cases (graceful_delete_ipvs_destination host now job w).0) [
        | inl e ↦ rw e (sync_queue-Distinct now jobs w' d.1)
        | inr e ↦ rw e (sync_queue-any now job jobs w' d.0, sync_queue-Distinct now jobs w' d.1)
      ]

  ipvs_delete_destination-Distinct :
      (now : ℕ) (svc : Service) (dst : Destination) (nsc : Nsc W)
      → Distinct nsc.queue
      → Distinct (ipvs_delete_destination host now svc dst nsc).1.queue
  unfolding ipvs_delete_destination
  ipvs_delete_destination-Distinct now svc dst nsc d = elim (Bool-cases nsc.graceful_termination) [
    | inl e ↦ rw e (
        finish-queue svc _ _ _ d (
          add_to_graceful_queue-Distinct
            (record { svc = svc; dst = record dst { weight = 0 }; deletion_time = now; period = 0 })
            _ d))
    | inr e ↦ rw e (finish-queue svc _ _ _ d d)
  ]

  graceful_sync-Distinct :
      (now : ℕ) (nsc : Nsc W) → Distinct nsc.queue → Distinct (graceful_sync host now nsc).queue
  unfolding graceful_sync
  graceful_sync-Distinct now nsc d = sync_queue-Distinct now nsc.queue nsc.world d

-- The calls that change the queue, in any order and at any time.
pub data Call : Type 0 where
  delete_destination : ℕ → Service → Destination → Call
  sync : ℕ → Call

unfoldable pub calls : {W : Type 0} → Host W → List Call → Nsc W → Nsc W
unfolding ipvs_delete_destination graceful_sync
calls host [] nsc = nsc
calls host (delete_destination now svc dst ∷ cs) nsc =
    calls host cs (ipvs_delete_destination host now svc dst nsc).1
calls host (sync now ∷ cs) nsc = calls host cs (graceful_sync host now nsc)

-- Whatever destinations are deleted and however often the queue is processed, whether the host answers
-- with errors or not: a queue without two requests for one destination of one service stays one.
pub calls-Distinct :
    {W : Type 0} (host : Host W) (cs : List Call) (nsc : Nsc W)
    → Distinct nsc.queue
    → Distinct (calls host cs nsc).queue
unfolding calls
calls-Distinct host [] nsc d = d
calls-Distinct host (delete_destination now svc dst ∷ cs) nsc d =
    calls-Distinct host cs _ (ipvs_delete_destination-Distinct host now svc dst nsc d)
calls-Distinct host (sync now ∷ cs) nsc d =
    calls-Distinct host cs _ (graceful_sync-Distinct host now nsc d)
