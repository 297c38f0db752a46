-- ===== src/Netpol/Requests/Served.antt =====
-- No request is lost.
use kube_router.Prelude.{◌≡◌, refl, Bool, true, false, List, any, arith}
use kube_router.Netpol.Requests.{
  Loop, request_full_sync, Label, request, start, finish, requests, starts, finishes, Steps, done,
  more,
}

abbrev pub is_start : Label → Bool
is_start request = false
is_start start = true
is_start finish = false

request_full_sync-pending : (l : Loop) → (request_full_sync l).pending ≡ true
unfolding request_full_sync
request_full_sync-pending l = ground arith

-- A request stays in the channel until a sync starts.
Steps-pending :
    {l l' : Loop} {labels : List Label}
    → Steps l labels l'
    → l.pending ≡ true
    → l'.pending ≡ false
    → any is_start labels ≡ true
Steps-pending (done l) h e = cc
Steps-pending (more (requests l) steps) h e = Steps-pending steps (request_full_sync-pending l) e
Steps-pending (more starts steps) h e = refl
Steps-pending (more (finishes pending) steps) h e = Steps-pending steps h e

-- However the callers and the goroutine take turns: if a sync is requested, and the channel is empty at
-- some later time, then a full sync was started after the request, even if another one was running when
-- it was made or the channel was full.
pub request-starts :
    (l l' : Loop) (labels : List Label)
    → Steps (request_full_sync l) labels l'
    → l'.pending ≡ false
    → any is_start labels ≡ true
request-starts l l' labels steps e = Steps-pending steps (request_full_sync-pending l) e
