-- ===== src/Netpol/Requests/Tests.antt =====
-- A request while a sync is running.
use kube_router.Prelude.{◌≡◌, refl, true, false, List, [], ◌∷◌, any}
use kube_router.Netpol.Requests.{
  Loop, request_full_sync, Label, start, finish, starts, finishes, Steps, done, more,
}
use kube_router.Netpol.Requests.Served.{is_start, request-starts}

abbrev busy : Loop
busy = record { pending = false; running = true }

abbrev labels : List Label
labels = finish ∷ start ∷ finish ∷ []

abbrev idle : Loop
idle = record { pending = false; running = false }

busy-Steps : Steps (request_full_sync busy) labels idle
unfolding request_full_sync
busy-Steps = more (finishes true) (more starts (more (finishes false) (done idle)))

request-starts_example : any is_start labels ≡ true
request-starts_example = request-starts busy idle labels busy-Steps refl
