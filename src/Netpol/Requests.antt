-- ===== src/Netpol/Requests.antt =====
-- Requests for a full sync: `RequestFullSync`, and the goroutine of `Run` that serves them
-- (pkg/controllers/netpol/network_policy_controller.go). The channel has one place.
pub mod Served
mod Tests
use kube_router.Prelude.{◌≡◌, Bool, true, false, List, [], ◌∷◌, if◌then◌else◌}

-- Whether the channel holds a request, and whether `fullPolicySync` is running.
pub record Loop : Type 0 where
  pub pending : Bool
  pub running : Bool

-- RequestFullSync: an empty channel takes the request; a full one is left as it is.
unfoldable pub request_full_sync : Loop → Loop
request_full_sync l = if l.pending then l else record l { pending = true }

pub data Label : Type 0 where
  request start finish : Label

-- The steps of the callers and of the goroutine: it takes a request when no sync is running, runs the
-- sync, and comes back to the channel when the sync is over.
pub data Step : Loop → Label → Loop → Type 0 where
  requests : (l : Loop) → Step l request (request_full_sync l)
  starts :
      Step
        (record { pending = true; running = false })
        start
        (record { pending = false; running = true })
  finishes :
      (pending : Bool)
      → Step
          (record { pending = pending; running = true })
          finish
          (record { pending = pending; running = false })

pub data Steps : Loop → List Label → Loop → Type 0 where
  done : (l : Loop) → Steps l [] l
  more :
      {l m n : Loop} {label : Label} {labels : List Label}
      → Step l label m
      → Steps m labels n
      → Steps l (label ∷ labels) n
