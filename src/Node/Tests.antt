-- ===== src/Node/Tests.antt =====
-- A node with a host name and an external address before two internal ones.
use kube_router.Prelude.{String, ◌≡◌, refl, some, List, [], ◌∷◌}
use kube_router.Exec.{ok}
use kube_router.Dict.{lookup, insert}
use kube_router.Node.{NodeAddress, get_node_ip}

abbrev same_text : String → String
same_text s = s

abbrev addresses : List NodeAddress
addresses =
    record { type_name = "Hostname"; address = "node-1" }
    ∷ record { type_name = "ExternalIP"; address = "203.0.113.1" }
    ∷ record { type_name = "InternalIP"; address = "10.0.0.5" }
    ∷ record { type_name = "InternalIP"; address = "10.0.0.6" }
    ∷ []

internal_first : get_node_ip same_text addresses ≡ some (ok "10.0.0.5")
unfolding get_node_ip lookup insert
internal_first = refl
