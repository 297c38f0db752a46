-- ===== src/Node.antt =====
-- `GetNodeIP` (pkg/utils/node.go). What net.ParseIP makes of a text is a parameter.
pub mod First
mod Tests
use kube_router.Prelude.{String, Option, none, some, List, [], ◌∷◌, ◌++◌}
use kube_router.Exec.{Result, ok, err}
use kube_router.Dict.{lookup, insert}

-- v1.NodeAddress
pub record NodeAddress : Type 0 where
  pub type_name : String
  pub address : String

abbrev pub AddressMap : Type 0
AddressMap = List (String × List NodeAddress)

-- `addressMap[t] = append(addressMap[t], address)`; a missing key has the nil slice.
unfoldable pub of_type : AddressMap → String → List NodeAddress
of_type m t = elim (lookup t m) [ none ↦ [] | some addresses ↦ addresses ]

unfoldable pub group : List NodeAddress → AddressMap → AddressMap
unfolding of_type
group [] m = m
group (a ∷ addresses) m = group addresses (insert a.type_name (of_type m a.type_name ++ a ∷ []) m)

module _ {Ip : Type 0} (parse_ip : String → Ip) where
  -- `addresses[0]`, which a key of the map has.
  unfoldable pub first_ip : List NodeAddress → Option (Result Ip)
  first_ip [] = none
  first_ip (a ∷ addresses) = some (ok (parse_ip a.address))

  -- GetNodeIP; `none` is a panic.
  unfoldable pub get_node_ip : List NodeAddress → Option (Result Ip)
  unfolding group first_ip
  get_node_ip addresses =
      let m = group addresses [] in
      elim (lookup "InternalIP" m) [
        | some found ↦ first_ip found
        | none ↦ elim (lookup "ExternalIP" m) [
          | some found ↦ first_ip found
          | none ↦ some (err "host IP unknown")
        ]
      ]
