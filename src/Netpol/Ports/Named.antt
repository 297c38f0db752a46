-- ===== src/Netpol/Ports/Named.antt =====
-- Which addresses the table of named ports holds.
use mathlib.Core.List.{append-nil, append_assoc}
use kube_router.Prelude.{
  String, ◌≡◌, refl, ◌∙◌, ap, Bool, Option, none, some, List, [], ◌∷◌, ◌++◌, ◌&&◌, arith,
  if◌then◌else◌, ◌==◌, eq_iff,
}
use kube_router.Prelude.Decimal.{itoa}
use kube_router.Dict.{lookup, insert, lookup-insert}
use kube_router.Netpol.{ProtocolAndPort, EndPoints}
use kube_router.Netpol.Api.{ContainerPort, Pod}
use kube_router.Netpol.Ports.{
  NamedPortToEps, or_empty, add_ip, grab_port, grab_ports, grab_containers,
  grab_named_port_from_pod,
}

abbrev ips_of : Option EndPoints → List String
ips_of none = []
ips_of (some eps) = eps.ips

-- The addresses under a name, a protocol and a number.
abbrev pub ips_at : NamedPortToEps → String → String → String → List String
ips_at m name protocol number =
    ips_of (lookup number (or_empty (lookup protocol (or_empty (lookup name m)))))

ips_of-add_ip :
    (ip : String) (pp : ProtocolAndPort) (eps : Option EndPoints)
    → ips_of (some (add_ip ip pp eps)) ≡ ips_of eps ++ ip ∷ []
unfolding add_ip
ips_of-add_ip ip pp none = refl
ips_of-add_ip ip pp (some eps) = refl

-- The container port has this name, protocol and number.
abbrev pub is_port : String → String → String → ContainerPort → Bool
is_port name protocol number port =
    port.name == name && (port.protocol == protocol && itoa port.container_port == number)

-- The address, once for each such port of the container.
abbrev pub container_ips : String → String → String → String → List ContainerPort → List String
container_ips name protocol number ip [] = []
container_ips name protocol number ip (port ∷ ports) =
    (if is_port name protocol number port then ip ∷ [] else [])
    ++ container_ips name protocol number ip ports

abbrev pub pod_ips : String → String → String → String → List (List ContainerPort) → List String
pod_ips name protocol number ip [] = []
pod_ips name protocol number ip (ports ∷ containers) =
    container_ips name protocol number ip ports ++ pod_ips name protocol number ip containers

module _ (name protocol number : String) where
  ips_at-grab_port :
      (ip : String) (port : ContainerPort) (m : NamedPortToEps)
      → ips_at (grab_port ip port m) name protocol number
        ≡ ips_at m name protocol number
          ++ (if is_port name protocol number port then ip ∷ [] else [])
  unfolding grab_port or_empty
  ips_at-grab_port ip port m =
      let protocols = or_empty (lookup port.name m) in
      let numbers = or_empty (lookup port.protocol protocols) in
      let n = itoa port.container_port in
      let eps =
        add_ip ip (record { protocol = port.protocol; port = n; endport = "" })
          (lookup n numbers) in
      let numbers' = insert n eps numbers in
      let protocols' = insert port.protocol numbers' protocols in
      ground (
        arith,
        lookup-insert port.name name protocols' m,
        lookup-insert port.protocol protocol numbers' protocols,
        lookup-insert n number eps numbers,
        eq_iff port.name name,
        eq_iff port.protocol protocol,
        eq_iff n number,
        ips_of-add_ip ip (record { protocol = port.protocol; port = n; endport = "" })
            (lookup n numbers),
        append-nil (ips_at m name protocol number),
      )

  ips_at-grab_ports :
      (ip : String) (ports : List ContainerPort) (m : NamedPortToEps)
      → ips_at (grab_ports ip ports m) name protocol number
        ≡ ips_at m name protocol number ++ container_ips name protocol number ip ports
  unfolding grab_ports
  ips_at-grab_ports ip [] m = rw append-nil refl
  ips_at-grab_ports ip (port ∷ ports) m =
      ips_at-grab_ports ip ports (grab_port ip port m)
      ∙ ap (λ l. l ++ container_ips name protocol number ip ports) (ips_at-grab_port ip port m)
      ∙ append_assoc (ips_at m name protocol number) _ _

  ips_at-grab_containers :
      (ip : String) (containers : List (List ContainerPort)) (m : NamedPortToEps)
      → ips_at (grab_containers ip containers m) name protocol number
        ≡ ips_at m name protocol number ++ pod_ips name protocol number ip containers
  unfolding grab_containers
  ips_at-grab_containers ip [] m = rw append-nil refl
  ips_at-grab_containers ip (ports ∷ containers) m =
      ips_at-grab_containers ip containers (grab_ports ip ports m)
      ∙ ap (λ l. l ++ pod_ips name protocol number ip containers) (ips_at-grab_ports ip ports m)
      ∙ append_assoc (ips_at m name protocol number) _ _

  -- Grabbing a pod adds the pod's address under each name, protocol and number, once for each of its
  -- container ports that has them, behind what is there.
  pub ips_at-grab_named_port_from_pod :
      (pod : Pod) (m : NamedPortToEps)
      → ips_at (grab_named_port_from_pod pod m) name protocol number
        ≡ ips_at m name protocol number ++ pod_ips name protocol number pod.pod_ip pod.containers
  unfolding grab_named_port_from_pod
  ips_at-grab_named_port_from_pod pod m = ips_at-grab_containers pod.pod_ip pod.containers m
