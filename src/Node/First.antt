-- ===== src/Node/First.antt =====
-- Which address is taken.
use mathlib.Core.List.{append-nil, append_assoc}
use kube_router.Prelude.{
  String, ◌≡◌, refl, ◌∙◌, sym, ap, Option, none, some, List, [], ◌∷◌, ◌++◌, keep, ◌==◌, eq_iff,
  Option-cases, Bool-cases, inl, inr,
}
use kube_router.Exec.{Result, ok, err}
use kube_router.Dict.{lookup, insert, lookup-insert}
use kube_router.Node.{NodeAddress, AddressMap, of_type, group, first_ip, get_node_ip}

-- The addresses of a type, in order.
abbrev pub typed : String → List NodeAddress → List NodeAddress
typed t addresses = keep (λ (a : NodeAddress). a.type_name == t) addresses

abbrev found_list : List NodeAddress → Option (List NodeAddress)
found_list [] = none
found_list (a ∷ addresses) = some (a ∷ addresses)

-- What a map holds for a type when more addresses come.
abbrev more_of : Option (List NodeAddress) → List NodeAddress → Option (List NodeAddress)
more_of none more = found_list more
more_of (some old) more = some (old ++ more)

behind :
    (o : Option (List NodeAddress)) (a : NodeAddress) (rest : List NodeAddress)
    → some ((elim o [ none ↦ [] | some old ↦ old ] ++ a ∷ []) ++ rest) ≡ more_of o (a ∷ rest)
behind none a rest = refl
behind (some old) a rest = ap some (append_assoc old (a ∷ []) rest)

one_more :
    (t : String) (a : NodeAddress) (addresses : List NodeAddress) (m : AddressMap)
    → more_of
        (lookup t (insert a.type_name (of_type m a.type_name ++ a ∷ []) m))
        (typed t addresses)
      ≡ more_of (lookup t m) (typed t (a ∷ addresses))
unfolding of_type
one_more t a addresses m = elim (Bool-cases (a.type_name == t)) [
  | inr e ↦ rw lookup-insert (rw e refl)
  | inl e ↦
      let same : a.type_name ≡ t = (eq_iff a.type_name t).0 e in
      rw lookup-insert (
        rw e (
          ap (λ k. some ((of_type m k ++ a ∷ []) ++ typed t addresses)) same
          ∙ behind (lookup t m) a (typed t addresses)))
]

lookup-group :
    (t : String) (addresses : List NodeAddress) (m : AddressMap)
    → lookup t (group addresses m) ≡ more_of (lookup t m) (typed t addresses)
unfolding group
lookup-group t [] m = elim (Option-cases (lookup t m)) [
  | inl e ↦ rw e refl
  | inr (old, e) ↦ rw e (ap some (sym (append-nil old)))
]
lookup-group t (a ∷ addresses) m =
    lookup-group t addresses (insert a.type_name (of_type m a.type_name ++ a ∷ []) m)
    ∙ one_more t a addresses m

module _ {Ip : Type 0} (parse_ip : String → Ip) where
  -- The first internal address, or else the first external one, or else an error.
  abbrev pub chosen : List NodeAddress → List NodeAddress → Result Ip
  chosen (a ∷ internals) externals = ok (parse_ip a.address)
  chosen [] (b ∷ externals) = ok (parse_ip b.address)
  chosen [] [] = err "host IP unknown"

  pick :
      (m : AddressMap) (internals externals : List NodeAddress)
      → lookup "InternalIP" m ≡ more_of none internals
      → lookup "ExternalIP" m ≡ more_of none externals
      → elim (lookup "InternalIP" m) [
        | some found ↦ first_ip parse_ip found
        | none ↦ elim (lookup "ExternalIP" m) [
          | some found ↦ first_ip parse_ip found
          | none ↦ some (err "host IP unknown")
        ]
      ]
        ≡ some (chosen internals externals)
  unfolding first_ip
  pick m (a ∷ internals) externals h k = rw h refl
  pick m [] (b ∷ externals) h k = rw (h, k) refl
  pick m [] [] h k = rw (h, k) refl

  -- Whatever addresses of whatever types a node has, in any order: its address is that of the first
  -- internal one, if it has none that of the first external one, and if it has neither there is an error;
  -- no list is read beyond its end.
  get_node_ip_lem :
      (addresses : List NodeAddress)
      → get_node_ip parse_ip addresses
        ≡ some (chosen (typed "InternalIP" addresses) (typed "ExternalIP" addresses))
  unfolding get_node_ip lookup
  get_node_ip_lem addresses =
      pick (group addresses []) (typed "InternalIP" addresses) (typed "ExternalIP" addresses)
        (lookup-group "InternalIP" addresses []) (lookup-group "ExternalIP" addresses [])
