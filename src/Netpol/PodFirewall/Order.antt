-- ===== src/Netpol/PodFirewall/Order.antt =====
-- The order of the rules of a pod's chain for the policies: each is inserted at the head.
use mathlib.Core.List.{append-nil, append_assoc, map-append}
use kube_router.Prelude.{
  String, ◌≡◌, refl, ◌∙◌, Bool, true, false, not, ◌&&◌, ◌||◌, none, some, List, [], ◌∷◌, ◌++◌, map,
  arith, any, keep, if◌then◌else◌, Option-cases, inl, inr,
}
use kube_router.Prelude.Text.{join}
use kube_router.Dict.{lookup}
use kube_router.Netpol.{PodInfo, NetworkPolicyInfo}
use kube_router.Netpol.PodFirewall.{
  jump_args, for_ingress, for_egress, Jumps, jump_one, jump_all, setup_pod_netpol_rules,
}
use kube_router.Netpol.PodRules.{
  Rules, write, default_ingress_args, default_egress_args, local_node_args, invalid_args,
  established_args,
}

-- `iptables -I chain 1`: the last insert stands first.
abbrev pub inserted : List (List String) → List (List String) → List (List String)
inserted [] chain = chain
inserted (args ∷ more) chain = inserted more (args ∷ chain)

inserted-append :
    (xs ys : List (List String)) (chain : List (List String))
    → inserted (xs ++ ys) chain ≡ inserted ys (inserted xs chain)
inserted-append [] ys chain = refl
inserted-append (x ∷ xs) ys chain = inserted-append xs ys (x ∷ chain)

in_order :
    (a b : Bool) (din dout x y z : List String) (chain : List (List String))
    → inserted
        ((if a then [] else din ∷ []) ++ ((if b then [] else dout ∷ []) ++ x ∷ y ∷ z ∷ []))
        chain
      ≡ z ∷ y ∷ x ∷ ((if b then [] else dout ∷ []) ++ ((if a then [] else din ∷ []) ++ chain))
in_order true true din dout x y z chain = refl
in_order true false din dout x y z chain = refl
in_order false true din dout x y z chain = refl
in_order false false din dout x y z chain = refl

-- The policy selects the pod.
abbrev pub selects : PodInfo → NetworkPolicyInfo → Bool
selects pod policy = elim (lookup pod.ip policy.target_pods) [ none ↦ false | some info ↦ true ]

write_all : List (List String) → Rules → Rules
write_all [] rules = rules
write_all (args ∷ more) rules = write_all more (write args rules)

write_all-append :
    (args : List (List String)) (rules : Rules)
    → write_all args rules ≡ rules ++ map (join " ") args
unfolding write_all write
write_all-append [] rules = rw append-nil refl
write_all-append (a ∷ args) rules =
    write_all-append args (write a rules) ∙ append_assoc rules (join " " a ∷ []) _

-- The two optional rules, and those after them.
write_rest :
    (din dout : List String) (last : List (List String)) (rules : Rules)
    (jumps : List (List String)) (a b : Bool)
    → write_all last (
        let r1 =
          if not a
          then write din (rules ++ map (join " ") jumps)
          else rules ++ map (join " ") jumps in
        if not b then write dout r1 else r1)
      ≡ rules
        ++ map
            (join " ")
            (jumps ++ ((if a then [] else din ∷ []) ++ ((if b then [] else dout ∷ []) ++ last)))
unfolding write
write_rest din dout last rules jumps true true =
    write_all-append last _ ∙ simp (map-append, append_assoc)
write_rest din dout last rules jumps true false =
    write_all-append last _ ∙ simp (map-append, append_assoc)
write_rest din dout last rules jumps false true =
    write_all-append last _ ∙ simp (map-append, append_assoc)
write_rest din dout last rules jumps false false =
    write_all-append last _ ∙ simp (map-append, append_assoc)

module _ (hash : String → String) (version : String) (pod : PodInfo) (fw : String) where
  abbrev pub restricts_ingress : NetworkPolicyInfo → Bool
  restricts_ingress policy = selects pod policy && for_ingress policy.policy_type

  abbrev pub restricts_egress : NetworkPolicyInfo → Bool
  restricts_egress policy = selects pod policy && for_egress policy.policy_type

  -- The inserted rules, in the order in which they are written.
  abbrev pub written : List NetworkPolicyInfo → List (List String)
  written policies =
      map (jump_args hash version pod fw) (keep (selects pod) policies)
      ++ ((if any restricts_ingress policies then [] else default_ingress_args pod fw ∷ [])
          ++ ((if any restricts_egress policies then [] else default_egress_args pod fw ∷ [])
              ++ local_node_args pod fw ∷ invalid_args fw ∷ established_args fw ∷ []))

  jump_all-rules :
      (policies : List NetworkPolicyInfo) (j : Jumps)
      → (jump_all hash version pod fw policies j).rules
        ≡ j.rules
          ++ map (join " ") (map (jump_args hash version pod fw) (keep (selects pod) policies))
  unfolding jump_all jump_one write
  jump_all-rules [] j = rw append-nil refl
  jump_all-rules (policy ∷ policies) j = elim (Option-cases (lookup pod.ip policy.target_pods)) [
    | inl e ↦ ground (arith, jump_all-rules policies (jump_one hash version pod fw policy j), e)
    | inr (info, e) ↦ ground (
      arith,
      jump_all-rules policies (jump_one hash version pod fw policy j),
      e,
      append_assoc j.rules (join " " (jump_args hash version pod fw policy) ∷ [])
          (map (join " ") (map (jump_args hash version pod fw) (keep (selects pod) policies))),
    )
  ]

  jump_all-has_ingress :
      (policies : List NetworkPolicyInfo) (j : Jumps)
      → (jump_all hash version pod fw policies j).has_ingress
        ≡ (j.has_ingress || any restricts_ingress policies)
  unfolding jump_all jump_one
  jump_all-has_ingress [] j = ground arith
  jump_all-has_ingress (policy ∷ policies) j =
      ground (arith, jump_all-has_ingress policies (jump_one hash version pod fw policy j))

  jump_all-has_egress :
      (policies : List NetworkPolicyInfo) (j : Jumps)
      → (jump_all hash version pod fw policies j).has_egress
        ≡ (j.has_egress || any restricts_egress policies)
  unfolding jump_all jump_one
  jump_all-has_egress [] j = ground arith
  jump_all-has_egress (policy ∷ policies) j =
      ground (arith, jump_all-has_egress policies (jump_one hash version pod fw policy j))

  setup_pod_netpol_rules-written :
      (policies : List NetworkPolicyInfo) (rules : Rules)
      → setup_pod_netpol_rules hash version pod fw policies rules
        ≡ rules ++ map (join " ") (written policies)
  unfolding setup_pod_netpol_rules write_all
  setup_pod_netpol_rules-written policies rules =
      let start : Jumps = record { has_ingress = false; has_egress = false; rules = rules } in
      rw
        (
          jump_all-rules policies start,
          jump_all-has_ingress policies start,
          jump_all-has_egress policies start,
        )
        (write_rest (default_ingress_args pod fw) (default_egress_args pod fw)
          (local_node_args pod fw ∷ invalid_args fw ∷ established_args fw ∷ []) rules
          (map (jump_args hash version pod fw) (keep (selects pod) policies))
          (any restricts_ingress policies) (any restricts_egress policies))

  inserted-written :
      (policies : List NetworkPolicyInfo)
      → inserted (written policies) []
        ≡ established_args fw
          ∷ invalid_args fw
          ∷ local_node_args pod fw
          ∷ ((if any restricts_egress policies then [] else default_egress_args pod fw ∷ [])
              ++ ((if any restricts_ingress policies then [] else default_ingress_args pod fw ∷ [])
                  ++ inserted
                      (map (jump_args hash version pod fw) (keep (selects pod) policies))
                      []))
  inserted-written policies =
      inserted-append (map (jump_args hash version pod fw) (keep (selects pod) policies)) _ []
      ∙ in_order (any restricts_ingress policies) (any restricts_egress policies)
          (default_ingress_args pod fw) (default_egress_args pod fw) (local_node_args pod fw)
          (invalid_args fw) (established_args fw) _

  -- The arguments of a pod's rules, in the order in which the code writes them, each an insert at the
  -- head of the pod's chain, make a chain that accepts established traffic first, drops invalid packets
  -- next and lets the local node in next; behind these stand the default chain for egress and that for
  -- ingress, each exactly if no policy that selects the pod restricts that direction, and then the jumps
  -- to the policies that select the pod, the last policy's first.
  pub setup_pod_netpol_rules-inserted :
      (policies : List NetworkPolicyInfo) (rules : Rules)
      → (setup_pod_netpol_rules hash version pod fw policies rules
          ≡ rules ++ map (join " ") (written policies))
        × (inserted (written policies) []
            ≡ established_args fw
              ∷ invalid_args fw
              ∷ local_node_args pod fw
              ∷ ((if any restricts_egress policies then [] else default_egress_args pod fw ∷ [])
                  ++ ((if any restricts_ingress policies
                        then []
                        else default_ingress_args pod fw ∷ [])
                      ++ inserted
                          (map (jump_args hash version pod fw) (keep (selects pod) policies))
                          [])))
  setup_pod_netpol_rules-inserted policies rules =
      (setup_pod_netpol_rules-written policies rules, inserted-written policies)
