-- ===== src/Netpol/Packet.antt =====
-- What a rule of a policy's chain says of a packet: each part that it names must match. How iptables
-- compares a protocol and a port, and which addresses a set holds, are parameters.
use text.Mathlib.Text.{starts_with}
use text.Mathlib.TextPositions.{starts_with-append}
use kube_router.Prelude.{
  String, ◌≡◌, Bool, true, false, ◌&&◌, ◌||◌, inl, inr, eq_iff, List, [], ◌∷◌, map, arith, any,
  ◌==◌, Bool-cases,
}
use kube_router.Prelude.Text.{cat}
use kube_router.Netpol.{ProtocolAndPort}
use kube_router.Netpol.Chain.{PolicyRule, rule_of, any_port}

pub record Packet : Type 0 where
  pub src : String
  pub dst : String
  pub protocol : String
  pub d_port : String

-- The matches of iptables: `-m set --match-set`, and `-p` with `--dport`, which match every packet if
-- the rule has none.
pub record Matcher : Type 0 where
  pub in_set : String → String → Bool
  pub on_port : ProtocolAndPort → Packet → Bool
  pub on_any_port : (p : Packet) → on_port any_port p ≡ true

-- The texts that a set holds are read by the set: `holds entries ip`.
module _ (m : Matcher) where
  abbrev pub in_named_set : String → String → Bool
  in_named_set set ip = set == "" || m.in_set set ip

  -- The rule matches the packet.
  abbrev pub matches : Packet → PolicyRule → Bool
  matches p r =
      in_named_set r.src_set p.src
      && (in_named_set r.dst_set p.dst
          && m.on_port (record { protocol = r.protocol; port = r.d_port; endport = r.end_d_port })
              p)

  -- A list of rules for one source and one destination matches by one of its ports.
  pub any-matches-map :
      (p : Packet) (comment src dst : String) (ports : List ProtocolAndPort)
      → any (matches p) (map (rule_of comment src dst) ports)
        ≡ (in_named_set src p.src && (in_named_set dst p.dst && any (λ q. m.on_port q p) ports))
  any-matches-map p comment src dst [] = ground arith
  any-matches-map p comment src dst (q ∷ ports) =
      ground (arith, any-matches-map p comment src dst ports)

-- No set of the program has an empty name.
pub named : (kind s : String) → starts_with "" kind ≡ false → (cat kind s == "") ≡ false
named kind s h = elim (Bool-cases (cat kind s == "")) [
  | inl e ↦ absurd (
      let u : cat kind s ≡ "" = (eq_iff (cat kind s) "").0 e in
      let v = starts_with-append kind s in cc)
  | inr e ↦ e
]
