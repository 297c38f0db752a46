-- ===== src/Netpol/Chain/Writes.antt =====
-- What is written to a chain by code that only adds to it: the texts of a list of rules.
use mathlib.Core.List.{append-nil, append_assoc, map-append}
use kube_router.Prelude.{
  String, ◌≡◌, refl, ◌∙◌, ap, sym, Bool, true, false, List, [], ◌∷◌, ◌++◌, map, not, if◌then◌else◌,
  flatten, flatten-append,
}
use kube_router.Netpol.{ProtocolAndPort, Sync}
use kube_router.Netpol.Chain.{
  PolicyRule, rule_texts, rule_of, append_rule_to_policy_chain, append_port_rules,
  create_policy_indexed_ipset,
}

module _ (name : String) where
  abbrev pub texts : List PolicyRule → List String
  texts rs = flatten (map (rule_texts name) rs)

  texts-append : (xs ys : List PolicyRule) → texts (xs ++ ys) ≡ texts xs ++ texts ys
  texts-append xs ys = rw map-append (flatten-append (map (rule_texts name) xs) _)

  -- `f` writes the rules of the list behind what is there.
  pub record Writes (f : Sync → Sync) (rs : List PolicyRule) : Type 0 where
    pub at : (st : Sync) → (f st).rules ≡ st.rules ++ texts rs

  pub Writes-seq :
      {f g : Sync → Sync} {xs ys : List PolicyRule}
      → Writes f xs
      → Writes g ys
      → Writes (λ st. g (f st)) (xs ++ ys)
  Writes-seq {f} {g} {xs} {ys} w v = record {
    at = λ st.
        v.at (f st)
        ∙ ap (λ l. l ++ texts ys) (w.at st)
        ∙ append_assoc st.rules (texts xs) (texts ys)
        ∙ ap (λ l. st.rules ++ l) (sym (texts-append xs ys));
  }

  pub Writes-keep : (f : Sync → Sync) → ((st : Sync) → (f st).rules ≡ st.rules) → Writes f []
  Writes-keep f h = record { at = λ st. h st ∙ sym (append-nil st.rules) }

  pub Writes-if :
      (b : Bool) (f g : Sync → Sync) (xs ys : List PolicyRule)
      → Writes f xs
      → Writes g ys
      → Writes (λ st. if b then f st else g st) (if b then xs else ys)
  Writes-if true f g xs ys w v = w
  Writes-if false f g xs ys w v = v

  pub append_rule-Writes : (r : PolicyRule) → Writes (append_rule_to_policy_chain name r) (r ∷ [])
  unfolding append_rule_to_policy_chain
  append_rule-Writes r = record { at = λ st. rw append-nil refl }

  pub append_port_rules-Writes :
      (comment src dst : String) (ports : List ProtocolAndPort)
      → Writes (append_port_rules name comment src dst ports) (map (rule_of comment src dst) ports)
  unfolding append_port_rules
  append_port_rules-Writes comment src dst [] = Writes-keep (λ st. st) (λ st. refl)
  append_port_rules-Writes comment src dst (p ∷ ports) =
      Writes-seq (append_rule-Writes (rule_of comment src dst p))
        (append_port_rules-Writes comment src dst ports)

  pub create_policy_indexed_ipset-Writes :
      (n ty : String) (ips : List String) → Writes (create_policy_indexed_ipset n ty ips) []
  unfolding create_policy_indexed_ipset
  create_policy_indexed_ipset-Writes n ty ips = Writes-keep _ (λ st. refl)

  -- `if !b { f }`, then `if b { g }`.
  pub Writes-either :
      (b : Bool) (f g : Sync → Sync) (xs ys : List PolicyRule)
      → Writes f xs
      → Writes g ys
      → Writes
          (λ st. let st' = if not b then f st else st in if b then g st' else st')
          (if b then ys else xs)
  Writes-either true f g xs ys w v = v
  Writes-either false f g xs ys w v = w
