-- ===== src/Routing/DefinedSets/Diff.antt =====
-- The difference of two lists of prefixes, and the set that results from adding and deleting it.
use text.Mathlib.TextLemmas.{append_cancel_right}
use kube_router.Prelude.{
  String, ◌≡◌, refl, ap, Bool, true, List, [], ◌∷◌, ◌&&◌, ◌||◌, not, any, arith, both_or_none, ◌==◌,
  eq_iff,
}
use kube_router.Prelude.Text.{cat}
use kube_router.Routing.Bgp.{Prefix}
use kube_router.Routing.Vips.Split.{has}
use kube_router.Routing.DefinedSets.{
  absent, insert_by_text, sort_by_text, text_of_prefix, with_length,
}

abbrev pub holds : String → List Prefix → Bool
holds text ps = any (λ p. p.ip_prefix == text) ps

holds-eq : (s t : String) (ps : List Prefix) → (s == t) ≡ true → holds s ps ≡ holds t ps
holds-eq s t ps h = ap (λ x. holds x ps) ((eq_iff s t).0 h)

pub holds-absent :
    (text : String) (there here : List Prefix)
    → holds text (absent text_of_prefix there here) ≡ (holds text here && not (holds text there))
unfolding absent
holds-absent text there [] = refl
holds-absent text there (p ∷ here) =
    ground (arith, holds-absent text there here, holds-eq p.ip_prefix text there)

holds-insert_by_text :
    (text : String) (p : Prefix) (ps : List Prefix)
    → holds text (insert_by_text p ps) ≡ ((p.ip_prefix == text) || holds text ps)
unfolding insert_by_text
holds-insert_by_text text p [] = refl
holds-insert_by_text text p (q ∷ ps) = ground (arith, holds-insert_by_text text p ps)

pub holds-sort_by_text :
    (text : String) (ps : List Prefix) → holds text (sort_by_text ps) ≡ holds text ps
unfolding sort_by_text
holds-sort_by_text text [] = refl
holds-sort_by_text text (p ∷ ps) =
    ground (arith, holds-insert_by_text text p (sort_by_text ps), holds-sort_by_text text ps)

-- What is added and deleted turns one list into the other.
pub diff : (a b : Bool) → ((a || (b && not a)) && not (a && not b)) ≡ b
diff a b = ground arith

eq-cat : (s t : String) → (cat s "/32" == cat t "/32") ≡ (s == t)
eq-cat s t =
    both_or_none (cat s "/32" == cat t "/32") (s == t)
      (λ h.
        (eq_iff s t).1 (append_cancel_right s t "/32" ((eq_iff (cat s "/32") (cat t "/32")).0 h)))
      (λ h. (eq_iff (cat s "/32") (cat t "/32")).1 (ap (λ x. cat x "/32") ((eq_iff s t).0 h)))

pub holds-with_length :
    (ip : String) (ips : List String) → holds (cat ip "/32") (with_length ips) ≡ has ip ips
unfolding with_length
holds-with_length ip [] = refl
holds-with_length ip (x ∷ ips) = ground (arith, holds-with_length ip ips, eq-cat x ip)
