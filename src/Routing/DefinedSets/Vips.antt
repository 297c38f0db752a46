-- ===== src/Routing/DefinedSets/Vips.antt =====
-- The set of advertised VIPs in the BGP server (addServiceVIPsDefinedSet).
use mathlib.Core.Path.{subst⁻¹}
use kube_router.Prelude.{
  String, ◌≡◌, refl, ◌∙◌, sym, ap, Bool, true, false, Option, none, some, List, ◌&&◌, ◌||◌, not,
  any, arith, if◌then◌else◌, ◌==◌, eq_iff,
}
use kube_router.Prelude.Text.{cat}
use kube_router.Exec.{Result, ok, err}
use kube_router.Routing.Bgp.{prefix_type, DefinedSet, Prefix, Server, Nrc}
use kube_router.Routing.Vips.{get_all_vips}
use kube_router.Routing.Vips.Split.{has}
use kube_router.Routing.Vips.Wanted.{may_advertise, wants, get_vips-wanted}
use kube_router.Routing.Vips.Fails.{is_err, get_all_vips_ok}
use kube_router.Routing.DefinedSets.{
  last, prefix_set, absent, text_of_prefix, sort_by_text, with_length, advertised_of, follow,
  with_current, delete_after, add_then_delete, update_vips, set_vips, add_service_vips_defined_set,
}
use kube_router.Routing.DefinedSets.Diff.{
  holds, holds-absent, holds-sort_by_text, holds-with_length,
}

abbrev pub holds_in : String → Option DefinedSet → Bool
holds_in text none = false
holds_in text (some ds) = holds text ds.prefixes

ok_of : {A : Type 0} (r : Result A) → is_err r ≡ false → (a : A) × (r ≡ ok a)
ok_of (ok a) h = (a, refl)
ok_of (err e) h = absurd cc

has-advertised_of :
    (nrc : Nrc) (ip : String)
    → has ip (advertised_of (get_all_vips nrc))
      ≡ any (may_advertise nrc ip) nrc.caches.list_services
unfolding advertised_of get_all_vips wants
has-advertised_of nrc ip =
    let (lists, e) = ok_of (get_all_vips nrc) (get_all_vips_ok nrc) in
    ap (λ r. has ip (advertised_of r)) e ∙ (get_vips-wanted nrc false lists.0 lists.1 ip e).0

-- A server whose calls on defined sets of prefixes succeed: it lists a set as it stands, adds to it,
-- creating it first, and deletes from it. `members w name text` is whether the set holds the prefix.
pub record IsSetStore {W : Type 0} (server : Server W) (members : W → String → String → Bool)
    : Type 0 where
  pub lists : (name : String) (w : W) → List DefinedSet
  pub listed :
      (name : String) (w : W) → server.list_defined_set prefix_type name w ≡ ok (lists name w)
  pub lists_members :
      (name text : String) (w : W) → members w name text ≡ holds_in text (last (lists name w))
  pub add_ok : (ds : DefinedSet) (w : W) → (server.add_defined_set ds w).0 ≡ ok tt
  pub added :
      (ds : DefinedSet) (w : W) (name text : String)
      → members (server.add_defined_set ds w).1 name text
        ≡ (members w name text || ((ds.name == name) && holds text ds.prefixes))
  pub delete_ok : (ds : DefinedSet) (w : W) → (server.delete_defined_set ds w).0 ≡ ok tt
  pub deleted :
      (ds : DefinedSet) (w : W) (name text : String)
      → members (server.delete_defined_set ds w).1 name text
        ≡ (members w name text && not ((ds.name == name) && holds text ds.prefixes))
  pub equal : (ps qs : List Prefix) → server.equal_prefixes ps qs ≡ true → ps ≡ qs

-- An addition and a deletion, at one name and prefix.
both_steps :
    (e m m' c v a d : Bool)
    → m' ≡ (m || (e && a))
    → a ≡ (v && not c)
    → d ≡ (c && not v)
    → (e ≡ true → m ≡ c)
    → (m' && not (e && d)) ≡ (if e then v else m)
both_steps true m m' c v a d p q r h = ground (arith, h refl)
both_steps false m m' c v a d p q r h = ground arith

as_it_was : (e m v : Bool) → (e ≡ true → m ≡ v) → m ≡ (if e then v else m)
as_it_was true m v h = h refl
as_it_was false m v h = refl

fresh : (e m v : Bool) → (e ≡ true → m ≡ false) → (m || (e && v)) ≡ (if e then v else m)
fresh true m v h = ground (arith, h refl)
fresh false m v h = ground arith

module _ {W : Type 0} (server : Server W) (members : W → String → String → Bool)
    (store : IsSetStore server members) where
  members-delete_after :
      (ds : DefinedSet) (r : Result (Unit {0})) (w : W) (name text : String)
      → r ≡ ok tt
      → ((delete_after server ds (r, w)).0 ≡ ok tt)
        × (members (delete_after server ds (r, w)).1 name text
            ≡ (members w name text && not ((ds.name == name) && holds text ds.prefixes)))
  unfolding delete_after
  members-delete_after ds (ok done) w name text h =
      (store.delete_ok ds w, store.deleted ds w name text)
  members-delete_after ds (err e) w name text h = absurd cc

  -- What a call ends in: it succeeds, and the set of VIPs holds the wanted prefixes.
  abbrev Ends : (name text : String) (wanted : List Prefix) (w : W) → Result (Unit {0}) × W → Type 0
  Ends name text wanted w r =
      (r.0 ≡ ok tt)
      × (members r.1 name text
          ≡ (if "servicevipsdefinedset" == name then holds text wanted else members w name text))

  members-add_then_delete :
      (wanted current : List Prefix) (w : W) (name text : String)
      → members w "servicevipsdefinedset" text ≡ holds text current
      → Ends name text wanted w (
          add_then_delete server
            (prefix_set "servicevipsdefinedset" (absent text_of_prefix current wanted))
            (prefix_set "servicevipsdefinedset" (absent text_of_prefix wanted current))
            w)
  unfolding add_then_delete
  members-add_then_delete wanted current w name text h =
      let to_add = prefix_set "servicevipsdefinedset" (absent text_of_prefix current wanted) in
      let to_delete = prefix_set "servicevipsdefinedset" (absent text_of_prefix wanted current) in
      let r = server.add_defined_set to_add w in
      let ended = members-delete_after to_delete r.0 r.1 name text (store.add_ok to_add w) in
      (
        ended.0,
        ended.1
            ∙ both_steps ("servicevipsdefinedset" == name) _ _ (holds text current)
                (holds text wanted) _ _ (store.added to_add w name text)
                (holds-absent text current wanted) (holds-absent text wanted current)
                (λ e.
                  ap (λ n. members w n text) (sym ((eq_iff "servicevipsdefinedset" name).0 e)) ∙ h),
      )

  members-update :
      (b : Bool) (wanted current : List Prefix) (w : W) (name text : String)
      → (b ≡ true → wanted ≡ current)
      → members w "servicevipsdefinedset" text ≡ holds text current
      → Ends name text wanted w (
          if b
          then (ok tt, w)
          else add_then_delete server
              (prefix_set "servicevipsdefinedset" (absent text_of_prefix current wanted))
              (prefix_set "servicevipsdefinedset" (absent text_of_prefix wanted current))
              w)
  members-update true wanted current w name text same h = (
    refl,
    as_it_was ("servicevipsdefinedset" == name) _ (holds text wanted) (λ e.
        ap (λ n. members w n text) (sym ((eq_iff "servicevipsdefinedset" name).0 e))
        ∙ h
        ∙ ap (holds text) (sym (same refl))),
  )
  members-update false wanted current w name text same h =
      members-add_then_delete wanted current w name text h

  members-set_vips :
      (wanted : List Prefix) (current : Option DefinedSet) (w : W) (name text : String)
      → members w "servicevipsdefinedset" text ≡ holds_in text current
      → Ends name text wanted w (set_vips server wanted current w)
  unfolding set_vips update_vips
  members-set_vips wanted none w name text h =
      let ds = prefix_set "servicevipsdefinedset" wanted in
      (
        store.add_ok ds w,
        store.added ds w name text
            ∙ fresh ("servicevipsdefinedset" == name) _ (holds text wanted) (λ e.
              ap (λ n. members w n text) (sym ((eq_iff "servicevipsdefinedset" name).0 e)) ∙ h),
      )
  members-set_vips wanted (some ds) w name text h =
      let new = sort_by_text wanted in
      let old = sort_by_text ds.prefixes in
      let stands : members w "servicevipsdefinedset" text ≡ holds text old =
        h ∙ sym (holds-sort_by_text text ds.prefixes) in
      let ended =
        members-update (server.equal_prefixes new old) new old w name text (store.equal new old)
          stands in
      (
        ended.0,
        ended.1
            ∙ ap (λ v. if "servicevipsdefinedset" == name then v else members w name text)
                (holds-sort_by_text text wanted),
      )

  -- If the calls of the server on defined sets succeed, addServiceVIPsDefinedSet succeeds, and the set of
  -- VIPs then holds an address, with its length, exactly if some service may advertise it, whatever the set
  -- held before; no other set changes.
  pub members-add_service_vips :
      (nrc : Nrc) (w : W) (ip name : String)
      → let r = add_service_vips_defined_set server nrc w in
        (r.0 ≡ ok tt)
        × (members r.1 name (cat ip "/32") ≡ (
            if "servicevipsdefinedset" == name
            then any (may_advertise nrc ip) nrc.caches.list_services
            else members w name (cat ip "/32")))
  unfolding add_service_vips_defined_set with_current follow
  members-add_service_vips nrc w ip name =
      let wanted = with_length (advertised_of (get_all_vips nrc)) in
      let (ended, set) : Ends name (cat ip "/32") wanted w (
          follow server (set_vips server wanted)
            (server.list_defined_set prefix_type "servicevipsdefinedset" w) w) =
        subst⁻¹
          (λ r. Ends name (cat ip "/32") wanted w (follow server (set_vips server wanted) r w))
          (store.listed "servicevipsdefinedset" w)
          (members-set_vips wanted (last (store.lists "servicevipsdefinedset" w)) w name
            (cat ip "/32") (store.lists_members "servicevipsdefinedset" (cat ip "/32") w)) in
      (
        ended,
        set
            ∙ ap (λ v. if "servicevipsdefinedset" == name then v else members w name (cat ip "/32"))
                (holds-with_length ip (advertised_of (get_all_vips nrc))
                  ∙ has-advertised_of nrc ip),
      )
