-- ===== src/Routing/Events/Withdrawn.antt =====
-- Which VIPs the handlers withdraw (pkg/controllers/routing/ecmp_vip.go).
use kube_router.Prelude.{
  String, ◌≡◌, refl, Bool, true, false, some, List, [], ◌∷◌, ◌&&◌, ◌||◌, not, any, arith, eq_iff,
  ◌==◌,
}
use kube_router.Prelude.Text.{cat, join}
use kube_router.Prelude.Text.Split.{lacks, all_lack}
use kube_router.Prelude.Text.Words.{contains-join}
use kube_router.Exec.{ok}
use kube_router.Dict.{lookup, insert, lookup-insert}
use kube_router.Objects.{ServiceObject}
use kube_router.Routing.Bgp.{Nrc}
use kube_router.Routing.Vips.{get_active_vips, get_external_ips}
use kube_router.Routing.Vips.Split.{has}
use kube_router.Routing.Vips.Wanted.{wants, get_vips-wanted}
use kube_router.Routing.Events.{
  missing_from, get_missing_prev_gen, active_map, in_map, not_in_map, unused, removed_external_ips,
  get_external_ips_to_withdraw,
}

in_map-insert :
    (ip vip : String) (m : List (String × Bool))
    → in_map (insert vip true m) ip ≡ ((vip == ip) || in_map m ip)
unfolding in_map
in_map-insert ip vip m = ground (arith, lookup-insert vip ip true m)

in_map-active_map :
    (ip : String) (vips : List String) (m : List (String × Bool))
    → in_map (active_map vips m) ip ≡ (has ip vips || in_map m ip)
unfolding active_map
in_map-active_map ip [] m = refl
in_map-active_map ip (vip ∷ vips) m =
    ground (arith, in_map-active_map ip vips (insert vip true m), in_map-insert ip vip m)

has-not_in_map :
    (ip : String) (m : List (String × Bool)) (vips : List String)
    → has ip (not_in_map m vips) ≡ (has ip vips && not (in_map m ip))
unfolding not_in_map
has-not_in_map ip m [] = refl
has-not_in_map ip m (vip ∷ vips) = ground (arith, has-not_in_map ip m vips, eq_iff vip ip)

in_map-none : (ip : String) → in_map [] ip ≡ false
unfolding in_map lookup
in_map-none ip = refl

-- What is kept of some addresses are those that are not active.
pub has-unused :
    (ip : String) (vips active inactive : List String)
    → has ip (unused vips (ok (active, inactive))) ≡ (has ip vips && not (has ip active))
unfolding unused
has-unused ip vips active inactive = ground (
  arith,
  has-not_in_map ip (active_map active []) vips,
  in_map-active_map ip active [],
  in_map-none ip,
)

-- An address that is not blank and holds no blank.
abbrev pub is_word : String → Bool
is_word s = lacks " " s && not (s == "")

has-missing_from :
    (ip : String) (old new : List String)
    → is_word ip ≡ true
    → all_lack " " new ≡ true
    → has ip (missing_from (cat " " (cat (join " " new) " ")) old)
      ≡ (has ip old && not (has ip new))
unfolding missing_from
has-missing_from ip [] new h hn = refl
has-missing_from ip (s ∷ old) new h hn = ground (
  arith,
  has-missing_from ip old new,
  eq_iff s ip,
  contains-join " " ip new (ground arith) (ground arith) hn,
)

-- An update of a service withdraws exactly the external addresses that the old version has, that the new
-- one has not, and that no service wants advertised; for an address that is a word, new addresses
-- without blanks, and if the active VIPs can be told.
pub has-get_external_ips_to_withdraw :
    (nrc : Nrc) (svc_old svc_new : ServiceObject) (advertise withdraw : List String) (ip : String)
    → get_active_vips nrc ≡ ok (advertise, withdraw)
    → is_word ip ≡ true
    → all_lack " " (get_external_ips svc_new) ≡ true
    → has ip (get_external_ips_to_withdraw nrc (some svc_old) (some svc_new)) ≡ (
        (has ip (get_external_ips svc_old) && not (has ip (get_external_ips svc_new)))
        && not (any (wants nrc true ip) nrc.caches.list_services))
unfolding get_external_ips_to_withdraw removed_external_ips get_missing_prev_gen get_active_vips
has-get_external_ips_to_withdraw nrc svc_old svc_new advertise withdraw ip h hw hn =
    let old = get_external_ips svc_old in
    let new = get_external_ips svc_new in
    let removed = has-missing_from ip old new hw hn in
    let wanted = get_vips-wanted nrc true advertise withdraw ip h in
    let kept =
      has-unused ip (missing_from (cat " " (cat (join " " new) " ")) old) advertise withdraw in
    rw h (ground (arith, removed, wanted.0, kept))
