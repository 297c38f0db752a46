-- ===== src/Routing/Vips/Split.antt =====
-- The lists that getVIPs makes (pkg/controllers/routing/ecmp_vip.go): membership in them.
use kube_router.Prelude.{
  String, ◌≡◌, refl, Bool, true, false, List, [], ◌∷◌, ◌&&◌, ◌||◌, not, any, any-append, ◌==◌,
  eq_iff, arith,
}
use kube_router.Routing.Vips.{put, final_withdraw}

abbrev pub has : String → List String → Bool
has ip ips = any (λ x. x == ip) ips

pub has-put :
    (ip : String) (advertise : Bool) (ips : List String) (lists : List String × List String)
    → (has ip (put advertise ips lists).0 ≡ (has ip lists.0 || (advertise && has ip ips)))
      × (has ip (put advertise ips lists).1 ≡ (has ip lists.1 || (not advertise && has ip ips)))
unfolding put
has-put ip true ips lists = (any-append (λ x. x == ip) lists.0 ips, ground arith)
has-put ip false ips lists = (ground arith, any-append (λ x. x == ip) lists.1 ips)

pub has-eq : (ip vip : String) (ips : List String) → (vip == ip) ≡ true → has vip ips ≡ has ip ips
has-eq ip vip ips h = ground (arith, eq_iff vip ip)

has-swap : (ip : String) (ips : List String) → any (λ x. ip == x) ips ≡ has ip ips
has-swap ip [] = refl
has-swap ip (x ∷ ips) = ground (arith, has-swap ip ips, eq_iff ip x, eq_iff x ip)

-- What is left to withdraw is what is not advertised.
pub has-final_withdraw :
    (ip : String) (advertise withdraw : List String)
    → has ip (final_withdraw advertise withdraw) ≡ (has ip withdraw && not (has ip advertise))
unfolding final_withdraw
has-final_withdraw ip advertise [] = refl
has-final_withdraw ip advertise (vip ∷ withdraw) = ground (
  arith,
  has-final_withdraw ip advertise withdraw,
  has-swap vip advertise,
  has-eq ip vip advertise,
  eq_iff vip ip,
)
