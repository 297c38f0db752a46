-- ===== src/Routing/Events/Rib.antt =====
-- The routes that the handlers leave in the BGP server (pkg/controllers/routing/ecmp_vip.go).
use kube_router.Prelude.{
  String, ◌≡◌, refl, ◌∙◌, Bool, true, false, List, [], ◌∷◌, ◌&&◌, ◌||◌, not, arith, ◌==◌,
}
use kube_router.Exec.{Result, ok, err}
use kube_router.Routing.Bgp.{BgpPath, Server, Nrc}
use kube_router.Routing.Vips.Split.{has}
use kube_router.Routing.Policies.{add_policies}
use kube_router.Routing.Policies.Kept.{IsKept, Keeps-add_policies}
use kube_router.Routing.Events.{
  bgp_advertise_vip, bgp_withdraw_vip, vip_path, advertise_vips, withdraw_vips,
}

abbrev pub is_ok : Result (Unit {0}) → Bool
is_ok (ok done) = true
is_ok (err e) = false

-- The server's table of the paths with this node as next hop: a call that succeeds adds or removes the
-- path of its prefix, one that fails changes nothing, and the calls of AddPolicies leave the table alone.
pub record IsRib {W : Type 0} (server : Server W) (routes : W → String → Bool) : Type 0 where
  pub add_path :
      (path : BgpPath) (w : W) (ip : String)
      → routes (server.add_path path w).1 ip
        ≡ (routes w ip || (is_ok (server.add_path path w).0 && (path.prefix == ip)))
  pub delete_path :
      (path : BgpPath) (w : W) (ip : String)
      → routes (server.delete_path path w).1 ip
        ≡ (routes w ip && not (is_ok (server.delete_path path w).0 && (path.prefix == ip)))
  pub kept : IsKept server routes

-- The server takes every path, and gives back every path.
abbrev pub Accepts : {W : Type 0} → Server W → Type 0
Accepts {W} server =
    ((path : BgpPath) (w : W) → is_ok (server.add_path path w).0 ≡ true)
    × ((path : BgpPath) (w : W) → is_ok (server.delete_path path w).0 ≡ true)

module _ {W : Type 0} (server : Server W) (routes : W → String → Bool) (rib : IsRib server routes)
    (nrc : Nrc) (parse_ip : String → String) where
  -- Advertising takes no route away, and withdrawing takes away none but the addresses given.
  pub routes-advertise_vips :
      (vips : List String) (w : W) (ip : String)
      → routes w ip ≡ true
      → routes (advertise_vips server nrc parse_ip vips w) ip ≡ true
  unfolding advertise_vips bgp_advertise_vip
  routes-advertise_vips [] w ip h = h
  routes-advertise_vips (vip ∷ vips) w ip h =
      routes-advertise_vips vips _ ip
        (ground (arith, rib.add_path (vip_path server nrc parse_ip vip) w ip))

  pub routes-withdraw_vips :
      (vips : List String) (w : W) (ip : String)
      → has ip vips ≡ false
      → routes (withdraw_vips server nrc parse_ip vips w) ip ≡ routes w ip
  unfolding withdraw_vips bgp_withdraw_vip vip_path
  routes-withdraw_vips [] w ip h = refl
  routes-withdraw_vips (vip ∷ vips) w ip h =
      routes-withdraw_vips vips _ ip (ground arith)
      ∙ ground (arith, rib.delete_path (vip_path server nrc parse_ip vip) w ip)

  pub all-advertise_vips :
      Accepts server
      → (vips : List String) (w : W) (ip : String)
      → routes (advertise_vips server nrc parse_ip vips w) ip ≡ (routes w ip || has ip vips)
  unfolding advertise_vips bgp_advertise_vip vip_path
  all-advertise_vips accepts [] w ip = ground arith
  all-advertise_vips accepts (vip ∷ vips) w ip =
      let path = vip_path server nrc parse_ip vip in
      let later = all-advertise_vips accepts vips (server.add_path path w).1 ip in
      ground (arith, later, rib.add_path path w ip, accepts.0 path w)

  pub all-withdraw_vips :
      Accepts server
      → (vips : List String) (w : W) (ip : String)
      → routes (withdraw_vips server nrc parse_ip vips w) ip ≡ (routes w ip && not (has ip vips))
  unfolding withdraw_vips bgp_withdraw_vip vip_path
  all-withdraw_vips accepts [] w ip = ground arith
  all-withdraw_vips accepts (vip ∷ vips) w ip =
      let path = vip_path server nrc parse_ip vip in
      let later = all-withdraw_vips accepts vips (server.delete_path path w).1 ip in
      ground (arith, later, rib.delete_path path w ip, accepts.1 path w)

  pub routes-add_policies : (w : W) → routes (add_policies server nrc parse_ip w).1 ≡ routes w
  routes-add_policies w = Keeps-add_policies server routes rib.kept nrc parse_ip w
