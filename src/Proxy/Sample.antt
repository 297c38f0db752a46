-- ===== src/Proxy/Sample.antt =====
-- A host in memory, which shows that the hypotheses on hosts can hold.
use kube_router.Prelude.{
  String, ℕ, ◌≡◌, refl, ◌∙◌, sym, Bool-cases, inl, inr, Bool, true, false, Option, none, some, List,
  [], ◌∷◌, not, keep, arith, ◌==◌, eq_iff,
}
use kube_router.Exec.{ok}
use kube_router.Dict.{lookup}
use kube_router.Proxy.Graceful.{Host}
use kube_router.Proxy.Info.{ServiceInfo, EndpointInfo}
use kube_router.Proxy.Linux.{IpvsService, Linux}
use kube_router.Proxy.Stale.{key_of, Controller}
use kube_router.Proxy.Stale.Spared.{is_stale, IsSpared}
use kube_router.Proxy.Sync.{ActiveMap}
use kube_router.Proxy.Sync.ClusterIps.{IsWorking}

-- The IPVS services; all else that the calls do is left out.
abbrev pub World : Type 0
World = List IpvsService

abbrev same_key : Option String → Option String → Bool
same_key none none = true
same_key (some a) (some b) = a == b
same_key _ _ = false

abbrev new_service : String → ℕ → ℕ → IpvsService
new_service vip protocol port = record {
  address = some vip;
  protocol = protocol;
  port = port;
  fw_mark = 0;
}

abbrev pub ln : Linux World
ln = record {
  get_services = λ w. ok w;
  get_kube_dummy_interface = λ w. (ok tt, w);
  ip_addr_add = λ ip w. (ok tt, w);
  ip_addr_del = λ ip w. (ok tt, w);
  addr_list = λ w. ok [];
  add_service = λ svcs vip protocol port svc w.
      (ok (new_service vip protocol port), new_service vip protocol port ∷ w);
  add_fw_mark_service = λ svcs mark protocol port svc w. (
    ok (record { address = none; protocol = protocol; port = port; fw_mark = mark }),
    record { address = none; protocol = protocol; port = port; fw_mark = mark } ∷ w,
  );
  del_service = λ svc w. (ok tt, keep (λ s. not (same_key (key_of svc) (key_of s))) w);
  add_server = λ svc dst w. (ok tt, w);
  get_all_local_ips = λ w. ok [];
  save_mangle = λ w. ok "";
  setup_mangle_table_rule = λ ip protocol port mark w. (ok tt, w);
  cleanup_mangle_table_rule = λ ip protocol port mark w. (ok tt, w);
  route_vip_traffic_to_director = λ mark w. (ok tt, w);
  setup_policy_routing_for_dsr = λ w. (ok tt, w);
  setup_routes_for_external_ip_for_dsr = λ svcs w. (ok tt, w);
  sync_ipvs_firewall = λ w. (ok tt, w);
  add_dsr_ip_inside_pod = λ ip endpoint w. (ok tt, w);
}

abbrev pub host : Host World
host = record {
  update_destination = λ svc dst w. (ok tt, w);
  del_destination = λ svc dst w. (ok tt, w);
  get_destinations = λ svc w. ok [];
  pod_grace_period = λ ip w. ok 0;
  flush_conntrack_udp = λ svc w. (ok tt, w);
}

pub ln-IsWorking : IsWorking ln
ln-IsWorking = record {
  services = λ w. w;
  listed_services = λ w. refl;
  dummy_ok = λ w. refl;
  addr_ok = λ ip w. refl;
  handle = λ svcs vip protocol port svc w. new_service vip protocol port;
  added = λ svcs vip protocol port svc w. refl;
  takes = λ svc dst w. refl;
}

abbrev pub none_excluded : Option String → Bool
none_excluded address = false

-- The services that are not stale.
abbrev pub standing : ActiveMap → World → World
standing m w = keep (λ s. not (is_stale m none_excluded s)) w

abbrev stale_key : ActiveMap → Option String → Bool
stale_key m none = false
stale_key m (some key) = elim (lookup key m) [ none ↦ true | some ids ↦ false ]

stale_key-same :
    (m : ActiveMap) (k j : Option String)
    → same_key k j ≡ true
    → stale_key m k ≡ true
    → stale_key m j ≡ true
stale_key-same m none none h s = s
stale_key-same m none (some b) h s = absurd cc
stale_key-same m (some a) none h s = absurd cc
stale_key-same m (some a) (some b) h s = rw⁻¹ ((eq_iff a b).0 h) s

by_key :
    (m : ActiveMap) (o : Option String)
    → elim o [ none ↦ false | some key ↦ elim (lookup key m) [ none ↦ true | some ids ↦ false ] ]
      ≡ stale_key m o
by_key m none = refl
by_key m (some key) = refl

is_stale-stale_key :
    (m : ActiveMap) (svc : IpvsService) → is_stale m none_excluded svc ≡ stale_key m (key_of svc)
unfolding is_stale
is_stale-stale_key m svc = by_key m (key_of svc)

keep-standing :
    (m : ActiveMap) (svc : IpvsService) (w : World)
    → is_stale m none_excluded svc ≡ true
    → standing m (keep (λ s. not (same_key (key_of svc) (key_of s))) w) ≡ standing m w
keep-standing m svc [] h = refl
keep-standing m svc (s ∷ w) h =
    let rest = keep-standing m svc w h in
    elim (Bool-cases (same_key (key_of svc) (key_of s))) [
      | inl e ↦
          let stale : is_stale m none_excluded s ≡ true =
            is_stale-stale_key m s
            ∙ stale_key-same m (key_of svc) (key_of s) e (sym (is_stale-stale_key m svc) ∙ h) in
          ground (arith, rest, stale, e)
      | inr e ↦ ground (arith, rest, e)
    ]

pub host-IsSpared : (m : ActiveMap) → IsSpared ln host m none_excluded (standing m)
host-IsSpared m = record {
  del_service = λ svc w h. keep-standing m svc w h;
  del_destination = λ svc dst w h. refl;
  update_destination = λ svc dst w h. refl;
  flush_conntrack_udp = λ svc w. refl;
  cleanup_mangle_table_rule = λ ip protocol port mark w. refl;
}

abbrev pub endpoint : String → Bool → EndpointInfo
endpoint ip is_local = record { ip = ip; port = 8080; is_local = is_local }

abbrev pub web : ServiceInfo
web = record {
  name = "web";
  namespace = "default";
  cluster_ip = "10.0.0.1";
  port = 80;
  target_port = "8080";
  protocol = "tcp";
  node_port = 0;
  session_affinity = false;
  session_affinity_timeout_seconds = 0;
  direct_server_return = false;
  scheduler = "rr";
  direct_server_return_method = "";
  hairpin = false;
  hairpin_external_ips = false;
  skip_lb_ips = false;
  external_ips = "192.0.2.1" ∷ [];
  load_balancer_ips = [];
  local = true;
  flags = record { flag1 = false; flag2 = false; flag3 = false };
}

abbrev pub controller : World → Controller World
controller w = record {
  nsc = record { graceful_termination = false; graceful_period = 0; queue = []; world = w };
  marks = [];
}
