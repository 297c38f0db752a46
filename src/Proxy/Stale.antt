-- ===== src/Proxy/Stale.antt =====
-- The clean-up behind a sync of IPVS services: cleanupStaleVIPs, cleanupStaleIPVSConfig, cleanupDSRService
-- and cleanupStaleMetrics of pkg/controllers/proxy/service_endpoints_sync.go.
pub mod Spared
mod Tests
use Prim.Native.String.{char_at}
use kube_router.Prelude.{
  String, ℕ, zero, suc, ◌/◌, ◌%◌, Bool, true, false, Option, none, some, List, [], ◌∷◌, ◌++◌, ◌&&◌,
  not, any, eqb, if◌then◌else◌, ◌==◌,
}
use kube_router.Prelude.Decimal.{itoa}
use kube_router.Prelude.Text.{cat, split, contains}
use kube_router.Exec.{Result, ok, err}
use kube_router.Dict.{lookup, insert, delete, keys}
use kube_router.Proxy.Graceful.{Nsc, Host, ipvs_delete_destination}
use kube_router.Proxy.Graceful as Graceful
use kube_router.Proxy.Info.{generate_ip_port_id, generate_endpoint_id}
use kube_router.Proxy.Linux.{IpvsService, Linux, to_svc_proto}
use kube_router.Proxy.Marks.{MarkMap, lookup_service_by_fw_mark}
use kube_router.Proxy.Sync.{ActiveMap}

-- `strings.SplitN(k, "-", 3)[0]`
unfoldable pub first_part : List String → String
first_part [] = ""
first_part (part ∷ parts) = part

-- addrActive of cleanupStaleVIPs
unfoldable pub active_addrs : ActiveMap → List String
unfolding first_part
active_addrs [] = []
active_addrs (entry ∷ entries) =
    let rest = active_addrs entries in
    if contains entry.0 "-" then first_part (split "-" entry.0) ∷ rest else rest

-- strconv.FormatInt(n, 16), for the marks, which have at most eight digits.
unfoldable hex_digits : ℕ → ℕ → String
hex_digits zero n = ""
hex_digits (suc digits) n =
    let last = String.◌∷◌ (char_at "0123456789abcdef" (n % 16)) "" in
    cat (if eqb (n / 16) 0 then "" else hex_digits digits (n / 16)) last

unfoldable pub hex : ℕ → String
unfolding hex_digits
hex n = hex_digits 8 n

unfoldable pub forget_mark : ℕ → MarkMap → MarkMap
forget_mark mark [] = []
forget_mark mark (e ∷ m) = let rest = forget_mark mark m in if eqb e.0 mark then rest else e ∷ rest

-- The key of an IPVS service in the map of active services; `none` if the service is passed over.
unfoldable pub key_by_protocol : IpvsService → String → Option String
unfolding generate_ip_port_id
key_by_protocol svc protocol = elim svc.address [
  | some address ↦ some (generate_ip_port_id address protocol (itoa svc.port))
  | none ↦ if eqb svc.fw_mark 0 then none else some (itoa svc.fw_mark)
]

unfoldable pub key_of : IpvsService → Option String
unfolding key_by_protocol
key_of svc =
    if (to_svc_proto svc.protocol == "none") && eqb svc.fw_mark 0
    then none
    else key_by_protocol svc (to_svc_proto svc.protocol)

unfoldable pub text_of_address : Option String → String
text_of_address none = "<nil>"
text_of_address (some address) = address

-- The service as the graceful queue keeps it.
unfoldable pub graceful_service : IpvsService → Graceful.Service
unfolding text_of_address
graceful_service svc = record {
  address = text_of_address svc.address;
  port = svc.port;
  protocol = svc.protocol;
}

unfoldable pub valid_endpoint : List String → Graceful.Destination → Bool
unfolding generate_endpoint_id
valid_endpoint endpoint_ids dst =
    any (λ id. id == generate_endpoint_id dst.address (itoa dst.port)) endpoint_ids

-- The destinations and the rules that a call gives, none if it fails.
unfoldable pub dsts_of : Result (List Graceful.Destination) → List Graceful.Destination
dsts_of (err e) = []
dsts_of (ok dsts) = dsts

unfoldable pub rules_of : Result String → List String
rules_of (err e) = []
rules_of (ok dump) = split "\n" dump

-- The controller, as far as it is written here.
pub record Controller (W : Type 0) : Type 0 where
  pub nsc : Nsc W
  pub marks : MarkMap

abbrev pub with_world : {W : Type 0} → Controller W → W → Controller W
with_world c w = record { nsc = record c.nsc { world = w }; marks = c.marks }

module _ {W : Type 0} (ln : Linux W) where
  unfoldable pub del_stale_addrs : List String → List String → W → W
  del_stale_addrs active [] w = w
  del_stale_addrs active (addr ∷ addrs) w =
      del_stale_addrs active addrs
        (if any (λ a. a == addr) active then w else (ln.ip_addr_del addr w).1)

  unfoldable pub clean_listed : List String → Result (List String) → W → Result (Unit {0}) × W
  unfolding del_stale_addrs
  clean_listed active (err e) w = (err (cat "Failed to list dummy interface IPs: " e), w)
  clean_listed active (ok addrs) w = (ok tt, del_stale_addrs active addrs w)

  unfoldable pub clean_on : List String → Result (Unit {0}) × W → Result (Unit {0}) × W
  unfolding clean_listed
  clean_on active (err e, w) = (err (cat "Failed creating dummy interface: " e), w)
  clean_on active (ok found, w) = clean_listed active (ln.addr_list w) w

  -- cleanupStaleVIPs
  unfoldable pub cleanup_stale_vips : ActiveMap → W → Result (Unit {0}) × W
  unfolding clean_on active_addrs
  cleanup_stale_vips m w = clean_on (active_addrs m) (ln.get_kube_dummy_interface w)

  -- The loop over the rules: the first removal that succeeds ends it.
  unfoldable pub after_rule : (W → W) → Result (Unit {0}) × W → W
  after_rule next (err e, w) = next w
  after_rule next (ok removed, w) = w

  unfoldable pub clean_rules : String → String → ℕ → ℕ → List String → W → W
  unfolding after_rule hex
  clean_rules ip protocol port mark [] w = w
  clean_rules ip protocol port mark (rule ∷ rules) w =
      let next = λ (v : W). clean_rules ip protocol port mark rules v in
      if contains rule ip && contains rule (hex mark)
      then after_rule next (ln.cleanup_mangle_table_rule ip protocol (itoa port) (itoa mark) w)
      else next w

  unfoldable pub clean_found :
      ℕ → Result (String × String × ℕ) → Controller W → Result (Unit {0}) × Controller W
  unfolding clean_rules rules_of forget_mark
  clean_found mark (err e) c = (err (cat "no service was found for FW mark: " e), c)
  clean_found mark (ok (ip, protocol, port)) c =
      let w =
        clean_rules ip protocol port mark (rules_of (ln.save_mangle c.nsc.world)) c.nsc.world in
      (ok tt, record { nsc = record c.nsc { world = w }; marks = forget_mark mark c.marks })

  -- cleanupDSRService; the mark in the text of the error is left out.
  unfoldable pub cleanup_dsr_service : ℕ → Controller W → Result (Unit {0}) × Controller W
  unfolding clean_found
  cleanup_dsr_service mark c = clean_found mark (lookup_service_by_fw_mark mark c.marks) c

  module _ (host : Host W) (now : ℕ) (excluded : Option String → Bool) where
    -- The deletion of a stale service; errors are logged only. `lookupServiceByFWMark` is asked first, and
    -- cleanupDSRService does nothing if it finds no service.
    unfoldable pub delete_stale : IpvsService → Controller W → Controller W
    unfolding cleanup_dsr_service
    delete_stale svc c =
        let c' = if eqb svc.fw_mark 0 then c else (cleanup_dsr_service svc.fw_mark c).1 in
        with_world c' (ln.del_service svc c'.nsc.world).1

    unfoldable pub delete_invalid :
        IpvsService → List String → List Graceful.Destination → Controller W → Controller W
    unfolding valid_endpoint graceful_service
    delete_invalid svc endpoint_ids [] c = c
    delete_invalid svc endpoint_ids (dst ∷ dsts) c =
        let removed = (ipvs_delete_destination host now (graceful_service svc) dst c.nsc).1 in
        delete_invalid svc endpoint_ids dsts
          (if valid_endpoint endpoint_ids dst then c else record c { nsc = removed })

    unfoldable pub clean_service : IpvsService → Option (List String) → Controller W → Controller W
    unfolding delete_stale delete_invalid dsts_of
    clean_service svc none c = if excluded svc.address then c else delete_stale svc c
    clean_service svc (some endpoint_ids) c =
        delete_invalid svc endpoint_ids
          (dsts_of (host.get_destinations (graceful_service svc) c.nsc.world)) c

    unfoldable pub clean_by_key :
        ActiveMap → IpvsService → Option String → Controller W → Controller W
    unfolding clean_service
    clean_by_key m svc none c = c
    clean_by_key m svc (some key) c = clean_service svc (lookup key m) c

    unfoldable pub clean_services : ActiveMap → List IpvsService → Controller W → Controller W
    unfolding clean_by_key key_of
    clean_services m [] c = c
    clean_services m (svc ∷ svcs) c = clean_services m svcs (clean_by_key m svc (key_of svc) c)

    unfoldable pub clean_config :
        ActiveMap → Result (List IpvsService) → Controller W → Result (Unit {0}) × Controller W
    unfolding clean_services
    clean_config m (err e) c = (err (cat "failed get list of IPVS services due to: " e), c)
    clean_config m (ok svcs) c = (ok tt, clean_services m svcs c)

    -- cleanupStaleIPVSConfig
    unfoldable pub cleanup_stale_ipvs_config :
        ActiveMap → Controller W → Result (Unit {0}) × Controller W
    unfolding clean_config
    cleanup_stale_ipvs_config m c = clean_config m (ln.get_services c.nsc.world) c

-- The keys that cleanupStaleMetrics keeps; the counters of the metrics library are left out.
unfoldable pub cleanup_stale_metrics :
    ActiveMap → List (String × List String) → List (String × List String)
cleanup_stale_metrics m [] = []
cleanup_stale_metrics m (entry ∷ metrics) =
    let rest = cleanup_stale_metrics m metrics in
    elim (lookup entry.0 m) [ none ↦ rest | some found ↦ entry ∷ rest ]
