-- ===== src/Routing/Sample.antt =====
-- A BGP server in memory, which shows that the hypotheses on servers can hold.
use kube_router.Prelude.{
  String, ◌≡◌, refl, ◌∙◌, ap, ◌||◌, Bool, true, false, none, some, List, [], ◌∷◌, ◌++◌, ◌&&◌, not,
  any, any-append, keep, arith, ◌==◌, eq_iff, if◌then◌else◌,
}
use kube_router.Exec.{ok}
use kube_router.Prelude.Text.{cat}
use kube_router.Objects.{ServiceObject, EndpointsObject, service_object, endpoints_object, Caches}
use kube_router.Routing.Bgp.{
  Prefix, prefix_type, DefinedSet, Policy, PolicyDirection, export_direction, import_direction,
  PolicyAssignment, Server, Nrc, reject,
}
use kube_router.Routing.Vips.Split.{has}
use kube_router.Routing.Policies.Kept.{IsKept}
use kube_router.Routing.Policies.{has_policy, assigns_policy}
use kube_router.Routing.Policies.Assigned.{IsPolicyStore, same_direction}
use kube_router.Routing.DefinedSets.{last}
use kube_router.Routing.DefinedSets.Vips.{IsSetStore}
use kube_router.Routing.DefinedSets.Diff.{holds}
use kube_router.Routing.Events.Rib.{IsRib}

-- The prefixes of the paths, the members of prefix sets by name and text, the policies, and those that are
-- assigned in each direction.
pub record World : Type 0 where
  pub paths : List String
  pub sets : List (String × String)
  pub policies : List Policy
  pub exported : List Policy
  pub imported : List Policy

abbrev pub empty_world : World
empty_world = record { paths = []; sets = []; policies = []; exported = []; imported = [] }

abbrev named : String → List Prefix → List (String × String)
named name [] = []
named name (p ∷ ps) = (name, p.ip_prefix) ∷ named name ps

abbrev of_name : String → List (String × String) → List Prefix
of_name name [] = []
of_name name (e ∷ es) =
    let rest = of_name name es in
    if e.0 == name
    then record { ip_prefix = e.1; mask_length_min = 32; mask_length_max = 32 } ∷ rest
    else rest

abbrev set_of : String → World → DefinedSet
set_of name w = record {
  defined_type = prefix_type;
  name = name;
  prefixes = of_name name w.sets;
  list = [];
}

abbrev pub members : World → String → String → Bool
members w name text = any (λ e. (e.0 == name) && (e.1 == text)) w.sets

abbrev assigned_in : World → PolicyDirection → List Policy
assigned_in w export_direction = w.exported
assigned_in w import_direction = w.imported

-- One assignment for each direction.
abbrev pub assignments_of : World → PolicyDirection → List PolicyAssignment
assignments_of w direction =
    record {
      name = "global";
      direction = direction;
      policies = assigned_in w direction;
      default_action = reject;
    }
    ∷ []

abbrev assign : PolicyDirection → List Policy → World → World
assign export_direction policies w = record w { exported = w.exported ++ policies }
assign import_direction policies w = record w { imported = w.imported ++ policies }

abbrev pub routes : World → String → Bool
routes w ip = has ip w.paths

abbrev pub server : Server World
server = record {
  add_path = λ path w. (ok tt, record w { paths = path.prefix ∷ w.paths });
  delete_path = λ path w. (ok tt, record w { paths = keep (λ x. not (path.prefix == x)) w.paths });
  list_defined_set = λ defined_type name w. ok (set_of name w ∷ []);
  add_defined_set = λ ds w. (ok tt, record w { sets = named ds.name ds.prefixes ++ w.sets });
  delete_defined_set = λ ds w. (
    ok tt,
    record w { sets = keep (λ e. not ((ds.name == e.0) && holds e.1 ds.prefixes)) w.sets },
  );
  list_policy = λ w. ok w.policies;
  add_policy = λ policy w. (ok tt, record w { policies = w.policies ++ policy ∷ [] });
  list_policy_assignment = λ name direction w. ok (assignments_of w direction);
  add_policy_assignment =
      λ assignment w. (ok tt, assign assignment.direction assignment.policies w);
  equal_texts = λ xs ys. false;
  equal_prefixes = λ xs ys. false;
}

has-keep_other :
    (prefix ip : String) (xs : List String)
    → has ip (keep (λ x. not (prefix == x)) xs) ≡ (has ip xs && not (prefix == ip))
has-keep_other prefix ip [] = refl
has-keep_other prefix ip (x ∷ xs) =
    ground (arith, has-keep_other prefix ip xs, eq_iff prefix x, eq_iff x ip, eq_iff prefix ip)

routes-assign :
    (direction : PolicyDirection) (added : List Policy) (w : World)
    → routes (assign direction added w) ≡ routes w
routes-assign export_direction added w = refl
routes-assign import_direction added w = refl

pub server-IsKept : IsKept server routes
server-IsKept = record {
  add_defined_set = λ ds w. refl;
  delete_defined_set = λ ds w. refl;
  add_policy = λ policy w. refl;
  add_policy_assignment = λ assignment w. routes-assign assignment.direction assignment.policies w;
}

pub server-IsRib : IsRib server routes
server-IsRib = record {
  add_path = λ path w ip. ground arith;
  delete_path = λ path w ip. has-keep_other path.prefix ip w.paths;
  kept = server-IsKept;
}

policies-assign :
    (direction : PolicyDirection) (added : List Policy) (w : World)
    → (assign direction added w).policies ≡ w.policies
policies-assign export_direction added w = refl
policies-assign import_direction added w = refl

has_policy-append :
    (name : String) (ps qs : List Policy)
    → has_policy name (ps ++ qs) ≡ (has_policy name ps || has_policy name qs)
unfolding has_policy
has_policy-append name ps qs = any-append (λ p. p.name == name) ps qs

assigned-assign :
    (own direction : PolicyDirection) (added : List Policy) (name : String) (w : World)
    → assigns_policy name (assignments_of (assign own added w) direction) ≡ (
        (same_direction own direction && has_policy name added)
        || assigns_policy name (assignments_of w direction))
unfolding assigns_policy
assigned-assign export_direction export_direction added name w =
    ground (arith, has_policy-append name w.exported added)
assigned-assign export_direction import_direction added name w = refl
assigned-assign import_direction export_direction added name w = refl
assigned-assign import_direction import_direction added name w =
    ground (arith, has_policy-append name w.imported added)

added_policy :
    (direction : PolicyDirection) (name : String) (policy : Policy) (w : World)
    → assigns_policy name
        (assignments_of (record w { policies = w.policies ++ policy ∷ [] }) direction)
      ≡ assigns_policy name (assignments_of w direction)
added_policy export_direction name policy w = refl
added_policy import_direction name policy w = refl

one_policy :
    (policy : Policy) (name : String) → has_policy name (policy ∷ []) ≡ (policy.name == name)
unfolding has_policy
one_policy policy name = ground arith

pub server-IsPolicyStore : IsPolicyStore server (λ w. w.policies) assignments_of
server-IsPolicyStore = record {
  listed = λ w. refl;
  listed_assignments = λ w direction. refl;
  add_ok = λ policy w h. refl;
  added = λ policy name w h.
      has_policy-append name w.policies (policy ∷ []) ∙ ground (arith, one_policy policy name);
  add_keeps = λ policy name direction w. added_policy direction name policy w;
  assign_ok = λ assignment w h k. refl;
  assigned = λ assignment name direction w h.
      assigned-assign assignment.direction direction assignment.policies name w;
  assign_keeps = λ assignment name w.
      ap (has_policy name) (policies-assign assignment.direction assignment.policies w);
}

abbrev is_in : String → String → List (String × String) → Bool
is_in name text es = any (λ e. (e.0 == name) && (e.1 == text)) es

is_in-of_name :
    (name text : String) (es : List (String × String))
    → is_in name text es ≡ holds text (of_name name es)
is_in-of_name name text [] = refl
is_in-of_name name text (e ∷ es) = ground (arith, is_in-of_name name text es)

is_in-named :
    (name text set : String) (ps : List Prefix)
    → is_in name text (named set ps) ≡ ((set == name) && holds text ps)
is_in-named name text set [] = ground arith
is_in-named name text set (p ∷ ps) = ground (arith, is_in-named name text set ps)

is_in-keep :
    (name text set : String) (ps : List Prefix) (es : List (String × String))
    → is_in name text (keep (λ e. not ((set == e.0) && holds e.1 ps)) es)
      ≡ (is_in name text es && not ((set == name) && holds text ps))
is_in-keep name text set ps [] = refl
is_in-keep name text set ps (e ∷ es) = ground (
  arith,
  is_in-keep name text set ps es,
  eq_iff set e.0,
  eq_iff set name,
  eq_iff e.0 name,
  eq_iff e.1 text,
)

pub server-IsSetStore : IsSetStore server members
unfolding last
server-IsSetStore = record {
  lists = λ name w. set_of name w ∷ [];
  listed = λ name w. refl;
  lists_members = λ name text w. is_in-of_name name text w.sets;
  add_ok = λ ds w. refl;
  added = λ ds w name text.
      any-append (λ e. (e.0 == name) && (e.1 == text)) (named ds.name ds.prefixes) w.sets
      ∙ ground (arith, is_in-named name text ds.name ds.prefixes);
  delete_ok = λ ds w. refl;
  deleted = λ ds w name text. is_in-keep name text ds.name ds.prefixes w.sets;
  equal = λ ps qs h. absurd cc;
}

-- Two services: traffic to the first stays on the node, and an address of the second is asked for by both.
abbrev pub web : ServiceObject
web = record {
  namespace = "default";
  name = "web";
  type_name = "LoadBalancer";
  cluster_ip = "10.0.0.1";
  cluster_ips = "10.0.0.1" ∷ [];
  external_ips = "192.0.2.1" ∷ [];
  ingress_ips = "198.51.100.1" ∷ [];
  external_traffic_policy = "Local";
  ports = [];
  session_affinity = "None";
  session_affinity_timeout_seconds = 0;
  annotations = [];
}

abbrev pub db : ServiceObject
db = record web {
  name = "db";
  type_name = "ClusterIP";
  cluster_ip = "10.0.0.2";
  cluster_ips = "10.0.0.2" ∷ [];
  ingress_ips = [];
  external_traffic_policy = "Cluster";
}

abbrev pub web_endpoints : EndpointsObject
web_endpoints = record {
  namespace = "default";
  name = "web";
  annotations = [];
  subsets =
      record { addresses = record { ip = "172.16.0.9"; node_name = some "other" } ∷ []; ports = [] }
      ∷ [];
}

abbrev pub caches : Caches
caches = record {
  key_of = λ namespace name. ok (cat namespace (cat "/" name));
  list_services = web ∷ db ∷ [];
  service_by_key = λ key. ok (some (service_object web));
  endpoints_by_key =
      λ key. if key == "default/web" then ok (some (endpoints_object web_endpoints)) else ok none;
}

abbrev pub nrc : Nrc
nrc = record {
  node_ip = "172.16.0.1";
  node_name = "node";
  bgp_server_started = true;
  advertise_cluster_ip = true;
  advertise_external_ip = true;
  advertise_load_balancer_ip = false;
  advertise_pod_cidr = true;
  bgp_rr_server = false;
  bgp_enable_internal = true;
  override_next_hop = false;
  path_prepend = true;
  path_prepend_as = "64512";
  path_prepend_count = 2;
  global_peer_routers = "203.0.113.1" ∷ [];
  node_peer_routers = [];
  node_communities = [];
  node_custom_import_reject_ip_nets = [];
  pod_cidr = record { address = "10.1.0.0"; mask_text = "24" };
  caches = caches;
  nodes = [];
}
