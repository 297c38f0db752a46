-- ===== src/Routing/DefinedSets.antt =====
-- The defined sets of the BGP policies (pkg/controllers/routing/bgp_policies.go): what `AddPolicies` writes
-- into the BGP server before the policies themselves.
pub mod Diff
pub mod Vips
mod Tests
use kube_router.Prelude.{
  String, ℕ, Bool, true, false, Option, none, some, List, [], ◌∷◌, ◌++◌, any, not, map, is_empty,
  leb, if◌then◌else◌, ◌==◌,
}
use kube_router.Prelude.Text.{cat, str_leb}
use kube_router.Prelude.Parse.{atoi_nonneg}
use kube_router.Exec.{Result, ok, err}
use kube_router.Node.{NodeAddress, get_node_ip}
use kube_router.Routing.Bgp.{
  Prefix, DefinedType, prefix_type, neighbor_type, DefinedSet, Server, PodCidr, IpNet, Nrc,
}
use kube_router.Routing.Vips.{get_all_vips}

unfoldable pub last : List DefinedSet → Option DefinedSet
last [] = none
last (ds ∷ []) = some ds
last (ds ∷ more) = last more

abbrev pub prefix_set : String → List Prefix → DefinedSet
prefix_set name prefixes = record {
  defined_type = prefix_type;
  name = name;
  prefixes = prefixes;
  list = [];
}

abbrev pub neighbor_set : String → List String → DefinedSet
neighbor_set name list = record {
  defined_type = neighbor_type;
  name = name;
  prefixes = [];
  list = list;
}

-- The loops that compare two lists by their texts: what is in `here` and not in `there`.
unfoldable pub absent : {A : Type 0} → (A → String) → List A → List A → List A
absent text there [] = []
absent text there (x ∷ here) =
    let rest = absent text there here in
    if any (λ y. text y == text x) there then rest else x ∷ rest

-- sort.SliceStable by the texts of prefixes.
unfoldable pub insert_by_text : Prefix → List Prefix → List Prefix
insert_by_text p [] = p ∷ []
insert_by_text p (q ∷ ps) =
    let rest = insert_by_text p ps in
    if str_leb p.ip_prefix q.ip_prefix then p ∷ q ∷ ps else q ∷ rest

unfoldable pub sort_by_text : List Prefix → List Prefix
unfolding insert_by_text
sort_by_text [] = []
sort_by_text (p ∷ ps) = insert_by_text p (sort_by_text ps)

abbrev pub text_of_prefix : Prefix → String
text_of_prefix p = p.ip_prefix

abbrev pub same_text : String → String
same_text s = s

unfoldable pub with_length : List String → List Prefix
with_length [] = []
with_length (ip ∷ ips) =
    record { ip_prefix = cat ip "/32"; mask_length_min = 32; mask_length_max = 32 }
    ∷ with_length ips

unfoldable pub advertised_of : Result (List String × List String) → List String
advertised_of (ok lists) = lists.0
advertised_of (err e) = []

unfoldable pub in_range : Option ℕ → Option ℕ
in_range none = none
in_range (some n) = if leb n 32 then some n else none

unfoldable pub reject_prefixes : List IpNet → List Prefix
reject_prefixes [] = []
reject_prefixes (ip_net ∷ nets) =
    record { ip_prefix = ip_net.text; mask_length_min = ip_net.mask_size; mask_length_max = 32 }
    ∷ reject_prefixes nets

module _ {W : Type 0} (server : Server W) where
  abbrev pub Call : Type 0
  Call = W → Result (Unit {0}) × W

  -- The current set of a name, and what follows; an error ends the call.
  unfoldable pub follow : (Option DefinedSet → Call) → Result (List DefinedSet) → Call
  unfolding last
  follow next (err e) w = (err e, w)
  follow next (ok found) w = next (last found) w

  unfoldable pub with_current : DefinedType → String → (Option DefinedSet → Call) → Call
  unfolding follow
  with_current defined_type name next w =
      follow next (server.list_defined_set defined_type name w) w

  -- The two calls that bring an existing set up to date.
  unfoldable pub delete_after : DefinedSet → Result (Unit {0}) × W → Result (Unit {0}) × W
  delete_after to_delete (err e, w) = (err e, w)
  delete_after to_delete (ok done, w) = server.delete_defined_set to_delete w

  unfoldable pub add_then_delete : DefinedSet → DefinedSet → Call
  unfolding delete_after
  add_then_delete to_add to_delete w = delete_after to_delete (server.add_defined_set to_add w)

  -- A set that stands already is left as it is.
  unfoldable pub unless_present : Call → Option DefinedSet → Call
  unless_present create none w = create w
  unless_present create (some ds) w = (ok tt, w)

  -- addDefaultRouteDefinedSet
  unfoldable pub add_default_route_defined_set : Call
  unfolding with_current unless_present
  add_default_route_defined_set = with_current prefix_type "defaultroutedefinedset" (
      unless_present (
        server.add_defined_set (
          prefix_set "defaultroutedefinedset"
            (record { ip_prefix = "0.0.0.0/0"; mask_length_min = 0; mask_length_max = 0 } ∷ []))))

  unfoldable pub update_vips : List Prefix → List Prefix → Call
  unfolding add_then_delete absent
  update_vips wanted current w =
      let updated =
        add_then_delete (prefix_set "servicevipsdefinedset" (absent text_of_prefix current wanted))
          (prefix_set "servicevipsdefinedset" (absent text_of_prefix wanted current)) w in
      if server.equal_prefixes wanted current then (ok tt, w) else updated

  unfoldable pub set_vips : List Prefix → Option DefinedSet → Call
  unfolding update_vips sort_by_text
  set_vips wanted none w = server.add_defined_set (prefix_set "servicevipsdefinedset" wanted) w
  set_vips wanted (some ds) w = update_vips (sort_by_text wanted) (sort_by_text ds.prefixes) w

  module _ (nrc : Nrc) where
    unfoldable pub add_pod_prefix : Option ℕ → Call
    add_pod_prefix none w = (err "the pod CIDR IP given is not a proper mask", w)
    add_pod_prefix (some cidr_len) w =
        server.add_defined_set
          (prefix_set "podcidrdefinedset" (
            record {
              ip_prefix = cat nrc.pod_cidr.address (cat "/" nrc.pod_cidr.mask_text);
              mask_length_min = cidr_len;
              mask_length_max = cidr_len;
            }
            ∷ []))
          w

    -- addPodCidrDefinedSet; the number in the text of the error is left out.
    unfoldable pub add_pod_cidr_defined_set : Call
    unfolding with_current unless_present add_pod_prefix in_range
    add_pod_cidr_defined_set =
        with_current prefix_type "podcidrdefinedset"
          (unless_present (add_pod_prefix (in_range (atoi_nonneg nrc.pod_cidr.mask_text))))

    -- addServiceVIPsDefinedSet
    unfoldable pub add_service_vips_defined_set : Call
    unfolding with_current set_vips with_length advertised_of
    add_service_vips_defined_set =
        with_current prefix_type "servicevipsdefinedset"
          (set_vips (with_length (advertised_of (get_all_vips nrc))))

    -- addCustomImportRejectDefinedSet
    unfoldable pub add_custom_import_reject_defined_set : Call
    unfolding with_current unless_present reject_prefixes
    add_custom_import_reject_defined_set = with_current prefix_type "customimportrejectdefinedset" (
        unless_present (
          server.add_defined_set (
            prefix_set "customimportrejectdefinedset"
              (reject_prefixes nrc.node_custom_import_reject_ip_nets))))
