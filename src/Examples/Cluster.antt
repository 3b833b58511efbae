-- ===== src/Examples/Cluster.antt =====
-- The check of existing objects on a cluster of two pages, each with one pod.
use kube_graffiti.Common.{
  String, ◌≡◌, ◌≢◌, ◌↔◌, ◌⊎◌, refl, ap, subst, Bool, true, Option, none, some, List, [], ◌∷◌,
  Result, ok, err, inr, ◌==◌, if◌then◌else◌, arith,
}
use kube_graffiti.Dict.{Dict, GoMap, lookup, insert, entries, IsDistinct}
use kube_graffiti.Graffiti.Json.{Json, obj, str, field, end, to_dict}
use kube_graffiti.Webhook.Registration.{Target}
use kube_graffiti.Config.{Rule}
use kube_graffiti.Existing.Namespaces.{
  NamespaceCache, Reflector, start_namespace_reflector, GetByKey, NamespaceInterface, get_namespace,
  new_namespace_lister_watcher_getter, new_namespace_cache, lookup_namespace, as_map, as_string,
  or_empty, objects_namespace_matches_provided_selector,
}
use kube_graffiti.Existing.Namespaces.Labels.{HasDistinctLabels}
use kube_graffiti.Existing.Namespaces.Selecting.{HasLabels, objects_namespace_matches_iff}
use kube_graffiti.Existing.Namespaces.Cached.{lookup_namespace-get}
use kube_graffiti.Existing.Objects.{
  ItemList, DynamicClient, resource_of, apply_to_object, if_selected, selects, mutate_and_send,
  send,
}
use kube_graffiti.Existing.Objects.Outcomes.{Outcome, apply_to_object-Outcome}
use kube_graffiti.Existing.Targets.RoundTrip.{
  NamesGroup, group_version_text, split_group_version_string_round,
}
use kube_graffiti.Existing.Targets.{
  split_group_version_string, is_targetted, resource_targets, split_slashed_resource_string,
  split_slash,
}
use kube_graffiti.Existing.Paging.{
  and_then, next_page, with_list, apply_to_pages, apply_to_items, apply_to_all_resources_of_type,
}
use kube_graffiti.Existing.Groups.Confined.{
  MakesCalls, apply_rules_against_existing_objects-MakesCalls,
}
use kube_graffiti.Existing.Paging.Complete.{
  Pages, last_page, more_pages, apply_to_all_resources_of_type-run,
}
use kube_graffiti.Existing.Groups.{
  Discovered, GroupVersion, ApiGroup, preferred_version, target_groups, resources_of, for_each,
  apply_to_all_resources_in_a_group_version, go_on, apply_to_targettted_api_groups_and_versions,
  apply_rule_against_existing_objects, apply_rules_against_existing_objects, close_after,
}
use kube_graffiti.Existing.Groups.Targeted.{
  Chosen, Reaches, apply_to_all_resources_in_a_group_version-Chosen,
}
use kube_graffiti.Existing.Discovery.{
  ApiDiscoverer, add_groups, add_resources, discover_apis_and_resources, nothing_discovered,
  Clients,
}
use kube_graffiti.Existing.Discovery.Named.{Files, discover_apis_and_resources-Files}
use kube_graffiti.Examples.Fixtures.{toy, pod_fields, pod_patch, team_matchers, paint}
use kube_graffiti.Examples.Rules.{paint_mutates}
use kube_graffiti.Examples.Web.{World, registration}

abbrev metadata_with : Json → GoMap Json
metadata_with metadata = some (("metadata", metadata) ∷ [])

abbrev page : Option String → ItemList
page none = record {
  items = pod_fields ∷ [];
  object = metadata_with (obj (field "continue" (str "next") end));
}
page (some t) = record { items = pod_fields ∷ []; object = metadata_with (obj end) }

-- The cluster records the patches that it is sent.
abbrev pub cluster : DynamicClient (List String)
cluster = record {
  list = λ grv cont w. (ok (some (page cont)), w);
  patch = λ grv namespace name patch w. (true, patch ∷ w);
  get_name = λ object. "web";
  get_namespace = λ object. "shop";
}

abbrev pub cache : NamespaceCache
cache = record { store = some (λ name. ok none); getter = λ name. ok (some (("team", "a") ∷ [])) }

abbrev pub everywhere : Rule
everywhere = record {
  registration = record registration { namespace_selector = "" };
  matchers = team_matchers;
  payload = paint;
}

applied :
    ◌≡◌ {A = Result Bool × List String}
      (apply_to_object cluster toy cache everywhere "v1" "pods" pod_fields [])
      (ok true, pod_patch ∷ [])
unfolding apply_to_object if_selected selects mutate_and_send send
applied = rw paint_mutates refl

apply_to_object-Outcome_example :
    Outcome cluster toy cache everywhere pod_fields
      (resource_of "v1" "pods")
      []
      true
      (pod_patch ∷ [])
apply_to_object-Outcome_example =
    apply_to_object-Outcome cluster toy cache everywhere pod_fields "v1" "pods" [] applied

cluster-Pages : Pages page none (pod_fields ∷ pod_fields ∷ []) 2
unfolding lookup
cluster-Pages = more_pages {t = "next"} refl (last_page refl)

apply_to_all_resources_of_type-run_example :
    apply_to_all_resources_of_type cluster toy cache everywhere "v1" "pods" 5 []
    ≡ some
        (apply_to_items cluster toy cache everywhere "v1" "pods" (pod_fields ∷ pod_fields ∷ []) [])
apply_to_all_resources_of_type-run_example =
    apply_to_all_resources_of_type-run cluster toy cache everywhere "v1" "pods" page
      (λ cont w. refl) cluster-Pages 5 (omega arith) []

abbrev pods : Target
pods = record { api_groups = "" ∷ []; api_versions = "v1" ∷ []; resources = "pods/status" ∷ [] }

abbrev core : GroupVersion
core = record { group_version = "v1"; version = "v1" }

abbrev discovered : Discovered
discovered = record {
  api_groups = ("", record { name = ""; preferred_version = core }) ∷ [];
  resources = ("v1", "pods" ∷ "nodes" ∷ []) ∷ [];
}

apply_to_all_resources_in_a_group_version-Chosen_example :
    (names : List String) × Chosen
      (Reaches ("pods/status" ∷ []))
      (resources_of discovered "v1")
      names
    × ((w : List String)
        → apply_to_all_resources_in_a_group_version cluster toy cache discovered 5 everywhere pods
            core w
          ≡ for_each
              (λ name. apply_to_all_resources_of_type cluster toy cache everywhere "v1" name 5)
              names
              w)
apply_to_all_resources_in_a_group_version-Chosen_example =
    apply_to_all_resources_in_a_group_version-Chosen cluster toy cache discovered 5 everywhere pods
      core

abbrev pod_rule : Rule
pod_rule = record everywhere {
  registration = record everywhere.registration { targets = pods ∷ [] };
}

-- The reflector leaves its traces among the patches.
abbrev reflector : Reflector (List String)
reflector = record { run = λ w. "run" ∷ w; stop = λ w. "stop" ∷ w }

-- Each of the two pages has one pod, which is painted.
checked :
    apply_rules_against_existing_objects cluster toy cache discovered 5 reflector (pod_rule ∷ []) []
    ≡ some (ok tt, "stop" ∷ pod_patch ∷ pod_patch ∷ "run" ∷ [])
unfolding apply_rules_against_existing_objects start_namespace_reflector close_after
    apply_rule_against_existing_objects apply_to_targettted_api_groups_and_versions
    apply_to_all_resources_in_a_group_version apply_to_all_resources_of_type apply_to_pages
    apply_to_items apply_to_object if_selected selects mutate_and_send send for_each go_on and_then
    next_page with_list preferred_version resources_of target_groups is_targetted resource_targets
    split_slashed_resource_string split_slash lookup
checked = rw paint_mutates refl

apply_rules_against_existing_objects-MakesCalls_example :
    MakesCalls cluster toy cache discovered 5
      (pod_rule ∷ [])
      reflector
      []
      (ok tt)
      ("stop" ∷ pod_patch ∷ pod_patch ∷ "run" ∷ [])
apply_rules_against_existing_objects-MakesCalls_example =
    apply_rules_against_existing_objects-MakesCalls cluster toy cache discovered 5 (pod_rule ∷ [])
      reflector [] checked

abbrev core_group : ApiGroup
core_group = record { name = ""; preferred_version = core }

abbrev discoverer : ApiDiscoverer
discoverer = record {
  server_groups = ok (core_group ∷ []);
  server_resources = (record { group_version = "v1"; api_resources = "pods" ∷ [] } ∷ [], none);
}

abbrev found : Discovered
found = record { api_groups = ("", core_group) ∷ []; resources = ("v1", "pods" ∷ []) ∷ [] }

discovers : discover_apis_and_resources discoverer nothing_discovered ≡ ok found
unfolding discover_apis_and_resources add_groups add_resources insert
discovers = refl

discover_apis_and_resources-Files_example :
    (groups : List ApiGroup) × (ok (core_group ∷ []) ≡ ok groups)
    × Files groups
        (record { group_version = "v1"; api_resources = "pods" ∷ [] } ∷ [])
        (record { api_groups = "*" ∷ []; api_versions = "*" ∷ []; resources = "*" ∷ [] })
        found
discover_apis_and_resources-Files_example =
    discover_apis_and_resources-Files discoverer
      (record { api_groups = "*" ∷ []; api_versions = "*" ∷ []; resources = "*" ∷ [] }) discovers

abbrev core_client : NamespaceInterface
core_client = record { get = λ name. ok (some (("team", "a") ∷ [])) }

abbrev indexer : GetByKey
indexer name = if name == "shop" then ok (some (some (("team", "a") ∷ []))) else ok none

abbrev new_cache : NamespaceCache
new_cache = record { store = some indexer; getter = core_client.get }

makes_cache : new_namespace_cache indexer (ok core_client) ≡ ok new_cache
unfolding new_namespace_cache new_namespace_lister_watcher_getter get_namespace
makes_cache = refl

lookup_namespace-get_example : lookup_namespace new_cache "shop" ≡ ok (some (("team", "a") ∷ []))
lookup_namespace-get_example =
    lookup_namespace-get indexer core_client "shop" makes_cache (inr (_, refl, refl))

abbrev pub clients : Clients World
clients = record {
  discovery = ok discoverer;
  dynamic = err "no dynamic client";
  core = ok core_client;
  get_by_key = λ name. ok none;
  reflector = record { run = λ w. w; stop = λ w. w };
}

abbrev pod_metadata : Dict Json
pod_metadata =
    ("labels", obj (field "team" (str "a") end))
    ∷ ("name", str "web")
    ∷ ("namespace", str "shop")
    ∷ []

pod_labels_distinct :
    (meta : Dict Json)
    → as_map (lookup "metadata" (entries pod_fields)) ≡ some meta
    → HasDistinctLabels meta
unfolding lookup
pod_labels_distinct meta at fields there =
    let own : pod_metadata ≡ meta = cc in
    let found : lookup "labels" pod_metadata ≡ lookup "labels" meta = ap (lookup "labels") own in
    let same : field "team" (str "a") end ≡ fields = cc in
    subst (λ x. IsDistinct (to_dict x)) same (refl, tt)

objects_namespace_matches_iff_example :
    (objects_namespace_matches_provided_selector toy cache pod_fields "team" ≡ ok true) ↔ (
      (meta : Dict Json) × (kind : String) × (as_map (lookup "metadata" (entries pod_fields))
        ≡ some meta)
      × (as_string (lookup "kind" (entries pod_fields)) ≡ some kind)
      × ((kind ≡ "Namespace") ⊎ (or_empty (as_string (lookup "namespace" meta)) ≢ ""))
      × HasLabels toy cache "team" meta (or_empty (as_string (lookup "namespace" meta))) kind)
objects_namespace_matches_iff_example =
    objects_namespace_matches_iff toy cache "team" pod_fields pod_labels_distinct

split_group_version_string_round_example :
    (split_group_version_string (group_version_text "apps" "v1") ≡ ("apps", "v1"))
    × ((s : String)
        → NamesGroup s
        → group_version_text (split_group_version_string s).0 (split_group_version_string s).1 ≡ s)
split_group_version_string_round_example =
    split_group_version_string_round "apps" "v1" (refl, (refl, (refl, (refl, tt)))) (λ e. cc)
