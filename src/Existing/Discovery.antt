-- ===== src/Existing/Discovery.antt =====
-- pkg/existing/existing.go: what InitKubeClients learns of the API server.
pub mod Named
use kube_graffiti.Common.{String, Option, List, [], ◌∷◌, Result, ok, err, ◌>>=◌, map_err, ◌<>◌}
use kube_graffiti.Dict.{Dict, insert}
use kube_graffiti.Existing.Namespaces.{
  NamespaceCache, Reflector, GetByKey, NamespaceInterface, new_namespace_cache,
}
use kube_graffiti.Existing.Objects.{DynamicClient}
use kube_graffiti.Existing.Groups.{ApiGroup, Discovered}

pub record ResourceList : Type 0 where
  pub group_version : String
  pub api_resources : List String

-- The interface apiDiscoverer. ServerResources returns a list also with an error, which is only logged.
pub record ApiDiscoverer : Type 0 where
  pub server_groups : Result (List ApiGroup)
  pub server_resources : List ResourceList × Option String

-- The two loops that fill the maps.
unfoldable pub add_groups : Dict ApiGroup → List ApiGroup → Dict ApiGroup
add_groups discovered [] = discovered
add_groups discovered (group ∷ groups) = add_groups (insert group.name group discovered) groups

unfoldable pub add_resources : Dict (List String) → List ResourceList → Dict (List String)
add_resources discovered [] = discovered
add_resources discovered (gv ∷ lists) =
    add_resources (insert gv.group_version gv.api_resources discovered) lists

unfoldable pub discover_apis_and_resources : ApiDiscoverer → Discovered → Result Discovered
discover_apis_and_resources client d = do
  groups ←
      map_err (λ e. "failed to discover kubernetes api groups/versions: " <> e) client.server_groups
  ok (record {
    api_groups = add_groups d.api_groups groups;
    resources = add_resources d.resources client.server_resources.0;
  })

-- What the constructors of the clients give, with the indexer and
-- the reflector that are made for namespaces, and what the package keeps of them.
pub record Clients (W : Type 0) : Type 0 where
  pub discovery : Result ApiDiscoverer
  pub dynamic : Result (DynamicClient W)
  pub core : Result NamespaceInterface
  pub get_by_key : GetByKey
  pub reflector : Reflector W

pub record Kube (W : Type 0) : Type 0 where
  pub dynamic : DynamicClient W
  pub namespace_cache : NamespaceCache
  pub reflector : Reflector W
  pub discovered : Discovered

abbrev pub nothing_discovered : Discovered
nothing_discovered = record { api_groups = []; resources = [] }

module _ {W : Type 0} where
  unfoldable pub init_kube_clients : Clients W → Result (Kube W)
  init_kube_clients clients = do
    discovery ← map_err (λ e. "can't get a kubernetes discovery client: " <> e) clients.discovery
    dynamic ← map_err (λ e. "can't get a kubernetes dynamic client: " <> e) clients.dynamic
    cache ←
        map_err (λ e. "could not create the namespace cache: " <> e)
          (new_namespace_cache clients.get_by_key clients.core)
    discovered ← discover_apis_and_resources discovery nothing_discovered
    ok (record {
      dynamic = dynamic;
      namespace_cache = cache;
      reflector = clients.reflector;
      discovered = discovered;
    })
