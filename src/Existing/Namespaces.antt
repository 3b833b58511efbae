-- ===== src/Existing/Namespaces.antt =====
-- pkg/existing/namespace_cache.go and namespace_selector.go: the labels of an object's namespace.
pub mod Labels
pub mod Selecting
pub mod Cached
use kube_graffiti.Common.{
  String, Bool, true, false, not, ◌&&◌, ◌==◌, Option, none, some, List, [], ◌∷◌, Result, ok, err,
  abort, if◌then◌else◌, ◌>>=◌, ◌>>◌, map_err, ◌<>◌,
}
use kube_graffiti.Dict.{Dict, GoMap, lookup, insert, entries}
use kube_graffiti.Graffiti.Json.{Json, null, bool, num, str, arr, obj, Fields, end, field, to_dict}
use kube_graffiti.Graffiti.Libs.{Libs}
use kube_graffiti.Graffiti.Selectors.{validate_label_selector, match_label_selector}

-- `store` is the indexer's GetByKey, none before it is there; `getter` asks the API server. Of a
-- namespace only the labels are read.
pub record NamespaceCache : Type 0 where
  pub store : Option (String → Result (Option (GoMap String)))
  pub getter : String → Result (GoMap String)

-- The reflector that fills the indexer, in a goroutine: what its start does to the world, and what the
-- closing of the channel does that it stops on.
pub record Reflector (W : Type 0) : Type 0 where
  pub run : W → W
  pub stop : W → W

unfoldable pub start_namespace_reflector : {W : Type 0} → Reflector W → W → W
start_namespace_reflector reflector w = reflector.run w

-- GetByKey of an indexer, and client-go's client for namespaces.
abbrev pub GetByKey : Type 0
GetByKey = String → Result (Option (GoMap String))

pub record NamespaceInterface : Type 0 where
  pub get : String → Result (GoMap String)

pub record NamespaceListerWatcherGetter : Type 0 where
  pub ns : NamespaceInterface

unfoldable pub get_namespace : NamespaceListerWatcherGetter → String → Result (GoMap String)
get_namespace lwg name = lwg.ns.get name

-- `core` is what clientcorev1.NewForConfig gives.
unfoldable pub new_namespace_lister_watcher_getter :
    Result NamespaceInterface → Result NamespaceListerWatcherGetter
new_namespace_lister_watcher_getter core = do core_client ← core; ok (record { ns = core_client })

-- `get_by_key` is that of the indexer which client-go makes.
unfoldable pub new_namespace_cache : GetByKey → Result NamespaceInterface → Result NamespaceCache
new_namespace_cache get_by_key core = do
  lwg ←
      map_err (λ e. "could not create namespace listerwatcher: " <> e)
        (new_namespace_lister_watcher_getter core)
  ok (record { store = some get_by_key; getter = get_namespace lwg })

unfoldable pub lookup_namespace : NamespaceCache → String → Result (GoMap String)
lookup_namespace c name = elim c.store [
  | none ↦ err "the store is nil - not initialized"
  | some get_by_key ↦ do
    ns ← map_err (λ e. "error looking up namespace from store: " <> e) (get_by_key name)
    elim ns [ none ↦ c.getter name | some labels ↦ ok labels ]
]

-- A value that is decoded from JSON is an interface that holds no other interface.
unfoldable pub get_string_value : Json → Option String
get_string_value (str s) = some s
get_string_value other = none

-- The loop of convertToMapStringString, which skips what is no string.
unfoldable pub collect : Dict String → Dict Json → Dict String
collect labels [] = labels
collect labels ((k, v) ∷ m) = elim (get_string_value v) [
  | some s ↦ collect (insert k s labels) m
  | none ↦ collect labels m
]

unfoldable pub convert_to_map_string_string : Json → Dict String
convert_to_map_string_string (obj fields) = collect [] (to_dict fields)
convert_to_map_string_string other = []

unfoldable pub lookup_labels : Dict Json → Dict String
lookup_labels meta = elim (lookup "labels" meta) [
  | some value ↦ convert_to_map_string_string value
  | none ↦ []
]

-- `v.(map[string]interface{})` and `v.(string)`, with the test, on a value that may be missing.
abbrev pub as_map : Option Json → Option (Dict Json)
as_map (some (obj fields)) = some (to_dict fields)
as_map _ = none

abbrev pub as_string : Option Json → Option String
as_string (some (str s)) = some s
as_string _ = none

abbrev pub or_empty : Option String → String
or_empty none = ""
or_empty (some s) = s

module _ (L : Libs) (nsc : NamespaceCache) where
  -- The labels to match, with those of the object itself for a namespace.
  unfoldable pub selected_labels : Dict Json → String → String → Result (Dict String)
  selected_labels meta name kind =
      if kind == "Namespace"
      then ok (lookup_labels meta)
      else (lookup_namespace nsc name >>= λ labels. ok (entries labels))

  unfoldable pub match_namespace : Dict Json → String → String → String → Result Bool
  match_namespace meta name kind selector =
      if name == "" && not (kind == "Namespace") then ok false else do
        labels ← selected_labels meta name kind
        map_err (λ e. "invalid label selector") (validate_label_selector L selector)
        match_label_selector L selector labels

  unfoldable pub objects_namespace_matches_provided_selector : GoMap Json → String → Result Bool
  objects_namespace_matches_provided_selector object selector =
      elim (as_map (lookup "metadata" (entries object))) [
        | none ↦ err "the object is missing metadata"
        | some meta ↦ elim (as_string (lookup "kind" (entries object))) [
          | none ↦ err "this object seems to have no kind"
          | some kind ↦
              match_namespace meta (or_empty (as_string (lookup "namespace" meta))) kind selector
        ]
      ]
