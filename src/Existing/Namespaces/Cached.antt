-- ===== src/Existing/Namespaces/Cached.antt =====
-- What the namespace cache gives is what the API server has.
use kube_graffiti.Common.{String, ◌≡◌, ◌⊎◌, inl, inr, refl, none, some, ok, ok_injective, subst}
use kube_graffiti.Dict.{GoMap}
use kube_graffiti.Existing.Namespaces.{
  NamespaceCache, GetByKey, NamespaceInterface, get_namespace, new_namespace_lister_watcher_getter,
  new_namespace_cache, lookup_namespace,
}

-- An indexer that has of a namespace nothing or what the API server has.
abbrev pub IsCoherent : GetByKey → NamespaceInterface → String → Type 0
IsCoherent get_by_key core name =
    (get_by_key name ≡ ok none)
    ⊎ ((labels : GoMap String) × (get_by_key name ≡ ok (some labels)) × (core.get name ≡ ok labels))

lookup_over :
    (get_by_key : GetByKey) (core : NamespaceInterface) (name : String)
    → IsCoherent get_by_key core name
    → lookup_namespace (record { store = some get_by_key; getter = core.get }) name ≡ core.get name
unfolding lookup_namespace
lookup_over get_by_key core name (inl missing) = rw missing refl
lookup_over get_by_key core name (inr (labels, stored, there)) = rw (stored, there) refl

-- A cache that has been made looks a namespace up as the API server does, whatever the indexer has
-- taken up so far, as long as what it has of the namespace is not out of date.
pub lookup_namespace-get :
    (get_by_key : GetByKey) (core : NamespaceInterface) (name : String) {c : NamespaceCache}
    → new_namespace_cache get_by_key (ok core) ≡ ok c
    → IsCoherent get_by_key core name
    → lookup_namespace c name ≡ core.get name
unfolding new_namespace_cache new_namespace_lister_watcher_getter get_namespace
lookup_namespace-get get_by_key core name made coherent =
    subst (λ x. lookup_namespace x name ≡ core.get name) (ok_injective made)
      (lookup_over get_by_key core name coherent)
