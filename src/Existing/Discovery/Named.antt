-- ===== src/Existing/Discovery/Named.antt =====
-- What the discovered groups are filed under, and what the wildcard for groups reaches.
use kube_graffiti.Common.{
  ap, Bool, false, Option, ◌==◌, map_err-eq-ok, if◌then◌else◌, String, ◌≡◌, refl, sym, subst, ◌∙◌,
  true, none, some, List, [], ◌∷◌, map, ok, map_err, >>=-eq-ok, All, eq_iff, str-cases, inl, inr,
  ok_injective,
}
use kube_graffiti.Dict.{Dict, lookup, insert, IsDistinct}
use kube_graffiti.Dict.Laws.{insert-IsDistinct, lookup-insert, or_else}
use kube_graffiti.Webhook.Registration.{Target}
use kube_graffiti.Existing.Groups.{
  ApiGroup, Discovered, is_wildcard, target_groups, preferred_version,
}
use kube_graffiti.Existing.Discovery.{
  ApiDiscoverer, ResourceList, add_resources, add_groups, discover_apis_and_resources,
  nothing_discovered,
}

-- Every group stands under its own name, and no name stands twice.
abbrev pub IsFiled : Dict ApiGroup → Type 0
IsFiled d = IsDistinct d × All (λ e. e.0 ≡ e.1.name) d

insert-All :
    (g : ApiGroup) (d : Dict ApiGroup)
    → All (λ e. e.0 ≡ e.1.name) d
    → All (λ e. e.0 ≡ e.1.name) (insert g.name g d)
unfolding insert
insert-All g [] h = (refl, tt)
insert-All g ((k, v) ∷ d) (named, h) = elim (str-cases k g.name) [
  | inl same ↦ rw ((eq_iff k g.name).1 same) (same, h)
  | inr other ↦ rw other (named, insert-All g d h)
]

add_groups-IsFiled :
    (d : Dict ApiGroup) (groups : List ApiGroup) → IsFiled d → IsFiled (add_groups d groups)
unfolding add_groups
add_groups-IsFiled d [] h = h
add_groups-IsFiled d (g ∷ groups) (distinct, named) =
    add_groups-IsFiled (insert g.name g d) groups
      (insert-IsDistinct g.name g d distinct, insert-All g d named)

-- A list of groups, each looked up by its name, gives the groups themselves.
abbrev Finds : Dict ApiGroup → Dict ApiGroup → Type 0
Finds d part = All (λ e. lookup e.1.name d ≡ some e.1) part

Finds-skip :
    (k : String) (v : ApiGroup) (d part : Dict ApiGroup)
    → lookup k part ≡ none
    → IsFiled part
    → Finds d part
    → Finds ((k, v) ∷ d) part
unfolding lookup
Finds-skip k v d [] fresh filed h = tt
Finds-skip k v d ((j, g) ∷ part) fresh ((new, distinct), (named, names)) (found, h) =
    elim (str-cases j k) [
      | inl same ↦ let hit = rw ((eq_iff j k).1 same) at fresh in cc
      | inr other ↦ (
        elim (str-cases k g.name) [
          | inl same ↦ let hit = (eq_iff j k).1 (named ∙ sym same) in cc
          | inr apart ↦ rw apart found
        ],
        Finds-skip k v d part (rw other at fresh) (distinct, names) h,
      )
    ]

IsFiled-Finds : (d : Dict ApiGroup) → IsFiled d → Finds d d
unfolding lookup
IsFiled-Finds [] h = tt
IsFiled-Finds ((k, v) ∷ d) ((fresh, distinct), (named, names)) = (
  rw ((eq_iff k v.name).1 named) refl,
  Finds-skip k v d d fresh (distinct, names) (IsFiled-Finds d (distinct, names)),
)

preferred-found :
    (x : Discovered) (part : Dict ApiGroup)
    → Finds x.api_groups part
    → map (preferred_version x) (map (λ e. e.1.name) part) ≡ map (λ e. e.1.preferred_version) part
unfolding preferred_version
preferred-found x [] h = refl
preferred-found x ((k, g) ∷ part) (found, h) =
    let rest = preferred-found x part h in rw (found, preferred_version) (cc)

-- The last of a list with a name.
abbrev pub last_named {ℓ κ} :
    {X : Type ℓ} {V : Type κ} → (X → String) → (X → V) → String → List X → Option V
last_named key value j [] = none
last_named key value j (x ∷ xs) =
    or_else (last_named key value j xs) (if key x == j then some (value x) else none)

or_else-test {ℓ} :
    {V : Type ℓ} (o : Option V) (b : Bool) (v : V) (before : Option V)
    → or_else o (if b then some v else before)
      ≡ or_else (or_else o (if b then some v else none)) before
or_else-test none true v before = refl
or_else-test none false v before = refl
or_else-test (some u) b v before = refl

lookup-add_groups :
    (d : Dict ApiGroup) (groups : List ApiGroup) (j : String)
    → lookup j (add_groups d groups)
      ≡ or_else (last_named (λ g. g.name) (λ g. g) j groups) (lookup j d)
unfolding add_groups
lookup-add_groups d [] j = refl
lookup-add_groups d (g ∷ groups) j =
    lookup-add_groups (insert g.name g d) groups j
    ∙ ap (or_else (last_named (λ g. g.name) (λ g. g) j groups)) (lookup-insert g.name g d j)
    ∙ or_else-test _ (g.name == j) g (lookup j d)

lookup-add_resources :
    (d : Dict (List String)) (lists : List ResourceList) (j : String)
    → lookup j (add_resources d lists)
      ≡ or_else (last_named (λ r. r.group_version) (λ r. r.api_resources) j lists) (lookup j d)
unfolding add_resources
lookup-add_resources d [] j = refl
lookup-add_resources d (r ∷ lists) j =
    lookup-add_resources (insert r.group_version r.api_resources d) lists j
    ∙ ap (or_else (last_named (λ r. r.group_version) (λ r. r.api_resources) j lists))
        (lookup-insert r.group_version r.api_resources d j)
    ∙ or_else-test _ (r.group_version == j) r.api_resources (lookup j d)

or_else-none {ℓ} : {V : Type ℓ} (o : Option V) → or_else o none ≡ o
or_else-none none = refl
or_else-none (some v) = refl

-- What a discovery has to file of the groups and the lists of resources of a server.
pub record Files (groups : List ApiGroup) (lists : List ResourceList) (target : Target)
    (d : Discovered) : Type 0 where
  pub filed : IsFiled d.api_groups
  pub groups_of :
      (name : String) → lookup name d.api_groups ≡ last_named (λ g. g.name) (λ g. g) name groups
  pub resources_of :
      (gv : String)
      → lookup gv d.resources ≡ last_named (λ r. r.group_version) (λ r. r.api_resources) gv lists
  pub wildcard :
      is_wildcard target.api_groups ≡ true
      → map (preferred_version d) (target_groups d target)
        ≡ map (λ e. e.1.preferred_version) d.api_groups

-- A discovery that succeeds has listed the groups of the server, and each is filed under its own name,
-- once: under every name stands the last listed group of that name, and nothing under a name that no
-- group has; under every group and version stand the resources of the last list of it, and nothing
-- under one that no list has, also when the listing came with an error. A target with the wildcard for
-- groups goes through the preferred versions of exactly the filed groups.
pub discover_apis_and_resources-Files :
    (client : ApiDiscoverer) (target : Target) {d : Discovered}
    → discover_apis_and_resources client nothing_discovered ≡ ok d
    → (groups : List ApiGroup) × (client.server_groups ≡ ok groups)
      × Files groups client.server_resources.0 target d
unfolding discover_apis_and_resources target_groups lookup
discover_apis_and_resources-Files client target {d} e =
    let (groups, listed, made) = >>=-eq-ok (map_err _ client.server_groups) _ e in
    let same = ok_injective made in
    let filed =
      subst (λ (x : Discovered). IsFiled x.api_groups) same
        (add_groups-IsFiled [] groups (tt, tt)) in
    (
      groups,
      map_err-eq-ok _ _ listed,
      record {
        filed = filed;
        groups_of = λ name.
            ap (λ (x : Discovered). lookup name x.api_groups) (sym same)
            ∙ lookup-add_groups [] groups name
            ∙ or_else-none _;
        resources_of = λ gv.
            ap (λ (x : Discovered). lookup gv x.resources) (sym same)
            ∙ lookup-add_resources [] client.server_resources.0 gv
            ∙ or_else-none _;
        wildcard =
            λ wild. rw wild (preferred-found d d.api_groups (IsFiled-Finds d.api_groups filed));
      },
    )
