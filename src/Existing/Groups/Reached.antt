-- ===== src/Existing/Groups/Reached.antt =====
-- The calls of the API server that the check of existing objects makes.
use kube_graffiti.Common.{
  ℕ, zero, suc, String, ◌≡◌, refl, Bool, true, false, Option, none, some, List, [], ◌∷◌, Some, here,
  there, Result, ok, err, abort,
}
use kube_graffiti.Dict.{GoMap}
use kube_graffiti.Graffiti.Json.{Json}
use kube_graffiti.Graffiti.Libs.{Libs}
use kube_graffiti.Graffiti.Rule.{mutate}
use kube_graffiti.Config.{Rule, graffiti_rule}
use kube_graffiti.Existing.Namespaces.{NamespaceCache}
use kube_graffiti.Existing.Objects.{
  GroupVersionResource, ItemList, DynamicClient, resource_of, selects, send, mutate_and_send,
  if_selected, apply_to_object,
}
use kube_graffiti.Existing.Paging.{
  continue_of, and_then, next_page, with_list, apply_to_items, apply_to_pages,
  apply_to_all_resources_of_type,
}
use kube_graffiti.Existing.Groups.{Outcome, go_on, for_each, when}

module _ {W : Type 0} (D : DynamicClient W) (L : Libs) (nsc : NamespaceCache)
    (Q : Rule → GroupVersionResource → Type 0) where
  -- Calls in turn: pages of resources that a rule may reach, and patches of objects there, which the
  -- rule selects and Mutate made.
  pub data Calls : W → W → Type 0 where
    no_call : {w : W} → Calls w w
    lists :
        {w w' : W} {rule : Rule} {grv : GroupVersionResource} (cont : Option String)
        → Q rule grv
        → Calls (D.list grv cont w).1 w'
        → Calls w w'
    patches :
        {w w' : W} {rule : Rule} {grv : GroupVersionResource} (object : GoMap Json) (raw p : String)
        → Q rule grv
        → selects D L nsc rule object ≡ ok true
        → L.marshal_object object ≡ ok raw
        → mutate L (graffiti_rule rule) raw ≡ ok (some p)
        → Calls (D.patch grv (D.get_namespace object) (D.get_name object) p w).1 w'
        → Calls w w'

  Calls-trans : {a b c : W} → Calls a b → Calls b c → Calls a c
  Calls-trans no_call k = k
  Calls-trans (lists cont q h) k = lists cont q (Calls-trans h k)
  Calls-trans (patches object raw p q s m t h) k = patches object raw p q s m t (Calls-trans h k)

  -- Where an outcome is reached by calls.
  abbrev pub Ends : W → Outcome W → Type 0
  Ends w none = Unit
  Ends w (some (r, w')) = Calls w w'

  Ends-after : {w u : W} (o : Outcome W) → Calls w u → Ends u o → Ends w o
  Ends-after none h k = tt
  Ends-after (some (r, w')) h k = Calls-trans h k

  module _ (rule : Rule) (object : GoMap Json) (grv : GroupVersionResource) (q : Q rule grv)
      (w : W) where
    send-Calls :
        (raw : String) (m : Result (Option String))
        → selects D L nsc rule object ≡ ok true
        → L.marshal_object object ≡ ok raw
        → mutate L (graffiti_rule rule) raw ≡ m
        → Calls w (send D L nsc grv object m w).1
    unfolding send
    send-Calls raw (ok (some p)) s m t = patches object raw p q s m t no_call
    send-Calls raw (ok none) s m t = no_call
    send-Calls raw (err e) s m t = no_call
    send-Calls raw (abort e) s m t = no_call

    mutate_and_send-Calls :
        (r : Result String)
        → selects D L nsc rule object ≡ ok true
        → L.marshal_object object ≡ r
        → Calls w (mutate_and_send D L nsc rule grv object r w).1
    unfolding mutate_and_send
    mutate_and_send-Calls (ok raw) s m = send-Calls raw _ s m refl
    mutate_and_send-Calls (err e) s m = no_call
    mutate_and_send-Calls (abort e) s m = no_call

    if_selected-Calls :
        (r : Result Bool)
        → selects D L nsc rule object ≡ r
        → Calls w (if_selected D L nsc rule grv object r w).1
    unfolding if_selected
    if_selected-Calls (ok true) s = mutate_and_send-Calls (L.marshal_object object) s refl
    if_selected-Calls (ok false) s = no_call
    if_selected-Calls (err e) s = no_call
    if_selected-Calls (abort e) s = no_call

  and_then-Calls {ℓ} :
      {A : Type ℓ} {w : W} (step : Result A × W) (rest : W → Result (Unit {0}) × W)
      → Calls w step.1
      → ((u : W) → Calls u (rest u).1)
      → Calls w (and_then step rest).1
  unfolding and_then
  and_then-Calls (ok a, u) rest h k = Calls-trans h (k u)
  and_then-Calls (err e, u) rest h k = h
  and_then-Calls (abort e, u) rest h k = h

  next_page-Ends :
      {w : W} (r : Result (Unit {0}) × W) (c : Result (Option String))
      (rest : String → W → Outcome W)
      → Calls w r.1
      → ((t : String) (u : W) → Ends u (rest t u))
      → Ends w (next_page r c rest)
  unfolding next_page
  next_page-Ends (ok a, u) (ok none) rest h k = h
  next_page-Ends (ok a, u) (ok (some t)) rest h k = Ends-after (rest t u) h (k t u)
  next_page-Ends (ok a, u) (err e) rest h k = h
  next_page-Ends (ok a, u) (abort e) rest h k = h
  next_page-Ends (err e, u) c rest h k = h
  next_page-Ends (abort e, u) c rest h k = h

  with_list-Ends :
      {w : W} (l : Result (Option ItemList) × W) (rest : ItemList → W → Outcome W)
      → Calls w l.1
      → ((list : ItemList) (u : W) → Ends u (rest list u))
      → Ends w (with_list l rest)
  unfolding with_list
  with_list-Ends (ok (some list), u) rest h k = Ends-after (rest list u) h (k list u)
  with_list-Ends (ok none, u) rest h k = h
  with_list-Ends (err e, u) rest h k = h
  with_list-Ends (abort e, u) rest h k = h

  module _ (rule : Rule) (gv resource : String) (q : Q rule (resource_of gv resource)) where
    apply_to_items-Calls :
        (items : List (GoMap Json)) (w : W)
        → Calls w (apply_to_items D L nsc rule gv resource items w).1
    unfolding apply_to_items apply_to_object
    apply_to_items-Calls [] w = no_call
    apply_to_items-Calls (item ∷ items) w =
        and_then-Calls (apply_to_object D L nsc rule gv resource item w) _
          (if_selected-Calls rule item (resource_of gv resource) q w (selects D L nsc rule item)
            refl)
          (apply_to_items-Calls items)

    apply_to_pages-Ends :
        (fuel : ℕ) (cont : Option String) (w : W)
        → Ends w (apply_to_pages D L nsc rule gv resource fuel cont w)
    unfolding apply_to_pages
    apply_to_pages-Ends zero cont w = tt
    apply_to_pages-Ends (suc n) cont w =
        with_list-Ends (D.list (resource_of gv resource) cont w) _ (lists cont q no_call) (λ list u.
          next_page-Ends (apply_to_items D L nsc rule gv resource list.items u)
            (continue_of list.object) _ (apply_to_items-Calls list.items u)
            (λ t v. apply_to_pages-Ends n (some t) v))

    pub apply_to_all_resources_of_type-Ends :
        (fuel : ℕ) (w : W) → Ends w (apply_to_all_resources_of_type D L nsc rule gv resource fuel w)
    unfolding apply_to_all_resources_of_type
    apply_to_all_resources_of_type-Ends fuel w = apply_to_pages-Ends fuel none w

  go_on-Ends :
      (w : W) (o : Outcome W) (rest : W → Outcome W)
      → Ends w o
      → ((u : W) → Ends u (rest u))
      → Ends w (go_on o rest)
  unfolding go_on
  go_on-Ends w none rest h k = tt
  go_on-Ends w (some (ok a, u)) rest h k = Ends-after (rest u) h (k u)
  go_on-Ends w (some (err e, u)) rest h k = h
  go_on-Ends w (some (abort e, u)) rest h k = h

  -- A loop all of whose steps only make such calls.
  pub for_each-Ends {ℓ} :
      {A : Type ℓ} (f : A → W → Outcome W) (xs : List A)
      → ((x : A) → Some (λ y. y ≡ x) xs → (w : W) → Ends w (f x w))
      → (w : W) → Ends w (for_each f xs w)
  unfolding for_each
  for_each-Ends f [] h w = no_call
  for_each-Ends f (x ∷ xs) h w =
      go_on-Ends w (f x w) _ (h x (here refl) w) (for_each-Ends f xs (λ y m. h y (there m)))

  pub when-Ends :
      (b : Bool) (f : W → Outcome W)
      → (b ≡ true → (w : W) → Ends w (f w))
      → (w : W) → Ends w (when b f w)
  when-Ends true f h w = h refl w
  when-Ends false f h w = no_call
