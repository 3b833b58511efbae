-- ===== src/Existing/Objects/Outcomes.antt =====
-- What comes of applying a rule to one object.
use kube_graffiti.Common.{
  String, ◌≡◌, refl, sym, ap, Bool, true, false, Option, none, some, Result, ok, err, abort,
}
use kube_graffiti.Dict.{GoMap}
use kube_graffiti.Graffiti.Json.{Json}
use kube_graffiti.Graffiti.Libs.{Libs}
use kube_graffiti.Graffiti.Rule.{mutate}
use kube_graffiti.Config.{Rule, graffiti_rule}
use kube_graffiti.Existing.Namespaces.{NamespaceCache}
use kube_graffiti.Existing.Objects.{
  GroupVersionResource, DynamicClient, resource_of, selects, send, mutate_and_send, if_selected,
  apply_to_object,
}

module _ {W : Type 0} (D : DynamicClient W) (L : Libs) (nsc : NamespaceCache) (rule : Rule)
    (object : GoMap Json) where
  -- Either nothing happened, or a patch was sent that Mutate made of the object.
  pub data Outcome (grv : GroupVersionResource) (w : W) (b : Bool) (w' : W) : Type 0 where
    left : b ≡ false → w' ≡ w → Outcome grv w b w'
    sent :
        (raw p : String)
        → selects D L nsc rule object ≡ ok true
        → L.marshal_object object ≡ ok raw
        → mutate L (graffiti_rule rule) raw ≡ ok (some p)
        → D.patch grv (D.get_namespace object) (D.get_name object) p w ≡ (b, w')
        → Outcome grv w b w'

  module _ (grv : GroupVersionResource) (w : W) {b : Bool} {w' : W} where
    answered :
        {c : Bool} {u : W} → ◌≡◌ {A = Result Bool × W} (ok c, u) (ok b, w') → (c ≡ b) × (u ≡ w')
    answered {c} {u} e =
        (let h = ap (λ (x : Result Bool × W). x.0) e in cc, ap (λ (x : Result Bool × W). x.1) e)

    stays : ◌≡◌ {A = Result Bool × W} (ok false, w) (ok b, w') → Outcome grv w b w'
    stays e = let (same, state) = answered e in left (sym same) (sym state)

    send-Outcome :
        (raw : String) (m : Result (Option String))
        → selects D L nsc rule object ≡ ok true
        → L.marshal_object object ≡ ok raw
        → mutate L (graffiti_rule rule) raw ≡ m
        → send D L nsc grv object m w ≡ (ok b, w')
        → Outcome grv w b w'
    unfolding send
    send-Outcome raw (ok (some p)) chosen marshals mutates e =
        let (same, state) = answered e in
        sent raw p chosen marshals mutates (λ i. (same i, state i))
    send-Outcome raw (ok none) chosen marshals mutates e = stays e
    send-Outcome raw (err m) chosen marshals mutates e = stays e
    send-Outcome raw (abort m) chosen marshals mutates e =
        let h = ap (λ (x : Result Bool × W). x.0) e in cc

    mutate_and_send-Outcome :
        (r : Result String)
        → selects D L nsc rule object ≡ ok true
        → L.marshal_object object ≡ r
        → mutate_and_send D L nsc rule grv object r w ≡ (ok b, w')
        → Outcome grv w b w'
    unfolding mutate_and_send
    mutate_and_send-Outcome (ok raw) chosen marshals e =
        send-Outcome raw (mutate L (graffiti_rule rule) raw) chosen marshals refl e
    mutate_and_send-Outcome (err m) chosen marshals e = stays e
    mutate_and_send-Outcome (abort m) chosen marshals e =
        let h = ap (λ (x : Result Bool × W). x.0) e in cc

    if_selected-Outcome :
        (r : Result Bool)
        → selects D L nsc rule object ≡ r
        → if_selected D L nsc rule grv object r w ≡ (ok b, w')
        → Outcome grv w b w'
    unfolding if_selected
    if_selected-Outcome (ok true) chosen e =
        mutate_and_send-Outcome (L.marshal_object object) chosen refl e
    if_selected-Outcome (ok false) chosen e = stays e
    if_selected-Outcome (err m) chosen e = let h = ap (λ (x : Result Bool × W). x.0) e in cc
    if_selected-Outcome (abort m) chosen e = let h = ap (λ (x : Result Bool × W). x.0) e in cc

  -- When applying a rule to an object returns, either it returns false and the cluster is as before,
  -- or the object passed the namespace selector, Mutate made a patch of its text, that patch went to the
  -- object's own namespace and name, and the function returned whether it was taken.
  pub apply_to_object-Outcome :
      (gv resource : String) (w : W) {b : Bool} {w' : W}
      → apply_to_object D L nsc rule gv resource object w ≡ (ok b, w')
      → Outcome (resource_of gv resource) w b w'
  unfolding apply_to_object
  apply_to_object-Outcome gv resource w e =
      if_selected-Outcome (resource_of gv resource) w (selects D L nsc rule object) refl e
