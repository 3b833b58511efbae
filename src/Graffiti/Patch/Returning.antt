-- ===== src/Graffiti/Patch/Returning.antt =====
-- An operand is always returned, or an error.
use kube_graffiti.Common.{
  String, List, [], ◌∷◌, Returns, with_value, >>=-Returns, map_err-Returns, map_err-eq-ok, if-both,
}
use kube_graffiti.Dict.{Dict, GoMap, insert, entries}
use kube_graffiti.Graffiti.Libs.{Libs, DoesNotPanic}
use kube_graffiti.Graffiti.Patch.{
  render_string_template, render_into, render_map_values, add_rendered, modify,
  create_patch_operand,
}

module _ (L : Libs) (safe : DoesNotPanic L) (fm : Dict String) where
  render_string_template-Returns : (s : String) → Returns (render_string_template L s fm)
  unfolding render_string_template
  render_string_template-Returns s = >>=-Returns (map_err-Returns _ (safe.parses s)) (λ t parsed.
      map_err-Returns _ (safe.executes s (map_err-eq-ok _ (L.parse_template s) parsed) fm))

  render_into-Returns : (result adds : Dict String) → Returns (render_into L result adds fm)
  unfolding render_into
  render_into-Returns result [] = with_value
  render_into-Returns result ((k, v) ∷ adds) =
      >>=-Returns (render_string_template-Returns v)
        (λ x e. render_into-Returns (insert k x result) adds)

  add_rendered-Returns : (src add : GoMap String) → Returns (add_rendered L src add fm)
  unfolding add_rendered render_map_values
  add_rendered-Returns src add =
      if-both Returns _ (>>=-Returns (render_into-Returns [] (entries add)) (λ m e. with_value))
        with_value

  pub create_patch_operand-Returns :
      (src add : GoMap String) (del : List String) (path : String)
      → Returns (create_patch_operand L src add fm del path)
  unfolding create_patch_operand modify
  create_patch_operand-Returns src add del path =
      >>=-Returns (>>=-Returns (add_rendered-Returns src add) (λ m e. with_value))
        (λ m e. with_value)
