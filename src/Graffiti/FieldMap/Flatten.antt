-- ===== src/Graffiti/FieldMap/Flatten.antt =====
-- The field map of an object against its leaves.
use kube_graffiti.Common.{String, [], ◌≡◌, some, ok, ◌==◌, Bool-cases, inl, inr}
use kube_graffiti.Dict.{Dict, GoMap, lookup, entries}
use kube_graffiti.Graffiti.Json.{Json}
use kube_graffiti.Graffiti.Libs.{Libs}
use kube_graffiti.Graffiti.FieldMap.{add_all, make_field_map_from_raw_object}
use kube_graffiti.Graffiti.FieldMap.Leaves.{IsLeaf}
use kube_graffiti.Graffiti.FieldMap.Sound.{add_all_sound}
use kube_graffiti.Graffiti.FieldMap.Complete.{add_all_complete}

module _ (L : Libs) (raw : String) {object : GoMap Json} {fm : Dict String}
    (decoded : L.decode_object raw ≡ ok object)
    (made : make_field_map_from_raw_object L raw ≡ ok fm) where
  made_from : add_all [] (entries object) ≡ fm
  unfolding make_field_map_from_raw_object
  made_from = elim (Bool-cases (raw == "")) [
    | inl empty ↦ cc (rw empty at made)
    | inr given ↦ cc (rw (given, decoded) at made)
  ]

  -- The map that is made from a decoded object is the object flattened: the text at a key is a leaf
  -- of the object, at a path that the key spells, and every leaf's key has a text, again that of a
  -- leaf at a path of that key.
  pub make_field_map-IsLeaf :
      (j : String)
      → ((s : String) → lookup j fm ≡ some s → IsLeaf (entries object) j s)
        × ((s : String)
            → IsLeaf (entries object) j s
            → (t : String) × (lookup j fm ≡ some t) × IsLeaf (entries object) j t)
  make_field_map-IsLeaf j =
      let sound = λ (s : String) (e : lookup j fm ≡ some s).
        add_all_sound (entries object) j s (rw made_from e) in
      (
        sound,
        λ s leaf.
            let (t, found) = rw made_from at (add_all_complete (entries object) [] j s leaf) in
            (t, found, sound t found),
      )
