-- ===== src/Graffiti/Json.antt =====
-- The values that encoding/json decodes into an `interface{}`, and the metadata of an object.
use kube_graffiti.Common.{String, Bool, [], ◌∷◌}
use kube_graffiti.Dict.{Dict, GoMap}

-- A number is kept as its text, as `json.Number` does.
mutual
  pub data Json : Type 0 where
    null : Json
    bool : Bool → Json
    num : String → Json
    str : String → Json
    arr : Items → Json
    obj : Fields → Json

  pub data Items : Type 0 where
    nil : Items
    cons : Json → Items → Items

  pub data Fields : Type 0 where
    end : Fields
    field : String → Json → Fields → Fields

abbrev pub to_dict : Fields → Dict Json
to_dict end = []
to_dict (field k v fs) = (k, v) ∷ to_dict fs

abbrev pub of_dict : Dict Json → Fields
of_dict [] = end
of_dict ((k, v) ∷ d) = field k v (of_dict d)

-- The fields of metav1.ObjectMeta that the program reads.
pub record ObjectMeta : Type 0 where
  pub name : String
  pub namespace : String
  pub labels : GoMap String
  pub annotations : GoMap String

-- `metaObject` is used only for pulling out object metadata.
pub record MetaObject : Type 0 where
  pub meta : ObjectMeta
