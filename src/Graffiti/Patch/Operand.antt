-- ===== src/Graffiti/Patch/Operand.antt =====
-- What createPatchOperand returns: which operand, for which map, and when it fails.
use kube_graffiti.Common.{
  String, ◌≡◌, ◌≢◌, refl, subst, false, none, some, List, [], ◌∷◌, Result, ok, err, abort, ◌>>=◌,
  >>=-eq-ok, inl, inr, Bool-cases, ◌↔◌, IsOk, IsOk-value, IsOk-of_eq, All,
}
use kube_graffiti.Dict.{Dict, GoMap, lookup, entries, IsDistinct, deep_equal, insert}
use kube_graffiti.Dict.Equality.{SameValues, deep_equal_iff}
use kube_graffiti.Graffiti.Libs.{Libs}
use kube_graffiti.Graffiti.Patch.{
  render_string_template, render_into, render_map_values, modify, create_patch_operand, patch_text,
  delete_path, render_string_map_as_patch, add_rendered,
}
use kube_graffiti.Graffiti.Patch.Maps.{Desired, contains, modify-Desired}

-- The operand `op` takes the source map to the map `m`.
pub data Describes (path : String) (src m : Dict String) (op : String) : Type 0 where
  unchanged : SameValues src m → op ≡ "" → Describes path src m op
  removed : src ≢ [] → m ≡ [] → op ≡ delete_path path → Describes path src m op
  added : src ≡ [] → m ≢ [] → op ≡ render_string_map_as_patch "add" path m → Describes path src m op
  replaced :
      src ≢ []
      → m ≢ []
      → ¬ SameValues src m
      → op ≡ render_string_map_as_patch "replace" path m
      → Describes path src m op

module _ (path : String) where
  patch_text-nil : (m : Dict String) → Describes path [] m (patch_text none m path)
  unfolding patch_text deep_equal render_string_map_as_patch
  patch_text-nil [] = unchanged (λ k. refl) refl
  patch_text-nil (x ∷ m) = added refl (λ e. cc) refl

  patch_text-some :
      (src m : Dict String)
      → IsDistinct src
      → IsDistinct m
      → Describes path src m (patch_text (some src) m path)
  unfolding patch_text
  patch_text-some src m ds dm =
      let test = deep_equal_iff src m ds dm in
      elim (Bool-cases (deep_equal (some src) (some m))) [
        | inl same ↦ unchanged (test.0 same) (rw same refl)
        | inr differs ↦ changed src m (λ same. cc (test.1 same)) differs
      ]
    where
      changed :
          (src m : Dict String)
          → ¬ SameValues src m
          → deep_equal (some src) (some m) ≡ false
          → Describes path src m (patch_text (some src) m path)
      changed [] [] n d = absurd (n (λ k. refl))
      changed [] (y ∷ m) n d = added refl (λ e. cc) (rw d refl)
      changed (x ∷ src) [] n d = removed (λ e. cc) refl (rw d refl)
      changed (x ∷ src) (y ∷ m) n d = replaced (λ e. cc) (λ e. cc) n (rw d refl)

  patch_text-Describes :
      (src : GoMap String) (m : Dict String)
      → IsDistinct (entries src)
      → IsDistinct m
      → Describes path (entries src) m (patch_text src m path)
  patch_text-Describes none m ds dm = patch_text-nil m
  patch_text-Describes (some src) m ds dm = patch_text-some src m ds dm

module _ (L : Libs) (src add : GoMap String) (fm : Dict String) (del : List String)
    (path op : String) where
  -- An operand that createPatchOperand returns takes the source map to one map `m` with distinct
  -- keys, which holds at every key what the additions and deletions ask for: the operand is empty
  -- when `m` holds the same values as the source, deletes the path when `m` is empty, and else adds
  -- or replaces it by `m`, according to whether the source was empty.
  pub create_patch_operand-Describes :
      IsDistinct (entries src)
      → IsDistinct (entries add)
      → create_patch_operand L src add fm del path ≡ ok op
      → (m : Dict String) × IsDistinct m
        × ((k : String)
            → Desired L fm
                (contains k del)
                (lookup k (entries add))
                (lookup k (entries src))
                (lookup k m))
        × Describes path (entries src) m op
  unfolding create_patch_operand
  create_patch_operand-Describes ds da e =
      let (m, modified, same) = >>=-eq-ok (modify L src add fm del) _ e in
      let (distinct, wanted) = modify-Desired L src fm ds add del da modified in
      (
        m,
        distinct,
        wanted,
        subst (Describes path (entries src) m) (cc) (patch_text-Describes path src m ds distinct),
      )

module _ (L : Libs) (fm : Dict String) where
  -- Every value of a map renders without an error.
  abbrev pub AllRender : Dict String → Type 0
  AllRender adds = All (λ e. IsOk (render_string_template L e.1 fm)) adds

  render_into-IsOk : (result src : Dict String) → AllRender src → IsOk (render_into L result src fm)
  unfolding render_into
  render_into-IsOk result [] h = tt
  render_into-IsOk result ((k, v) ∷ src) (p, h) =
      let (s, e) = IsOk-value (render_string_template L v fm) p in
      rw e (render_into-IsOk (insert k s result) src h)

  AllRender-of_IsOk :
      (result src : Dict String) → IsOk (render_into L result src fm) → AllRender src
  unfolding render_into
  AllRender-of_IsOk result [] h = tt
  AllRender-of_IsOk result ((k, v) ∷ src) h =
      let (r, e) = IsOk-value (render_into L result ((k, v) ∷ src) fm) h in
      let (s, parsed, later) = >>=-eq-ok (render_string_template L v fm) _ e in
      (IsOk-of_eq _ parsed, AllRender-of_IsOk (insert k s result) src (IsOk-of_eq _ later))

IsOk-bind-ok_iff {ℓ κ} :
    {A : Type ℓ} {B : Type κ} (m : Result A) (f : A → B) → IsOk (m >>= λ a. ok (f a)) ↔ IsOk m
IsOk-bind-ok_iff (ok a) f = (λ h. h, λ h. h)
IsOk-bind-ok_iff (err e) f = (λ h. h, λ h. h)
IsOk-bind-ok_iff (abort e) f = (λ h. h, λ h. h)

module _ (L : Libs) (src : GoMap String) (fm : Dict String) where
  add_rendered-IsOk_iff :
      (add : GoMap String) → IsOk (add_rendered L src add fm) ↔ AllRender L fm (entries add)
  unfolding add_rendered render_map_values
  add_rendered-IsOk_iff none = (λ h. tt, λ h. tt)
  add_rendered-IsOk_iff (some []) = (λ h. tt, λ h. tt)
  add_rendered-IsOk_iff (some (x ∷ adds)) =
      let (to, from) = IsOk-bind-ok_iff (render_into L [] (x ∷ adds) fm) _ in
      (
        λ h. AllRender-of_IsOk L fm [] (x ∷ adds) (to h),
        λ h. from (render_into-IsOk L fm [] (x ∷ adds) h),
      )

  -- createPatchOperand returns an operand exactly when every value of the additions parses and
  -- renders as a template; the deletions never make it fail.
  pub create_patch_operand-IsOk_iff :
      (add : GoMap String) (del : List String) (path : String)
      → IsOk (create_patch_operand L src add fm del path) ↔ AllRender L fm (entries add)
  unfolding create_patch_operand modify
  create_patch_operand-IsOk_iff add del path =
      let (to, from) = add_rendered-IsOk_iff add in
      let (drop_text, put_text) = IsOk-bind-ok_iff (modify L src add fm del) _ in
      let (drop_del, put_del) = IsOk-bind-ok_iff (add_rendered L src add fm) _ in
      (λ h. to (drop_del (drop_text h)), λ h. put_text (put_del (from h)))
