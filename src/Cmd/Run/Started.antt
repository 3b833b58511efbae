-- ===== src/Cmd/Run/Started.antt =====
-- What a run prepares, and that an invalid configuration ends it there.
use kube_graffiti.Common.{
  Halt, ℕ, String, ◌≡◌, ◌⊎◌, inl, inr, refl, sym, ap, subst, Bool, true, false, none, some, Result,
  ok, err, abort, ◌>>=◌, >>=-eq-ok, if◌then◌else◌, IsOk, IsOk-of_eq, Bool-cases, ok_injective,
}
use kube_graffiti.Graffiti.Libs.{Libs}
use kube_graffiti.Webhook.Registration.{Unicode, HookClient}
use kube_graffiti.Config.{Configuration, validate_config}
use kube_graffiti.Config.Validity.{IsValid, validate_config_iff}
use kube_graffiti.Existing.Groups.{
  Outcome, result_of, state_of, go_on, apply_rules_against_existing_objects,
}
use kube_graffiti.Existing.Discovery.{Kube, init_kube_clients}
use kube_graffiti.Cmd.Settings.{or_end, fatal, load_config}
use kube_graffiti.Cmd.Run.{
  Surroundings, Prepared, get_kube_clients, with_clients, is_disabled, prepare, apply_rules_on,
  init_existing_check, ends_process, run_prepared, run_root_cmd,
}

pub or_end-eq-ok {ℓ} :
    {A : Type ℓ} (halt : String → Halt) (r : Result A) {a : A} → or_end halt r ≡ ok a → r ≡ ok a
or_end-eq-ok halt (ok a) e = e
or_end-eq-ok halt (err m) e = cc
or_end-eq-ok halt (abort m) e = cc

or_end-ends :
    {A B : Type 0} (halt : String → Halt) (r : Result A) (rest : A → Result B)
    → ¬ IsOk r
    → (m : Halt) × ((or_end halt r >>= rest) ≡ abort m)
or_end-ends halt (ok a) rest n = absurd (n tt)
or_end-ends halt (err e) rest n = (_, refl)
or_end-ends halt (abort e) rest n = (_, refl)

module _ {V H R W : Type 0} (E : Surroundings V H R W) (L : Libs) where
  -- The configuration that the program reads, with viper as it has read it.
  abbrev pub loaded : V → Result (Configuration × V)
  loaded v = load_config E.viper E.mapstructure (E.viper.get_string "config" v) v

  -- What is prepared was loaded and is valid.
  pub prepare-IsValid :
      (v : V) {p : Prepared V R W}
      → prepare E L v ≡ ok p
      → (loaded v ≡ ok (p.config, p.viper)) × IsValid L p.config
  unfolding prepare with_clients
  prepare-IsValid v {p} e =
      let (l, loads, rest) = >>=-eq-ok (or_end (fatal "failed to load config") (loaded v)) _ e in
      let (u, checks, rest2) =
        >>=-eq-ok (or_end (fatal "failed to validate config") (validate_config L l.0)) _ rest in
      let (clients, got, final) = >>=-eq-ok (get_kube_clients E) _ rest2 in
      let good = or_end-eq-ok _ (validate_config L l.0) checks in
      subst (λ (x : Prepared V R W). (loaded v ≡ ok (x.config, x.viper)) × IsValid L x.config)
        (ok_injective final)
        (or_end-eq-ok _ (loaded v) loads, (validate_config_iff L l.0).0 (IsOk-of_eq _ good))

pub go_on-ok :
    {W : Type 0} (o : Outcome W) (rest : W → Outcome W) {w' : W}
    → go_on o rest ≡ some (ok tt, w')
    → (w : W) × (o ≡ some (ok tt, w)) × (rest w ≡ some (ok tt, w'))
unfolding go_on
go_on-ok none rest e = cc
go_on-ok (some (ok u, w)) rest e = (w, refl, e)
go_on-ok (some (err m, w)) rest e = let h = ap result_of e in cc
go_on-ok (some (abort m, w)) rest e = let h = ap result_of e in cc

pub ends_process-ok :
    {W : Type 0} (o : Outcome W) {w : W} → ends_process o ≡ some (ok tt, w) → o ≡ some (ok tt, w)
unfolding ends_process
ends_process-ok none e = cc
ends_process-ok (some (ok u, w)) e = e
ends_process-ok (some (err m, w)) e = let h = ap result_of e in cc
ends_process-ok (some (abort m, w)) e = let h = ap result_of e in cc

-- The rules are applied only by clients that were made.
apply_rules_on-ok :
    {W : Type 0} (L : Libs) (fuel : ℕ) (r : Result (Kube W)) (c : Configuration) (w : W) {w' : W}
    → apply_rules_on L fuel r c w ≡ some (ok tt, w')
    → (kube : Kube W) × (r ≡ ok kube)
      × (apply_rules_against_existing_objects kube.dynamic L kube.namespace_cache kube.discovered
            fuel kube.reflector c.rules w
          ≡ some (ok tt, w'))
unfolding apply_rules_on
apply_rules_on-ok L fuel (ok kube) c w h = (kube, refl, h)
apply_rules_on-ok L fuel (err m) c w h = let k = ap result_of h in cc
apply_rules_on-ok L fuel (abort m) c w h = let k = ap result_of h in cc

module _ {S V H R W : Type 0} (K : HookClient S W) (U : Unicode) (L : Libs) (fuel : ℕ)
    (E : Surroundings V H R W) where
  -- An invalid configuration ends the process before anything in the cluster changes.
  pub run_root_cmd-invalid :
      {c : Configuration} {read : V} (v : V) (w : W)
      → loaded E L v ≡ ok (c, read)
      → ¬ IsValid L c
      → (m : Halt) × (run_root_cmd K U L fuel E v w ≡ some (abort m, w))
  unfolding run_root_cmd run_prepared prepare
  run_root_cmd-invalid {c} {read} v w loads invalid =
      let (m, ends) =
        or_end-ends (fatal "failed to validate config") (validate_config L c)
          (λ u. with_clients E c read) (λ good. invalid ((validate_config_iff L c).0 good)) in
      (m, rw (loads, ends) refl)

  -- What the check of existing objects did, which runs only if the settings ask for it.
  abbrev pub Checked : Prepared V R W → W → W → Type 0
  Checked p w w' =
      ((is_disabled E p.viper ≡ true) × (w' ≡ w))
      ⊎ ((is_disabled E p.viper ≡ false)
          × ((kube : Kube W) × (init_kube_clients (E.clients p.rest_config) ≡ ok kube)
              × (apply_rules_against_existing_objects kube.dynamic L kube.namespace_cache
                    kube.discovered fuel kube.reflector p.config.rules w
                  ≡ some (ok tt, w'))))

  pub init_existing_check-Checked :
      (p : Prepared V R W) (w : W) {w' : W}
      → init_existing_check K U L fuel E p w ≡ some (ok tt, w')
      → Checked p w w'
  unfolding init_existing_check
  init_existing_check-Checked p w {w'} e = elim (Bool-cases (is_disabled E p.viper)) [
    | inl off ↦ inl (off, sym (ap (state_of w) (subst Tests off e)))
    | inr on ↦ inr (
      on,
      apply_rules_on-ok L fuel (init_kube_clients (E.clients p.rest_config)) p.config w
          (subst Tests on e),
    )
  ]
    where
      Tests : Bool → Type 0
      Tests b =
          (if b
            then some (ok tt, w)
            else apply_rules_on L fuel (init_kube_clients (E.clients p.rest_config)) p.config w)
          ≡ some (ok tt, w')
