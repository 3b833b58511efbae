-- ===== src/Healthcheck/Reports.antt =====
-- What a health check tells.
use kube_graffiti.Common.{
  ℕ, String, ◌≡◌, ◌↔◌, ◌⊎◌, inl, inr, refl, ap, Option, none, some, [], Result, ok, err, abort,
  IsOk, true, false, ◌==◌, arith, ok_injective, subst,
}
use kube_graffiti.Dict.{Dict}
use kube_graffiti.Http.{Writer, new_writer, set_header, write_header, write_string}
use kube_graffiti.Healthcheck.{HealthChecker, report, serve_http}

-- The status and the body agree with whether the list came back, and no header goes out with them.
pub record Tells (listed : Result (Unit {0})) (w : Writer) : Type 0 where
  pub answered : (w.sent ≡ some (200, [])) ⊎ (w.sent ≡ some (500, []))
  pub healthy : (w.sent ≡ some (200, [])) ↔ IsOk listed
  pub said : (w.body ≡ "{\"healthy\": true}") ↔ IsOk listed

status_of : Option (ℕ × Dict String) → ℕ
status_of none = 0
status_of (some s) = s.0

report-Tells : (r : Result (Unit {0})) {w : Writer} → report r new_writer ≡ ok w → Tells r w
unfolding status_of report set_header write_header write_string
report-Tells (ok u) e =
    subst (Tells (ok u)) (ok_injective e)
      (record { answered = inl refl; healthy = (λ h. tt, λ h. refl); said = (λ h. tt, λ h. refl) })
report-Tells (err m) e = subst (Tells (err m)) (ok_injective e) (record {
  answered = inr refl;
  healthy = (λ h. let e : ◌≡◌ {A = ℕ} 500 200 = ap status_of h in omega arith, λ h. absurd h);
  said = (
    λ h. let e : false ≡ true = ap (λ t. t == "{\"healthy\": true}") h in absurd (cc),
    λ h. absurd h,
  );
})
report-Tells (abort m) e = cc

module _ {W : Type 0} (h : HealthChecker W) (world : W) where
  -- Whatever a health check answers has status 200 and says that it is healthy exactly when the API
  -- server listed its namespaces, and else has status 500; no header of the handler's goes out with it,
  -- so not the content type either, which is set when the status has been sent.
  pub serve_http-Tells :
      {w : Writer} → serve_http h world new_writer ≡ ok w → Tells (h.client.namespaces.list world) w
  unfolding serve_http
  serve_http-Tells e = report-Tells (h.client.namespaces.list world) e
