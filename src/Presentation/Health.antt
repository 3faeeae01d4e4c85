-- ===== src/Presentation/Health.antt =====
-- backend/src/app/presentation/api/health.py. What the database and Redis answer is an argument.
use ndma_edit.Prelude.{
  ℕ, Text, List, [], ◌∷◌, ◌++◌, Bool, true, ◌&&◌, Option, none, some, codes, text_eq, ◌≡◌, ◌↔◌, ◌≢◌,
  refl, arith, if◌then◌else◌,
}

-- `{"status": "ok"}`
unfoldable pub liveness : List (Text × Text)
liveness = (codes "status", codes "ok") ∷ []

-- The entry of `checks` for a call that returned, or raised with a text.
unfoldable pub check : Option Text → Text
check none = codes "ok"
check (some exc) = codes "error: " ++ exc

-- `all(value == "ok" for value in checks.values())`
unfoldable pub all_ok : List (Text × Text) → Bool
all_ok [] = true
all_ok ((name, value) ∷ checks) = text_eq value (codes "ok") && all_ok checks

pub record HealthResponse : Type 0 where
  pub status_code : ℕ
  pub status : Text
  pub checks : List (Text × Text)

-- `readiness`
unfoldable pub readiness : Option Text → Option Text → HealthResponse
unfolding check all_ok
readiness database redis =
    let checks = (codes "database", check database) ∷ (codes "redis", check redis) ∷ [] in
    let healthy = all_ok checks in
    record {
      status_code = if healthy then 200 else 503;
      status = if healthy then codes "ok" else codes "unhealthy";
      checks = checks;
    }

raised : {t : Text} → some t ≢ none
raised h = cc

-- The process is ready exactly if both calls return.
pub readiness_iff :
    (database redis : Option Text)
    → ((readiness database redis).status_code ≡ 200) ↔ ((database ≡ none) × (redis ≡ none))
unfolding readiness text_eq codes
readiness_iff none none = (λ h. (refl, refl), λ h. refl)
readiness_iff none (some r) = (λ h. absurd (omega arith), λ h. absurd (raised h.1))
readiness_iff (some d) none = (λ h. absurd (omega arith), λ h. absurd (raised h.0))
readiness_iff (some d) (some r) = (λ h. absurd (omega arith), λ h. absurd (raised h.0))
