-- ===== src/Tests/Commands.antt =====
-- The theorems on backend/migrations/env.py at concrete inputs.
use ndma_edit.Prelude.{
  Text, List, [], ◌∷◌, true, false, Option, none, some, codes, ◌≡◌, refl, inl, inr, Bool-cases,
  if◌then◌else◌, sym, ap,
}
use ndma_edit.Outcome.{Outcome, ok, err, Error, value_error}
use ndma_edit.Infrastructure.Settings.{Settings, default_settings}
use ndma_edit.Infrastructure.Persistence.Migrations.Environment.{
  Alembic, Configuration, offline_configuration, migrate, env, has_raw_percent, env-url,
  env-raw_percent,
}

-- The URL that is set, and the contexts that were configured.
abbrev Session : Type 0
Session = Option Text × List Configuration

abbrev refused : Error
refused = value_error (codes "invalid interpolation syntax")

-- An alembic in offline mode.
abbrev offline : Alembic Session
offline = record {
  config_file_name = none;
  is_offline_mode = true;
  file_config = λ name s. (ok tt, s);
  set_main_option = λ name value s.
      if has_raw_percent value then (err refused, s) else (ok tt, (some value, s.1));
  get_main_option = λ name s. s.0;
  configure = λ c s. (ok tt, (s.0, c ∷ s.1));
  begin_transaction = λ s. (ok tt, s);
  run_migrations = λ s. (ok tt, s);
  end_transaction = λ r s. (r, s);
  engine_from_config = λ url s. (ok tt, s);
  connect = λ s. (ok tt, s);
  close = λ r s. (r, s);
  dispose = λ s. (ok tt, s);
}

abbrev escaped_password : Settings
escaped_password = record default_settings {
  database = record default_settings.database { url = codes "postgresql://a:p%40ss@db/app" };
}

percent_is_refused : (e : Error) × (env offline escaped_password (none, []) ≡ (err e, (none, [])))
unfolding has_raw_percent codes
percent_is_refused =
    env-raw_percent offline (λ name value s raw. (refused, rw raw refl)) escaped_password (none, [])
      (none, []) refl refl

doubled_is_taken : has_raw_percent (codes "postgresql://a:p%%40ss@db/app") ≡ false
unfolding has_raw_percent codes
doubled_is_taken = refl

its_url_is_kept :
    (name value : Text) (s s1 : Session)
    → offline.set_main_option name value s ≡ (ok tt, s1)
    → offline.get_main_option name s1 ≡ some value
its_url_is_kept name value s s1 h = elim (Bool-cases (has_raw_percent value)) [
  | inl raw ↦ let clash : (err refused, s) ≡ (ok tt, s1) = rw raw at h in absurd (cc)
  | inr fine ↦
      let same : (ok tt, (some value, s.1)) ≡ (ok tt, s1) = rw fine at h in
      ap (λ (p : Outcome (Unit {0}) × Session). p.1.0) (sym same)
]

abbrev prepared_session : Session
prepared_session = (some default_settings.database.url, [])

the_url_of_the_settings :
    env offline default_settings (none, [])
    ≡ (ok tt, (prepared_session.0, offline_configuration prepared_session.0 ∷ []))
unfolding has_raw_percent codes migrate
the_url_of_the_settings =
    env-url offline its_url_is_kept default_settings (none, []) (none, []) prepared_session refl
      refl
