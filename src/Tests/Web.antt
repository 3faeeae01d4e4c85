-- ===== src/Tests/Web.antt =====
-- The theorems on the web process and on the columns of the database at concrete inputs.
use ndma_edit.Prelude.{
  ℕ, pos, Text, List, [], ◌∷◌, true, none, some, codes, ◌≡◌, ◌≢◌, refl, arith, if◌then◌else◌,
  text_eq, keep, change, strip,
}
use ndma_edit.Prelude.Dict.{dict_get}
use ndma_edit.Outcome.{Outcome, ok, err, value_error, user_not_found}
use ndma_edit.Domain.Email.{new_email}
use ndma_edit.Domain.Email.Pattern.{email_pattern}
use ndma_edit.Domain.DisplayName.{new_display_name}
use ndma_edit.Infrastructure.Settings.{default_settings, production}
use ndma_edit.Infrastructure.Observability.{is_sensitive, redact_sensitive}
use ndma_edit.Infrastructure.Observability.Redaction.{marked, dict_get-redact_sensitive}
use ndma_edit.Infrastructure.Persistence.Models.{Tables}
use ndma_edit.Infrastructure.Persistence.Mapper.{to_model}
use ndma_edit.Infrastructure.Persistence.Repository.{save}
use ndma_edit.Infrastructure.Persistence.UnitOfWork.{enter, commit, transaction}
use ndma_edit.Infrastructure.Persistence.Migrations.{users_columns}
use ndma_edit.Infrastructure.Persistence.Migrations.Fits.{all_fit, user_data, to_model-fits}
use ndma_edit.Application.Messages.{list_users, validate}
use ndma_edit.Application.Dto.{UserDto, from_domain}
use ndma_edit.Application.Users.Handlers.{save_and_commit}
use ndma_edit.Application.Users.Stale.{conflict_of, no_update_is_lost}
use ndma_edit.Presentation.Requests.{
  pagination_params, page_of, query_of, no_errors, pagination_params-eq-validate,
}
use ndma_edit.Presentation.Middleware.{Request, Context, Endpoint}
use ndma_edit.Presentation.App.{Body, Foreign}
use ndma_edit.Presentation.App.Answers.{
  its_context, answer, IsTraced, answers_are-IsTraced, unexpected_is_not_traced,
}
use ndma_edit.Tests.Surroundings.{ascii, memory, commit_open}
use ndma_edit.Tests.Samples.{ada, ada_email, ada_name, ada_dto, draws, one_user}
use ndma_edit.Tests.Edges.{starlette, texts}

abbrev line : List (Text × Text)
line = (codes "event", codes "login") ∷ (codes "Password", codes "hunter2") ∷ []

dict_get-redact_sensitive_example :
    dict_get (codes "Password") (redact_sensitive ascii (codes "***REDACTED***") line) ≡ (
      if is_sensitive ascii (codes "Password")
      then marked (codes "***REDACTED***") (dict_get (codes "Password") line)
      else dict_get (codes "Password") line)
dict_get-redact_sensitive_example =
    dict_get-redact_sensitive ascii (codes "***REDACTED***") (codes "Password") line

pagination_params-eq-validate_example :
    let p = page_of none (some (pos 500)) in
    pagination_params none (some (pos 500))
    ≡ (if no_errors (validate (list_users (query_of p))) then some p else none)
pagination_params-eq-validate_example = pagination_params-eq-validate none (some (pos 500))

email_ok : new_email ascii ada_email ≡ ok ada.email
unfolding new_email codes strip email_pattern
email_ok = refl

name_ok : new_display_name ada_name ≡ ok ada.display_name
unfolding new_display_name codes strip
name_ok = refl

to_model-fits_example : all_fit users_columns (user_data (to_model ada)) ≡ true
to_model-fits_example =
    to_model-fits ascii ada (record { email_ok = email_ok; name_ok = name_ok }) (omega arith)

-- Foreign middleware that lets everything through.
abbrev open_doors : Foreign (Body ℕ)
open_doors = record { cors_middleware = λ origins k. k; trusted_host_middleware = λ hosts k. k }

abbrev asking : Request
asking = record {
  method = codes "GET";
  path = codes "/api/v1/users/7";
  correlation_header = some (codes "abc");
}

abbrev quiet : Context
quiet = record { correlation_id = none; contextvars = []; access_log = [] }

abbrev missing : Endpoint (Body ℕ)
missing q c = (err (user_not_found 7), c)

abbrev broken : Endpoint (Body ℕ)
broken q c = (err (value_error (codes "boom")), c)

is_not_500 : ◌≢◌ {A = ℕ} 404 500
is_not_500 h = absurd (omega arith)

answers_are-IsTraced_example :
    IsTraced starlette ascii texts production open_doors 7
      (codes "1.5")
      default_settings
      missing
      asking
      quiet
      (λ k c. refl)
      404
      (its_context starlette ascii texts production open_doors 7
        (codes "1.5")
        default_settings
        missing
        asking
        quiet
        (λ k c. refl))
      (answer starlette ascii texts production open_doors 7
        (codes "1.5")
        default_settings
        missing
        asking
        quiet
        (λ k c. refl))
answers_are-IsTraced_example =
    answers_are-IsTraced starlette ascii texts production open_doors 7 (codes "1.5")
      default_settings missing asking quiet (λ k c. refl) (err (user_not_found 7))
      (its_context starlette ascii texts production open_doors 7 (codes "1.5") default_settings
        missing asking quiet (λ k c. refl))
      refl is_not_500

unexpected_is_not_traced_example :
    let (r, c) =
      answer starlette ascii texts production open_doors 7
        (codes "1.5")
        default_settings
        broken
        asking
        quiet
        (λ k c. refl) in
    (r.status_code ≡ 500) × (r.headers ≡ []) × (c.access_log ≡ [])
unexpected_is_not_traced_example =
    unexpected_is_not_traced starlette ascii texts production open_doors 7 (codes "1.5")
      default_settings broken asking quiet (λ k c. refl) (value_error (codes "boom"))
      (its_context starlette ascii texts production open_doors 7 (codes "1.5") default_settings
        broken asking quiet (λ k c. refl))
      refl refl

abbrev first_save : Outcome UserDto × Tables
first_save = transaction memory (save_and_commit ascii memory 5 draws ada) one_user

saves : first_save.0 ≡ ok (record ada_dto { version = 1 })
unfolding transaction save_and_commit save commit commit_open enter codes text_eq keep change
    from_domain
saves = refl

no_update_is_lost_example :
    transaction memory (save_and_commit ascii memory 5 draws ada) first_save.1
    ≡ (conflict_of ascii memory 5 draws ada, first_save.1)
no_update_is_lost_example =
    no_update_is_lost ascii memory 5 draws draws ada ada one_user (record ada_dto { version = 1 })
      refl refl saves
