-- ===== src/Tests/Domain.antt =====
-- The domain's theorems at concrete inputs.
use ndma_edit.Prelude.{List, [], ◌∷◌, true, false, none, codes, ◌≡◌, ◌↔◌, refl, strip}
use mathlib.Core.List.{foldl}
use ndma_edit.Outcome.{ok}
use ndma_edit.Domain.Email.{new_email}
use ndma_edit.Domain.Email.Pattern.{email_pattern, IsAddress, email_pattern_iff}
use ndma_edit.Domain.Email.Normal.{IsValidEmail, new_email_iff}
use ndma_edit.Domain.DisplayName.{new_display_name}
use ndma_edit.Domain.User.{User, active, register, is_active}
use ndma_edit.Domain.User.History.{
  Change, renaming, deactivation, calls, Profile, profile, tell, history_tells_profile,
}
use ndma_edit.Tests.Surroundings.{ascii}
use ndma_edit.Tests.Samples.{ada_email, ada_name, stamp, gone_ada}

accepts_ada : new_email ascii (codes " Ada@Example.com ") ≡ ok (record { value = ada_email })
unfolding new_email codes strip email_pattern
accepts_ada = refl

email_pattern_iff_example : (email_pattern ada_email ≡ true) ↔ IsAddress ada_email
email_pattern_iff_example = email_pattern_iff ada_email

new_email_iff_example :
    (new_email ascii (codes " Ada@Example.com ") ≡ ok (record { value = ada_email }))
    ↔ ((ada_email ≡ ascii.lower (strip (codes " Ada@Example.com "))) × IsValidEmail ada_email)
new_email_iff_example =
    new_email_iff ascii (codes " Ada@Example.com ") (record { value = ada_email })

accepts_name : new_display_name (codes " Ada ") ≡ ok (record { value = ada_name })
unfolding new_display_name codes strip
accepts_name = refl

abbrev some_changes : List Change
some_changes =
    renaming stamp (record { value = codes "Countess" })
    ∷ deactivation stamp none
    ∷ renaming stamp (record { value = ada_name })
    ∷ []

abbrev fresh_ada : User
fresh_ada = register 7 4000 stamp (record { value = ada_email }) (record { value = ada_name })

abbrev unknown : Profile
unknown = record { name = []; status = active }

history_tells_profile_example :
    foldl tell unknown (calls some_changes fresh_ada).domain_events
    ≡ profile (calls some_changes fresh_ada)
history_tells_profile_example =
    history_tells_profile unknown 7 4000 stamp (record { value = ada_email })
      (record { value = ada_name }) some_changes

gone : is_active gone_ada ≡ false
unfolding is_active
gone = refl
