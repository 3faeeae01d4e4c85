-- ===== src/Domain/User/History.antt =====
-- The events of a `User` tell its state: the name and the status of a registered user are what its
-- events, read in order, leave behind; and deactivation is final.
use ndma_edit.Prelude.{Text, List, [], ◌∷◌, ◌++◌, Option, false, ◌≡◌, refl, ◌∙◌, arith}
use mathlib.Core.List.{foldl, foldl-append}
use ndma_edit.Outcome.{Outcome, ok, err, user_already_deactivated}
use ndma_edit.Runtime.{Uuid}
use ndma_edit.Domain.Email.{Email}
use ndma_edit.Domain.DisplayName.{DisplayName}
use ndma_edit.Domain.Aggregate.{
  Time, EventStamp, DomainEvent, EventBody, user_registered, user_renamed, user_deactivated,
  new_event,
}
use ndma_edit.Domain.User.{
  User, UserStatus, active, deactivated, register, is_active, rename, deactivate,
}

-- A call of a method that may change a user.
pub data Change : Type 0 where
  renaming : EventStamp → DisplayName → Change
  deactivation : EventStamp → Option Text → Change

pub call : Change → User → Outcome User
call (renaming stamp n) u = rename stamp n u
call (deactivation stamp reason) u = deactivate stamp reason u

abbrev or_before : User → Outcome User → User
or_before u (ok u') = u'
or_before u (err e) = u

-- The calls in order, on one user; a call that raises leaves it as it was.
pub calls : List Change → User → User
unfolding call
calls [] u = u
calls (c ∷ cs) u = calls cs (or_before u (call c u))

-- What a reader of the events knows: the current name and the status.
pub record Profile : Type 0 where
  pub name : Text
  pub status : UserStatus

abbrev pub profile : User → Profile
profile u = record { name = u.display_name.value; status = u.status }

abbrev told : Profile → EventBody → Profile
told p (user_registered email name) = record { name = name; status = active }
told p (user_renamed old new) = record p { name = new }
told p (user_deactivated reason) = record p { status = deactivated }

abbrev pub tell : Profile → DomainEvent → Profile
tell p e = told p e.body

-- The events of `u` lead from `p` to the profile of `u`.
abbrev pub IsTold : Profile → User → Type 0
IsTold p u = foldl tell p u.domain_events ≡ profile u

told_next :
    (p : Profile) (u : User) (e : DomainEvent)
    → IsTold p u
    → foldl tell p (u.domain_events ++ e ∷ []) ≡ tell (profile u) e
told_next p u e h = rw (foldl-append, h)

call-IsTold : (p : Profile) (c : Change) (u : User) → IsTold p u → IsTold p (or_before u (call c u))
unfolding call rename deactivate
call-IsTold p (renaming stamp n) u h =
    ground
      (arith, told_next p u (new_event u.id stamp (user_renamed u.display_name.value n.value)) h)
call-IsTold p (deactivation stamp reason) u h =
    ground (arith, told_next p u (new_event u.id stamp (user_deactivated reason)) h)

calls-IsTold : (p : Profile) (cs : List Change) (u : User) → IsTold p u → IsTold p (calls cs u)
unfolding calls
calls-IsTold p [] u h = h
calls-IsTold p (c ∷ cs) u h = calls-IsTold p cs (or_before u (call c u)) (call-IsTold p c u h)

-- After any calls on a newly registered user, failing ones included, reading its pending events in
-- order from any profile gives the name and the status that the user has.
pub history_tells_profile :
    (p : Profile) (user_id : Uuid) (at : Time) (stamp : EventStamp) (email : Email)
    (n : DisplayName) (cs : List Change)
    → foldl tell p (calls cs (register user_id at stamp email n)).domain_events
      ≡ profile (calls cs (register user_id at stamp email n))
unfolding register
history_tells_profile p user_id at stamp email n cs =
    calls-IsTold p cs (register user_id at stamp email n) refl

-- What no method changes.
pub record IsSameUser (u v : User) : Type 0 where
  pub same_id : v.id ≡ u.id
  pub same_version : v.version ≡ u.version
  pub same_email : v.email ≡ u.email
  pub same_registered_at : v.registered_at ≡ u.registered_at

call-IsSameUser : (c : Change) (u : User) → IsSameUser u (or_before u (call c u))
unfolding call rename deactivate
call-IsSameUser (renaming stamp n) u = ground arith
call-IsSameUser (deactivation stamp reason) u = ground arith

-- Whatever is called on a user, its id, version, email and registration time stay.
pub calls-IsSameUser : (cs : List Change) (u : User) → IsSameUser u (calls cs u)
unfolding calls
calls-IsSameUser [] u = record {
  same_id = refl;
  same_version = refl;
  same_email = refl;
  same_registered_at = refl;
}
calls-IsSameUser (c ∷ cs) u =
    let now = call-IsSameUser c u in
    let later = calls-IsSameUser cs (or_before u (call c u)) in
    record {
      same_id = later.same_id ∙ now.same_id;
      same_version = later.same_version ∙ now.same_version;
      same_email = later.same_email ∙ now.same_email;
      same_registered_at = later.same_registered_at ∙ now.same_registered_at;
    }

call_deactivated :
    (c : Change) (u : User) → is_active u ≡ false → call c u ≡ err (user_already_deactivated u.id)
unfolding call rename deactivate
call_deactivated (renaming stamp n) u h = ground arith
call_deactivated (deactivation stamp reason) u h = ground arith

calls_deactivated : (cs : List Change) (u : User) → is_active u ≡ false → calls cs u ≡ u
unfolding calls
calls_deactivated [] u h = refl
calls_deactivated (c ∷ cs) u h = rw (call_deactivated c u h) (calls_deactivated cs u h)

-- On a deactivated user every method raises, and any calls leave it exactly as it is.
pub deactivated_is_final :
    (cs : List Change) (u : User)
    → is_active u ≡ false
    → ((c : Change) → call c u ≡ err (user_already_deactivated u.id)) × (calls cs u ≡ u)
deactivated_is_final cs u h = (λ c. call_deactivated c u h, calls_deactivated cs u h)
