-- ===== src/Tests/Requests.antt =====
-- The theorems on use cases and on the pipeline at concrete inputs.
use ndma_edit.Infrastructure.Persistence.Repository.{add, get_by_email, get_by_id, list_page, save}
use ndma_edit.Domain.Email.Pattern.{email_pattern}
use ndma_edit.Infrastructure.Persistence.UnitOfWork.{commit, enter, transaction}
use ndma_edit.Prelude.{
  ◌+◌, ◌==◌, head?, some, pos, ltb, [], ◌∷◌, ◌++◌, codes, ◌≡◌, refl, text_eq, change, has_char,
  keep, member, strip,
}
use ndma_edit.Outcome.{Outcome, ok, err, authentication}
use ndma_edit.Domain.Email.{Email, new_email}
use ndma_edit.Domain.DisplayName.{DisplayName, ensure_allowed, new_display_name, reserved_names}
use ndma_edit.Domain.User.{User, deactivated, rename, deactivate, register}
use ndma_edit.Infrastructure.Persistence.Models.{UserModel}
use ndma_edit.Infrastructure.Persistence.Database.{HasUniqueKeys, order_by}
use ndma_edit.Infrastructure.Persistence.Mapper.{to_model, to_domain}
use ndma_edit.Infrastructure.Persistence.OutboxRow.{row_of}
use ndma_edit.Runtime.{Uuid}
use ndma_edit.Application.Messages.{
  Request, register_user, rename_user, required_permission, validate,
}
use ndma_edit.Application.Context.{RequestContext}
use ndma_edit.Application.Dto.{UserDto, from_domain, Page, has_next}
use ndma_edit.Application.Users.Inputs.{user_id_from_string, register_inputs, rename_inputs}
use ndma_edit.Application.Users.Handlers.{handle_register, handle_rename, handle_deactivate}
use ndma_edit.Application.Users.Success.{registered, registered_event, handle_register-ok}
use ndma_edit.Application.Users.Written.{
  root_of, renamed_tables, deactivated_tables, handle_rename-writes, handle_deactivate-writes,
}
use ndma_edit.Application.Pipeline.{Value, user, App}
use ndma_edit.Application.Pipeline.Behaviors.{
  idempotency, authorization_behavior, logging, performance, validation_behavior,
}
use ndma_edit.Application.Pipeline.Mediator.{send_request, send}
use ndma_edit.Application.Pipeline.Gate.{IsPermitted, send_request-ok-IsPermitted}
use ndma_edit.Application.Pipeline.Atomic.{send_request-atomic}
use ndma_edit.Application.Messages.{ListUsersQuery}
use ndma_edit.Application.Users.Handlers.{handle_list}
use ndma_edit.Application.Users.Listing.{IsPageOf, handle_list-ok}
use ndma_edit.Tests.Surroundings.{ascii, memory, commit_open}
use ndma_edit.Tests.Servers.{Memory, memory_redis, memory-IsUp, codec}
use ndma_edit.Infrastructure.Caching.Runs.{redis_store-IsReliable}
use ndma_edit.Tests.Samples.{
  mark, store, in_no_time, draws, no_tables, one_user, register_ada, rename_ada, deactivate_ada,
  ada_dto, anybody, app_with,
}

abbrev sending : Request → RequestContext → App Memory → Outcome Value × App Memory
sending q c s = send_request ascii memory 5 mark store in_no_time draws q c s

abbrev renamed_dto : UserDto
renamed_dto = record ada_dto { display_name = codes "Ada Lovelace"; version = 1 }

abbrev gone_dto : UserDto
gone_dto = record ada_dto { status = codes "deactivated"; version = 1 }

registers : (handle_register ascii memory 5 draws register_ada no_tables).0 ≡ ok ada_dto
unfolding handle_register codes new_email strip email_pattern new_display_name ensure_allowed member
    reserved_names text_eq keep change from_domain commit_open transaction enter commit get_by_email
    get_by_id add save to_domain register rename deactivate
registers = refl

renames : (handle_rename ascii memory 5 draws rename_ada one_user).0 ≡ ok renamed_dto
unfolding handle_rename user_id_from_string codes new_email strip email_pattern new_display_name
    ensure_allowed member reserved_names text_eq keep change from_domain commit_open transaction
    enter commit get_by_email get_by_id add save to_domain register rename deactivate
renames = refl

deactivates : (handle_deactivate ascii memory 5 draws deactivate_ada one_user).0 ≡ ok gone_dto
unfolding handle_deactivate codes new_email strip email_pattern new_display_name ensure_allowed
    member reserved_names text_eq keep change from_domain commit_open transaction enter commit
    get_by_email get_by_id add save to_domain register rename deactivate
deactivates = refl

registers_by_request :
    (sending (register_user register_ada) anybody (app_with no_tables)).0 ≡ ok (user ada_dto)
unfolding send_request codes new_email strip email_pattern new_display_name ensure_allowed member
    reserved_names text_eq keep change from_domain commit_open transaction enter commit get_by_email
    get_by_id add save to_domain register rename deactivate validate has_char logging performance
    validation_behavior authorization_behavior idempotency send required_permission handle_register
registers_by_request = refl

refuses_by_request :
    (sending (rename_user rename_ada) anybody (app_with one_user)).0
    ≡ err (authentication (codes "Authentication is required for this operation"))
unfolding send_request codes logging performance validation_behavior authorization_behavior send
    required_permission validate strip
refuses_by_request = refl

handle_register-ok_example :
    (email : Email) × (name : DisplayName) × (register_inputs ascii register_ada ≡ ok (email, name))
    × (ada_dto ≡ from_domain ascii (registered ascii memory 5 draws email name))
    × ((handle_register ascii memory 5 draws register_ada no_tables).1 ≡ record {
      users = no_tables.users ++ to_model (registered ascii memory 5 draws email name) ∷ [];
      outbox =
          no_tables.outbox
          ++ row_of (registered_event ascii memory 5 draws email name) 5 (draws.now_at 0) ∷ [];
    })
    × HasUniqueKeys (handle_register ascii memory 5 draws register_ada no_tables).1.users
handle_register-ok_example =
    handle_register-ok ascii memory 5 draws register_ada no_tables ada_dto registers

handle_rename-writes_example :
    let (r, t) = handle_rename ascii memory 5 draws rename_ada one_user in
    (k : Uuid) × (name : DisplayName) × (row : UserModel) × (before : User) × (rename_inputs ascii
        rename_ada
      ≡ ok (k, name))
    × (head? (keep (λ m. m.id == k) one_user.users) ≡ some row)
    × (to_domain ascii row ≡ ok before)
    × (t ≡ renamed_tables ascii memory 5 draws before row.id row.version name.value one_user)
    × (renamed_dto
        ≡ from_domain ascii
            (record before { root = root_of row.id (row.version + 1); display_name = name }))
    × HasUniqueKeys t.users
handle_rename-writes_example =
    handle_rename-writes ascii memory 5 draws rename_ada one_user renamed_dto renames

handle_deactivate-writes_example :
    let (r, t) = handle_deactivate ascii memory 5 draws deactivate_ada one_user in
    (k : Uuid) × (row : UserModel) × (before : User) × (user_id_from_string ascii
        deactivate_ada.user_id
      ≡ ok k)
    × (head? (keep (λ m. m.id == k) one_user.users) ≡ some row)
    × (to_domain ascii row ≡ ok before)
    × (t
        ≡ deactivated_tables ascii memory 5 draws before row.id row.version deactivate_ada.reason
            one_user)
    × (gone_dto
        ≡ from_domain ascii
            (record before { root = root_of row.id (row.version + 1); status = deactivated }))
    × HasUniqueKeys t.users
handle_deactivate-writes_example =
    handle_deactivate-writes ascii memory 5 draws deactivate_ada one_user gone_dto deactivates

send_request-ok-IsPermitted_example :
    (validate (register_user register_ada) ≡ []) × IsPermitted (register_user register_ada) anybody
send_request-ok-IsPermitted_example =
    send_request-ok-IsPermitted ascii memory 5 mark store in_no_time draws
      (register_user register_ada) anybody (app_with no_tables) (user ada_dto) registers_by_request

send_request-atomic_example :
    (send_request ascii memory 5 mark store in_no_time draws
      (rename_user rename_ada)
      anybody
      (app_with one_user)).1.tables
    ≡ one_user
send_request-atomic_example =
    send_request-atomic ascii memory 5 mark store in_no_time
      (redis_store-IsReliable memory_redis codec memory-IsUp) draws (rename_user rename_ada) anybody
      (app_with one_user) (authentication (codes "Authentication is required for this operation"))
      refuses_by_request

abbrev everybody : ListUsersQuery
everybody = record { offset = pos 0; limit = pos 20 }

abbrev one_page : Page UserDto
one_page = record { items = ada_dto ∷ []; total = 1; offset = 0; limit = 20 }

lists : (handle_list ascii memory everybody one_user).0 ≡ ok one_page
unfolding handle_list codes new_email strip email_pattern new_display_name ensure_allowed member
    reserved_names text_eq keep change from_domain commit_open transaction enter commit get_by_email
    get_by_id add save to_domain register rename deactivate list_page order_by
lists = refl

handle_list-ok_example :
    IsPageOf ascii everybody one_user one_page
    × (has_next one_page ≡ ltb (one_page.offset + one_page.limit) one_page.total)
handle_list-ok_example = handle_list-ok ascii memory everybody one_user one_page lists
