-- ===== src/Application/Users/Listing.antt =====
-- What a listing returns: one page of all users, the newest first.
use mathlib.Core.List.{Perm}
use ndma_edit.Prelude.{
  ℕ, ◌+◌, ◌-◌, ℤ, pos, negsuc, min, List, length, take, drop, length-take, length-drop, length-map,
  map, ltb, ◌≡◌, refl, sym, ap, ◌∙◌, subst, arith,
}
use ndma_edit.Outcome.{Outcome, ok, err, map_outcome, traverse, ok_inj, length-traverse}
use ndma_edit.Runtime.{Runtime}
use ndma_edit.Domain.User.{User}
use ndma_edit.Infrastructure.Persistence.Models.{UserModel, Tables}
use ndma_edit.Infrastructure.Persistence.Database.{Database, order_by}
use ndma_edit.Infrastructure.Persistence.Mapper.{to_domain}
use ndma_edit.Infrastructure.Persistence.Exec.{UnitOfWork, lift, pure, ◌>>=◌}
use ndma_edit.Infrastructure.Persistence.Repository.{newest_first, list_page}
use ndma_edit.Infrastructure.Persistence.UnitOfWork.{enter, transaction}
use ndma_edit.Application.Messages.{ListUsersQuery}
use ndma_edit.Application.Dto.{UserDto, from_domain, Page, has_next}
use ndma_edit.Application.Users.Handlers.{handle_list}
use ndma_edit.Application.Users.Newest.{
  IsNewestFirst, order-IsNewestFirst, order-perm, length-order_by,
}

-- The rows of a page.
abbrev page_rows : ℕ → ℕ → Tables → List UserModel
page_rows offset limit t = take limit (drop offset (order_by newest_first t.users))

-- What the page of a query is.
pub record IsPageOf (rt : Runtime) (q : ListUsersQuery) (t : Tables) (p : Page UserDto)
    : Type 0 where
  -- all rows of the table, the newest first
  pub rows : List UserModel
  pub users : List User
  pub all_rows : Perm rows t.users
  pub all_count : length rows ≡ length t.users
  pub newest : IsNewestFirst rows
  pub offset_eq : q.offset ≡ pos p.offset
  pub limit_eq : q.limit ≡ pos p.limit
  pub mapped : traverse (to_domain rt) (take p.limit (drop p.offset rows)) ≡ ok users
  pub items_eq : p.items ≡ map (from_domain rt) users
  pub total_eq : p.total ≡ length t.users

next_page : (o l n : ℕ) → ltb (o + min l (n - o)) n ≡ ltb (o + l) n
next_page o l n = ground arith

-- The page that `list_body` builds.
abbrev page_of : Runtime → ℕ → ℕ → List User × ℕ → Page UserDto
page_of rt o l (users, total) = record {
  items = map (from_domain rt) users;
  total = total;
  offset = o;
  limit = l;
}

module _ (rt : Runtime) (db : Database) where
  open db use {Session}

  built :
      (r : Outcome (List User)) (n o l : ℕ) (u : UnitOfWork Session) (p : Page UserDto)
      → ((lift (map_outcome (λ (users : List User). (users, n)) r) >>= λ found.
            pure (page_of rt o l found))
          u).0
        ≡ ok p
      → (users : List User) × (r ≡ ok users) × (p ≡ page_of rt o l (users, n))
  built (ok users) n o l u p h = (users, refl, sym (ok_inj h))
  built (err e) n o l u p h = cc

  list_page-of :
      (o l : ℤ) (t : Tables) (p : Page UserDto)
      → (handle_list rt db (record { offset = o; limit = l }) t).0 ≡ ok p
      → IsPageOf rt (record { offset = o; limit = l }) t p
  unfolding handle_list transaction list_page enter
  list_page-of (pos o) (pos l) t p h =
      let s = db.connect t in
      let (users, found, e) =
        built (traverse (to_domain rt) (db.select_page newest_first o l s)) (db.count_users s) o l _
          p h in
      subst (IsPageOf rt (record { offset = pos o; limit = pos l }) t) (sym e) (record {
        rows = order_by newest_first t.users;
        users = users;
        all_rows = order-perm newest_first t.users;
        all_count = length-order_by newest_first t.users;
        newest = order-IsNewestFirst t.users;
        offset_eq = refl;
        limit_eq = refl;
        mapped =
            sym (
              ap (traverse (to_domain rt))
                (db.select_page_lem newest_first o l s ∙ rw (db.view-connect t) refl))
            ∙ found;
        items_eq = refl;
        total_eq = db.count_users_lem s ∙ rw (db.view-connect t) refl;
      })
  list_page-of (pos o) (negsuc l) t p h = cc
  list_page-of (negsuc o) l t p h = cc

  -- A listing that returns has the users of the rows `offset` to `offset + limit` of a list of all rows
  -- in which none was registered later than one before it, and of two that were registered at one time
  -- the smaller id is first. It counts all rows, and says that there is a next page exactly when rows
  -- lie behind those.
  pub handle_list-ok :
      (q : ListUsersQuery) (t : Tables) (p : Page UserDto)
      → (handle_list rt db q t).0 ≡ ok p
      → IsPageOf rt q t p × (has_next p ≡ ltb (p.offset + p.limit) p.total)
  unfolding has_next
  handle_list-ok q t p h = (is_page, next)
    where
      is_page : IsPageOf rt q t p
      is_page = list_page-of q.offset q.limit t p h

      count : length p.items ≡ min p.limit (length t.users - p.offset)
      count =
          ap length is_page.items_eq
          ∙ length-map (from_domain rt) is_page.users
          ∙ length-traverse (to_domain rt) (take p.limit (drop p.offset is_page.rows)) is_page.users
              is_page.mapped
          ∙ length-take p.limit (drop p.offset is_page.rows)
          ∙ ap (min p.limit)
              (length-drop p.offset is_page.rows ∙ ap (λ n. n - p.offset) is_page.all_count)

      next : ltb (p.offset + length p.items) p.total ≡ ltb (p.offset + p.limit) p.total
      next = rw (count, is_page.total_eq) (next_page p.offset p.limit (length t.users))
