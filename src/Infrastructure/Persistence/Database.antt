-- ===== src/Infrastructure/Persistence/Database.antt =====
-- What the persistence code takes from SQLAlchemy's `AsyncSession` and the database behind it, as
-- operations with the documented facts that the code relies on. A session has a view, what its
-- statements see, and the objects that were added and are not yet flushed: `autoflush` is off.
use ndma_edit.Prelude.{
  ℕ, List, [], ◌∷◌, ◌++◌, Bool, Option, some, ◌≡◌, keep, change, length, take, drop, ◌==◌, head?,
  if◌then◌else◌, All, ◌≢◌,
}
use ndma_edit.Runtime.{Uuid}
use ndma_edit.Infrastructure.Persistence.Models.{UserModel, OutboxModel, Tables}

pub data NewRow : Type 0 where
  user_row : UserModel → NewRow
  outbox_row : OutboxModel → NewRow

-- The INSERT of a flush.
abbrev pub insert_row : Tables → NewRow → Tables
insert_row t (user_row m) = record t { users = t.users ++ m ∷ [] }
insert_row t (outbox_row m) = record t { outbox = t.outbox ++ m ∷ [] }

unfoldable pub insert_rows : List NewRow → Tables → Tables
insert_rows [] t = t
insert_rows (r ∷ rs) t = insert_rows rs (insert_row t r)

-- ORDER BY, stable.
module _ {ℓ} {A : Type ℓ} (le : A → A → Bool) where
  unfoldable pub insert_ordered : A → List A → List A
  insert_ordered x [] = x ∷ []
  insert_ordered x (y ∷ ys) =
      let rest = insert_ordered x ys in if le x y then x ∷ y ∷ ys else y ∷ rest

  unfoldable pub order_by : List A → List A
  unfolding insert_ordered
  order_by [] = []
  order_by (x ∷ xs) = insert_ordered x (order_by xs)

-- The primary key and the unique index `ix_users_email`.
abbrev pub HasUniqueKeys : List UserModel → Type 0
HasUniqueKeys [] = Unit
HasUniqueKeys (m ∷ ms) =
    All (λ (n : UserModel). (n.id ≢ m.id) × (n.email ≢ m.email)) ms × HasUniqueKeys ms

pub record Database : Type 1 where
  pub Session : Type 0
  -- `session_factory()`, over what is committed
  pub connect : Tables → Session
  pub view : Session → Tables
  pub added : Session → List NewRow
  -- `session.get(UserModel, id)`
  pub get_user : Uuid → Session → Option UserModel
  -- `session.execute(select(UserModel).where(...))`
  pub select_users : (UserModel → Bool) → Session → List UserModel
  -- the same with ORDER BY, OFFSET and LIMIT
  pub select_page : (UserModel → UserModel → Bool) → ℕ → ℕ → Session → List UserModel
  -- `session.execute(select(func.count()).select_from(UserModel))`
  pub count_users : Session → ℕ
  -- `session.execute(update(UserModel).where(...).values(...))` and its `rowcount`
  pub update_users : (UserModel → Bool) → (UserModel → UserModel) → Session → ℕ × Session
  -- `session.add`
  pub add : NewRow → Session → Session
  -- `session.commit`: the tables as committed; `none` if it raises, with nothing committed
  pub commit : Session → Option Tables
  pub view-connect : (t : Tables) → view (connect t) ≡ t
  pub added-connect : (t : Tables) → added (connect t) ≡ []
  pub get_user_lem :
      (k : Uuid) (s : Session) → get_user k s ≡ head? (keep (λ m. m.id == k) (view s).users)
  pub select_users_lem :
      (p : UserModel → Bool) (s : Session) → select_users p s ≡ keep p (view s).users
  pub select_page_lem :
      (le : UserModel → UserModel → Bool) (o l : ℕ) (s : Session)
      → select_page le o l s ≡ take l (drop o (order_by le (view s).users))
  pub count_users_lem : (s : Session) → count_users s ≡ length (view s).users
  pub rowcount :
      (p : UserModel → Bool) (f : UserModel → UserModel) (s : Session)
      → (update_users p f s).0 ≡ length (keep p (view s).users)
  pub view-update :
      (p : UserModel → Bool) (f : UserModel → UserModel) (s : Session)
      → view (update_users p f s).1
        ≡ record { users = change p f (view s).users; outbox = (view s).outbox }
  pub added-update :
      (p : UserModel → Bool) (f : UserModel → UserModel) (s : Session)
      → added (update_users p f s).1 ≡ added s
  pub view-add : (r : NewRow) (s : Session) → view (add r s) ≡ view s
  pub added-add : (r : NewRow) (s : Session) → added (add r s) ≡ added s ++ r ∷ []
  -- a commit that goes through has flushed the added objects, in order
  pub commit_lem :
      (s : Session) (t : Tables) → commit s ≡ some t → t ≡ insert_rows (added s) (view s)
  -- and the constraints of the schema hold
  pub commit_unique : (s : Session) (t : Tables) → commit s ≡ some t → HasUniqueKeys t.users
