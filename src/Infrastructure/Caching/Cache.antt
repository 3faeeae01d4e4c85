-- ===== src/Infrastructure/Caching/Cache.antt =====
-- backend/src/app/infrastructure/caching/redis_cache.py; `dumps` and `loads` are those of `json`.
use ndma_edit.Prelude.{
  ℕ, Text, List, [], ◌∷◌, Bool, true, false, Option, none, some, is_some, text_eq, ◌≡◌, refl,
  member, Bool-cases, inl, inr, text_eq→eq, ◌∙◌, ◌&&◌, if◌then◌else◌,
}
use ndma_edit.Outcome.{Outcome, ok, map_outcome}
use ndma_edit.Infrastructure.Caching.Redis.{Redis, starts_with, is_literal}

module _ {R J : Type 0} (client : Redis R) (dumps : J → Text) (loads : Text → Outcome J) where
  abbrev loaded : Option Text → Outcome (Option J)
  loaded none = ok none
  loaded (some raw) = map_outcome some (loads raw)

  -- `RedisCache.get`
  unfoldable pub get : Text → R → Outcome (Option J)
  get key r = loaded (client.get key r)

  -- `RedisCache.set`
  unfoldable pub set : Text → J → Option ℕ → R → R
  set key value ttl_seconds = client.set key (dumps value) ttl_seconds

if_same : {A : Type 0} (b : Bool) (x : A) → (if b then x else x) ≡ x
if_same true x = refl
if_same false x = refl

if_present :
    {A : Type 0} (b : Bool) (o : Option A)
    → (if b && is_some o then none else o) ≡ (if b then none else o)
if_present true none = refl
if_present true (some a) = refl
if_present false o = refl

module _ {R : Type 0} (client : Redis R) where
  -- `RedisCache.delete`
  unfoldable pub delete : Text → R → R
  delete key = client.delete key

  -- `RedisCache.exists`
  unfoldable pub exists : Text → R → Bool
  exists key r = is_some (client.get key r)

  unfoldable pub delete_all : List Text → R → R
  delete_all [] r = r
  delete_all (k ∷ ks) r = delete_all ks (client.delete k r)

  -- `RedisCache.invalidate_prefix`: the scan's keys are deleted as they come.
  unfoldable pub invalidate_prefix : Text → R → R
  unfolding delete_all
  invalidate_prefix prefix r = delete_all (client.scan_prefix prefix r) r

  -- Behind the deletion of a list of keys, a key is gone if the list has it, and else what it was.
  delete_all-get :
      (ks : List Text) (k : Text) (r : R)
      → client.get k (delete_all ks r) ≡ (if member k ks then none else client.get k r)
  unfolding delete_all member
  delete_all-get [] k r = refl
  delete_all-get (x ∷ ks) k r = elim (Bool-cases (text_eq k x)) [
    | inl same ↦
        rw
          (
            delete_all-get ks k (client.delete x r),
            same,
            text_eq→eq k x same,
            client.get-delete x r,
          )
          (if_same (member x ks) none)
    | inr other ↦
        rw (delete_all-get ks k (client.delete x r), other, client.get-delete_other k x r other)
          refl
  ]

  -- After the invalidation of a prefix, with no character that is special in a pattern, a key is gone
  -- if it starts with the prefix, and else what it was.
  pub invalidate_prefix-get :
      (prefix k : Text) (r : R)
      → is_literal prefix ≡ true
      → client.get k (invalidate_prefix prefix r)
        ≡ (if starts_with prefix k then none else client.get k r)
  unfolding invalidate_prefix
  invalidate_prefix-get prefix k r plain =
      delete_all-get (client.scan_prefix prefix r) k r
      ∙ rw (client.scan_prefix_lem prefix k r plain)
          (if_present (starts_with prefix k) (client.get k r))
