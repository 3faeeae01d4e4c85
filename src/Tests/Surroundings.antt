-- ===== src/Tests/Surroundings.antt =====
-- A Python runtime for ASCII, a database in memory, a Redis of one association list, and the other
-- parameters of the development, each by a concrete function.
use ndma_edit.Prelude.{
  ℕ, ◌+◌, Text, List, [], ◌∷◌, ◌++◌, map, Bool, true, false, not, ◌&&◌, Option, none, some, ◌==◌,
  leb, text_eq, text_eq_iff, keep, change, length, take, drop, head?, is_space, &&_parts, All, ◌≡◌,
  ◌≢◌, refl, sym, subst, arith, if◌then◌else◌,
}
use ndma_edit.Prelude.Strip.{strip-map}
use ndma_edit.Runtime.{Runtime, Uuid}
use ndma_edit.Infrastructure.Persistence.Models.{UserModel, Tables}
use ndma_edit.Infrastructure.Persistence.Database.{
  Database, NewRow, insert_rows, order_by, HasUniqueKeys,
}

abbrev ascii_lower : ℕ → ℕ
ascii_lower c = if leb 65 c && leb c 90 then c + 32 else c

ascii_lower_idem : (c : ℕ) → ascii_lower (ascii_lower c) ≡ ascii_lower c
ascii_lower_idem c = ground arith

pub is_space-ascii_lower : (c : ℕ) → is_space (ascii_lower c) ≡ is_space c
unfolding is_space
is_space-ascii_lower c = ground arith

pub lower_all_idem : (s : Text) → map ascii_lower (map ascii_lower s) ≡ map ascii_lower s
lower_all_idem [] = refl
lower_all_idem (c ∷ s) = rw (ascii_lower_idem c, lower_all_idem s) refl

abbrev read_uuid : Text → Option Uuid
read_uuid [] = none
read_uuid (u ∷ []) = some u
read_uuid (u ∷ v ∷ s) = none

abbrev pub ascii : Runtime
ascii = record {
  lower = map ascii_lower;
  parse_uuid = read_uuid;
  format_uuid = λ u. u ∷ [];
  lower_idem = lower_all_idem;
  strip-lower = strip-map ascii_lower is_space-ascii_lower;
  parse-format = λ u. refl;
}

-- Whether the keys of some rows are unique.
unfoldable pub differs_from : UserModel → List UserModel → Bool
differs_from m [] = true
differs_from m (n ∷ ns) = not (n.id == m.id) && not (text_eq n.email m.email) && differs_from m ns

unfoldable pub has_unique_keys : List UserModel → Bool
unfolding differs_from
has_unique_keys [] = true
has_unique_keys (m ∷ ms) = differs_from m ms && has_unique_keys ms

not_both : (b : Bool) → not b ≡ true → b ≢ true
not_both b h e = ground arith

not-text_eq : (s t : Text) → not (text_eq s t) ≡ true → s ≢ t
not-text_eq s t h e = not_both (text_eq s t) h ((text_eq_iff s t).1 e)

not_same : (a b : ℕ) → not (a == b) ≡ true → a ≢ b
not_same a b h e = ground arith

differs_from→All :
    (m : UserModel) (ns : List UserModel)
    → differs_from m ns ≡ true
    → All (λ (n : UserModel). (n.id ≢ m.id) × (n.email ≢ m.email)) ns
unfolding differs_from
differs_from→All m [] h = tt
differs_from→All m (n ∷ ns) h =
    let (heads, rest) = &&_parts _ (differs_from m ns) h in
    let (other_id, other_email) = &&_parts (not (n.id == m.id)) _ heads in
    (
      (not_same n.id m.id other_id, not-text_eq n.email m.email other_email),
      differs_from→All m ns rest,
    )

has_unique_keys→HasUniqueKeys : (ms : List UserModel) → has_unique_keys ms ≡ true → HasUniqueKeys ms
unfolding has_unique_keys
has_unique_keys→HasUniqueKeys [] h = tt
has_unique_keys→HasUniqueKeys (m ∷ ms) h =
    let (apart, rest) = &&_parts (differs_from m ms) (has_unique_keys ms) h in
    (differs_from→All m ms apart, has_unique_keys→HasUniqueKeys ms rest)

-- A session that keeps what it sees and what was added to it.
pub record Open : Type 0 where
  pub seen : Tables
  pub new : List NewRow

abbrev when_unique : Bool → Tables → Option Tables
when_unique true t = some t
when_unique false t = none

when_unique-some : (b : Bool) (t t' : Tables) → when_unique b t ≡ some t' → (b ≡ true) × (t' ≡ t)
when_unique-some true t t' h = (refl, cc)
when_unique-some false t t' h = cc

unfoldable pub commit_open : Open → Option Tables
unfolding has_unique_keys insert_rows
commit_open s = let t = insert_rows s.new s.seen in when_unique (has_unique_keys t.users) t

pub commit_open-some :
    (s : Open) (t : Tables)
    → commit_open s ≡ some t
    → (t ≡ insert_rows s.new s.seen) × HasUniqueKeys t.users
unfolding commit_open
commit_open-some s t h =
    let written = insert_rows s.new s.seen in
    let (unique, e) = when_unique-some (has_unique_keys written.users) written t h in
    (
      e,
      subst (λ (x : Tables). HasUniqueKeys x.users) (sym e)
          (has_unique_keys→HasUniqueKeys written.users unique),
    )

abbrev pub memory : Database
memory = record {
  Session = Open;
  connect = λ t. record { seen = t; new = [] };
  view = λ s. s.seen;
  added = λ s. s.new;
  get_user = λ k s. head? (keep (λ m. m.id == k) s.seen.users);
  select_users = λ p s. keep p s.seen.users;
  select_page = λ le o l s. take l (drop o (order_by le s.seen.users));
  count_users = λ s. length s.seen.users;
  update_users = λ p f s. (
    length (keep p s.seen.users),
    record s { seen = record { users = change p f s.seen.users; outbox = s.seen.outbox } },
  );
  add = λ r s. record s { new = s.new ++ r ∷ [] };
  commit = commit_open;
  view-connect = λ t. refl;
  added-connect = λ t. refl;
  get_user_lem = λ k s. refl;
  select_users_lem = λ p s. refl;
  select_page_lem = λ le o l s. refl;
  count_users_lem = λ s. refl;
  rowcount = λ p f s. refl;
  view-update = λ p f s. refl;
  added-update = λ p f s. refl;
  view-add = λ r s. refl;
  added-add = λ r s. refl;
  commit_lem = λ s t h. (commit_open-some s t h).0;
  commit_unique = λ s t h. (commit_open-some s t h).1;
}
