-- ===== src/Tests/Servers.antt =====
-- A Redis of one list, codecs and tokens, each by concrete functions.
use ndma_edit.Prelude.{
  ℕ, Text, List, [], ◌∷◌, ◌++◌, Bool, true, false, not, ◌&&◌, Option, none, some, is_some, ◌==◌,
  ltb, text_eq, text_eq_refl, text_eq→eq, member, ◌≡◌, refl, sym, ◌∙◌, arith, Bool-cases, inl, inr,
  if◌then◌else◌, codes,
}
use ndma_edit.Outcome.{Outcome, ok, err, value_error}
use ndma_edit.Domain.Aggregate.{Time}
use ndma_edit.Application.Pipeline.{Json, null, text, Value, user, page, json}
use ndma_edit.Infrastructure.Caching.Redis.{
  answers, IsUp, Redis, set_if_free, starts_with, StoredResult, JsonCodec,
}
use ndma_edit.Infrastructure.Auth.Tokens.{Jwt, Claims}

abbrev pub Memory : Type 0
Memory = List (Text × Text)

unfoldable pub lookup : Text → Memory → Option Text
lookup k [] = none
lookup k ((n, v) ∷ r) = let rest = lookup k r in if text_eq k n then some v else rest

unfoldable pub remove : Text → Memory → Memory
remove k [] = []
remove k ((n, v) ∷ r) = let rest = remove k r in if text_eq k n then rest else (n, v) ∷ rest

unfoldable pub scan : Text → Memory → List Text
scan p [] = []
scan p ((n, v) ∷ r) = let rest = scan p r in if starts_with p n then n ∷ rest else rest

abbrev pub set_nx_in : Text → Text → ℕ → Memory → Bool × Memory
set_nx_in k v ttl r = set_if_free (lookup k r) ((k, v) ∷ r) r

pub lookup-set : (k v : Text) (r : Memory) → lookup k ((k, v) ∷ r) ≡ some v
unfolding lookup
lookup-set k v r = rw (text_eq_refl k) refl

pub lookup-set_other :
    (k n v : Text) (r : Memory) → text_eq k n ≡ false → lookup k ((n, v) ∷ r) ≡ lookup k r
unfolding lookup
lookup-set_other k n v r h = rw h refl

pub lookup-remove : (k : Text) (r : Memory) → lookup k (remove k r) ≡ none
unfolding lookup remove
lookup-remove k [] = refl
lookup-remove k ((n, v) ∷ r) = elim (Bool-cases (text_eq k n)) [
  | inl same ↦ rw same (lookup-remove k r)
  | inr other ↦ rw (other, other) (lookup-remove k r)
]

pub lookup-remove_other :
    (k n : Text) (r : Memory) → text_eq k n ≡ false → lookup k (remove n r) ≡ lookup k r
unfolding lookup remove
lookup-remove_other k n [] h = refl
lookup-remove_other k n ((m, v) ∷ r) h = elim (Bool-cases (text_eq n m)) [
  | inl same ↦ rw (same, sym (text_eq→eq n m same), h) (lookup-remove_other k n r h)
  | inr other ↦ rw (other, lookup-remove_other k n r h) refl
]

scan_step :
    (p k n v : Text) (r : Memory) (b : Bool)
    → text_eq k n ≡ b
    → member k (scan p r) ≡ (starts_with p k && is_some (lookup k r))
    → member k (scan p ((n, v) ∷ r)) ≡ (starts_with p k && is_some (lookup k ((n, v) ∷ r)))
unfolding scan lookup member
scan_step p k n v r true same h =
    rw (sym (text_eq→eq k n same), text_eq_refl k)
      (elim (Bool-cases (starts_with p k)) [
        | inl starts ↦ rw (starts, text_eq_refl k) refl
        | inr not_so ↦ rw not_so (h ∙ rw not_so refl)
      ])
scan_step p k n v r false other h = rw other (elim (Bool-cases (starts_with p n)) [
  | inl starts ↦ rw (starts, other) h
  | inr not_so ↦ rw not_so h
])

pub member-scan :
    (p k : Text) (r : Memory) → member k (scan p r) ≡ (starts_with p k && is_some (lookup k r))
unfolding scan lookup member
member-scan p k [] = ground arith
member-scan p k ((n, v) ∷ r) = scan_step p k n v r (text_eq k n) refl (member-scan p k r)

abbrev pub memory_redis : Redis Memory
memory_redis = record {
  get = lookup;
  set = λ k v ttl r. (k, v) ∷ r;
  set_nx = set_nx_in;
  delete = remove;
  scan_prefix = scan;
  fault = λ command key r. answers;
  get-set = λ k v ttl r. lookup-set k v r;
  get-set_other = λ k n v ttl r h. lookup-set_other k n v r h;
  set_nx_lem = λ k v ttl r. refl;
  get-delete = lookup-remove;
  get-delete_other = lookup-remove_other;
  scan_prefix_lem = λ p k r plain. member-scan p k r;
}

pub memory-IsUp : IsUp memory_redis
memory-IsUp command key r = refl

-- A text with a mark before each character and one behind the last.
unfoldable pub quote : Text → Text → Text
quote [] rest = 0 ∷ rest
quote (c ∷ s) rest = 1 ∷ c ∷ quote s rest

abbrev pub push : ℕ → Option (Text × Text) → Option (Text × Text)
push c none = none
push c (some (s, rest)) = some (c ∷ s, rest)

unfoldable pub unquote : Text → Option (Text × Text)
unquote [] = none
unquote (m ∷ []) = if m == 0 then some ([], []) else none
unquote (m ∷ c ∷ t) = let later = unquote t in if m == 0 then some ([], c ∷ t) else push c later

pub unquote-quote : (s rest : Text) → unquote (quote s rest) ≡ some (s, rest)
unfolding quote unquote
unquote-quote [] [] = refl
unquote-quote [] (c ∷ t) = refl
unquote-quote (c ∷ s) rest = rw (unquote-quote s rest) refl

abbrev pub json_text : Json → Text
json_text null = []
json_text (text s) = 1 ∷ s

abbrev pub text_json : Text → Json
text_json [] = null
text_json (m ∷ s) = text s

abbrev pub dump : StoredResult → Text
dump x = quote x.fingerprint (json_text x.result)

abbrev pub loaded : Option (Text × Text) → Outcome StoredResult
loaded none = err (value_error (codes "Expecting value"))
loaded (some (f, j)) = ok (record { fingerprint = f; result = text_json j })

text_json-json_text : (j : Json) → text_json (json_text j) ≡ j
text_json-json_text null = refl
text_json-json_text (text s) = refl

pub loaded-dump : (x : StoredResult) → loaded (unquote (dump x)) ≡ ok x
loaded-dump x =
    rw (unquote-quote x.fingerprint (json_text x.result), text_json-json_text x.result) refl

abbrev pub text_of_value : Value → Text
text_of_value (user u) = codes "UserDTO(" ++ u.email ++ codes ")"
text_of_value (page p) = codes "Page"
text_of_value (json j) = codes "json"

abbrev pub codec : JsonCodec
codec = record {
  text_of = text_of_value;
  dumps = dump;
  loads = λ t. loaded (unquote t);
  loads-dumps = loaded-dump;
}

-- A token is its claims with the secret and the algorithm.
abbrev pub Signed : Type 0
Signed = Claims × Text × Text

unfoldable pub accepts : Signed → Text → Text → Text → Text → Time → Bool
accepts t secret algorithm issuer audience now =
    text_eq t.1 secret
    && text_eq t.2 algorithm
    && text_eq t.0.iss issuer
    && text_eq t.0.aud audience
    && not (ltb now t.0.iat)
    && ltb now t.0.exp

abbrev pub decode : Signed → Text → Text → Text → Text → Time → Option Claims
decode t secret algorithm issuer audience now =
    if accepts t secret algorithm issuer audience now then some t.0 else none

pub decode-signed :
    (c : Claims) (secret algorithm : Text) (now : Time)
    → ltb now c.iat ≡ false
    → ltb now c.exp ≡ true
    → decode (c, secret, algorithm) secret algorithm c.iss c.aud now ≡ some c
unfolding accepts
decode-signed c secret algorithm now issued alive =
    rw
      (
        text_eq_refl secret,
        text_eq_refl algorithm,
        text_eq_refl c.iss,
        text_eq_refl c.aud,
        issued,
        alive,
      )
      refl

-- Here a time is kept as it is.
abbrev pub jwt : Jwt
jwt = record {
  Token = Signed;
  whole_seconds = λ t. t;
  encode = λ c secret algorithm. (c, secret, algorithm);
  decode = decode;
  decode-encode = decode-signed;
}
