-- ===== src/Outcome.antt =====
-- A call that returns or raises, for backend/src/app: every exception class that its layers raise,
-- with the arguments that the raise statements give, and the monad of such calls.
use ndma_edit.Prelude.{ℕ, List, Text, Bool, true, false, ◌≡◌, refl, sym, ap, ◌∙◌, length, suc}

-- The exceptions of domain/shared/exceptions.py, domain/users/exceptions and
-- application/common/exceptions, and those of Python and the database that the code lets through.
pub data Error : Type 0 where
  invalid_value_object : Text → Error
  business_rule_violation : Text → Error
  user_not_found : ℕ → Error
  email_already_registered : Text → Error
  user_already_deactivated : ℕ → Error
  user_concurrency_conflict : Text → ℕ → ℕ → Error
  validation : List (Text × List Text) → Error
  authentication : Text → Error
  authorization : Text → Error
  conflict : Text → Error
  -- those that no code raises, but that have handlers of their own
  domain_error invalid_state application_error not_found infrastructure : Text → Error
  entity_not_found concurrency_conflict : Text → Error
  request_validation : List (Text × List Text) → Error
  handler_not_registered : Text → Error
  value_error : Text → Error
  key_error : Text → Error
  attribute_error : Text → Error
  type_error : Text → Error
  assertion_error : Text → Error
  database_error : Error

pub data Outcome {ℓ} (A : Type ℓ) : Type ℓ where
  ok : A → Outcome A
  err : Error → Outcome A

abbrev pub map_outcome {ℓ κ} : {A : Type ℓ} {B : Type κ} → (A → B) → Outcome A → Outcome B
map_outcome g (ok x) = ok (g x)
map_outcome g (err e) = err e

-- `if b: raise e`
abbrev pub raise_if : Bool → Error → Outcome (Unit {0})
raise_if true raised = err raised
raise_if false raised = ok tt

-- A call with more code behind it.
infixl 5 ◌>>=◌
abbrev pub ◌>>=◌ {ℓ κ} : {A : Type ℓ} {B : Type κ} → Outcome A → (A → Outcome B) → Outcome B
ok x >>= rest = rest x
err raised >>= rest = err raised

infixl 5 ◌>>◌
abbrev pub ◌>>◌ {κ} : {B : Type κ} → Outcome (Unit {0}) → Outcome B → Outcome B
check >> rest = check >>= λ _. rest

-- A list of calls in order; the first that raises ends it.
unfoldable pub traverse {ℓ κ} :
    {A : Type ℓ} {B : Type κ} → (A → Outcome B) → List A → Outcome (List B)
traverse f List.[] = ok List.[]
traverse f (List.◌∷◌ x xs) = do y ← f x; ys ← traverse f xs; ok (List.◌∷◌ y ys)

-- What a successful bind did.
pub >>=-eq-ok {ℓ κ} :
    {A : Type ℓ} {B : Type κ} (call : Outcome A) (rest : A → Outcome B) {y : B}
    → (call >>= rest) ≡ ok y
    → (x : A) × (call ≡ ok x) × (rest x ≡ ok y)
>>=-eq-ok (err raised) rest through = cc
>>=-eq-ok (ok x) rest through = (x, refl, through)

pub ok_inj : {A : Type 0} {a b : A} → Outcome.ok a ≡ ok b → a ≡ b
ok_inj e = cc

-- A traversal that goes through has one result for each member.
pub length-traverse :
    {A B : Type 0} (f : A → Outcome B) (xs : List A) (ys : List B)
    → traverse f xs ≡ ok ys
    → length ys ≡ length xs
unfolding traverse
length-traverse f List.[] ys h = ap length (ok_inj (sym h))
length-traverse f (List.◌∷◌ x xs) ys h =
    let (y, hy, h1) = >>=-eq-ok (f x) (λ y. traverse f xs >>= λ ys'. ok (List.◌∷◌ y ys')) h in
    let (zs, hz, h2) = >>=-eq-ok (traverse f xs) (λ ys'. ok (List.◌∷◌ y ys')) h1 in
    ap length (ok_inj (sym h2)) ∙ ap suc (length-traverse f xs zs hz)

-- A call that changes a state, with more code behind it.
infixl 5 ◌and_then◌
abbrev pub ◌and_then◌ {ℓ κ} :
    {S : Type 0} {A : Type ℓ} {B : Type κ} → Outcome A × S → (A → S → Outcome B × S) → Outcome B × S
(ok x, s) and_then rest = rest x s
(err raised, s) and_then rest = (err raised, s)

-- What holds behind a call, whether it raised or not, and is kept by the rest, holds at the end.
pub and_then-keeps {ℓ κ} :
    {S : Type 0} {A : Type ℓ} {B : Type κ} (P : S → Type 0) (call : Outcome A × S)
    (rest : A → S → Outcome B × S)
    → P call.1
    → ((x : A) (s : S) → P s → P (rest x s).1)
    → P (call and_then rest).1
and_then-keeps P (ok x, s) rest h keeps = keeps x s h
and_then-keeps P (err raised, s) rest h keeps = h
