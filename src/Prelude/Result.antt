-- ===== src/Prelude/Result.antt =====
-- Go's pair of a value and an error. One type of errors serves every part: the sentinels that the
-- code compares against, and `other` for those that carry only a text.
use Prim.Native.String.{String}
use mathlib.Core.Path.{◌≡◌, refl, ap, subst}
use mathlib.Core.Logic.{◌≢◌, ◌⊎◌, inl, inr}

pub data Error : Type 0 where
  not_authorized expired payload_mismatch stale_generation : Error
  version_conflict no_principal canceled : Error
  schedule_not_found schedule_invalid not_due : Error
  owner_denied unknown_tool tool_step_limit context_too_large duplicate_tool : Error
  finance_invalid images_unsupported unsupported_input : Error
  other : String → Error

pub data Result {ℓ} (A : Type ℓ) : Type ℓ where
  ok : A → Result A
  err : Error → Result A

infixl 5 ◌>>=◌
-- The early return on an error that is not nil.
abbrev pub ◌>>=◌ {ℓ κ} : {A : Type ℓ} {B : Type κ} → Result A → (A → Result B) → Result B
err failure >>= next = err failure
ok value >>= next = next value

pub Result-cases {ℓ} :
    {A : Type ℓ} (r : Result A) → ((a : A) × (r ≡ ok a)) ⊎ ((e : Error) × (r ≡ err e))
Result-cases (ok a) = inl (a, refl)
Result-cases (err e) = inr (e, refl)

pub ok-injective : {A : Type 0} (a b : A) → ok a ≡ ok b → a ≡ b
ok-injective a b e = ap (λ r. elim r [ ok x ↦ x | err _ ↦ a ]) e

-- The value of one result where another error stands.
err-not-ok {ℓ} : {A : Type ℓ} (e : Error) (a : A) → err e ≢ ok a
err-not-ok e a h = subst (λ r. elim r [ ok _ ↦ ⊥ | err _ ↦ Unit {0} ]) h tt

-- What a chain of two steps without an error went through.
pub bind-ok {ℓ} :
    {A B : Type ℓ} (m : Result A) (f : A → Result B) (b : B)
    → (m >>= f) ≡ ok b
    → (a : A) × ((m ≡ ok a) × (f a ≡ ok b))
bind-ok (ok a) f b h = (a, (refl, h))
bind-ok (err e) f b h = absurd (err-not-ok e b h)
