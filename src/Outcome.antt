-- ===== src/Outcome.antt =====
-- The result of an operation that the source gives as `bool` with an `error` text: the error's text,
-- or the value. The operations return as soon as an error is set.
use ai_editor.Prelude.{◌≡◌, refl, sym, Bool, true, false, ◌⊎◌, inl, inr}
use ai_editor.Text.{Bytes}

pub data Outcome {ℓ} (A : Type ℓ) : Type ℓ where
  ok : A → Outcome A
  err : Bytes → Outcome A

infixl 5 ◌>>=◌
abbrev pub ◌>>=◌ {ℓ κ} : {A : Type ℓ} {B : Type κ} → Outcome A → (A → Outcome B) → Outcome B
ok a >>= f = f a
err e >>= f = err e

-- The `ok` flag of a result.
abbrev pub is_ok {ℓ} : {A : Type ℓ} → Outcome A → Bool
is_ok (ok a) = true
is_ok (err e) = false

pub Outcome-cases {ℓ} :
    {A : Type ℓ} (o : Outcome A) → ((a : A) × (o ≡ ok a)) ⊎ ((e : Bytes) × (o ≡ err e))
Outcome-cases (ok a) = inl (a, refl)
Outcome-cases (err e) = inr (e, refl)

pub ok≢err {ℓ} : {A : Type ℓ} {a : A} {e : Bytes} → ok a ≡ err e → ⊥
ok≢err h = cc

pub ok-injective {ℓ} : {A : Type ℓ} {a b : A} → ok a ≡ ok b → a ≡ b
ok-injective h = cc

abbrev pub map_ok {ℓ κ} : {A : Type ℓ} {B : Type κ} → (A → B) → Outcome A → Outcome B
map_ok f (ok a) = ok (f a)
map_ok f (err e) = err e

pub map_ok-ok {ℓ κ} :
    {A : Type ℓ} {B : Type κ} (f : A → B) (o : Outcome A) (b : B)
    → map_ok f o ≡ ok b
    → (a : A) × (o ≡ ok a) × (b ≡ f a)
map_ok-ok f (ok a) b h = (a, refl, ok-injective (sym h))
map_ok-ok f (err e) b h = absurd (ok≢err (sym h))
