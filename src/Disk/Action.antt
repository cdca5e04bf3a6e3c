-- ===== src/Disk/Action.antt =====
-- Operations that read and change the disk and may fail with a text. What was written before a
-- failure stays written, so the disk comes back beside the error too.
use ai_editor.Prelude.{ℕ, Bool, List, if◌then◌else◌, ◌≡◌, refl, sym, ap}
use ai_editor.Text.{Bytes}
use ai_editor.Text.Decimal.{ℤ}
use ai_editor.Outcome.{Outcome, ok, err, ok≢err}

pub record File : Type 0 where
  pub content : Bytes
  pub mtime : ℤ

pub record World : Type 0 where
  pub files : List (Bytes × File)
  pub step : ℕ

abbrev pub Exec {ℓ} : Type ℓ → Type ℓ
Exec A = World → Outcome A × World

abbrev pub pure {ℓ} : {A : Type ℓ} → A → Exec A
pure a w = (ok a, w)

abbrev pub fail {ℓ} : {A : Type ℓ} → Bytes → Exec A
fail e w = (err e, w)

abbrev pub lift {ℓ} : {A : Type ℓ} → Outcome A → Exec A
lift r w = (r, w)

abbrev pub continue {ℓ κ} :
    {A : Type ℓ} {B : Type κ}
    → Outcome A
    → (A → World → Outcome B × World)
    → World
    → Outcome B × World
continue (ok a) f w = f a w
continue (err e) f w = (err e, w)

infixl 5 ◌>>=◌ ◌>>◌
abbrev pub ◌>>=◌ {ℓ} : {A B : Type ℓ} → Exec A → (A → Exec B) → Exec B
◌>>=◌ m f w = let (r, w') = m w in continue r f w'

abbrev pub ◌>>◌ {ℓ} : {A B : Type ℓ} → Exec A → Exec B → Exec B
m >> n = m >>= λ _. n

-- A call whose error is not looked at.
abbrev pub attempt {ℓ} : {A : Type ℓ} → Exec A → Exec (Unit {ℓ})
attempt m w = (ok tt, (m w).1)

-- An early return with an error, unless the condition holds.
abbrev pub require : Bool → Bytes → Exec (Unit {0})
require b e = if b then pure tt else fail e

-- A chain that succeeds has succeeded in its first part, and then in its second.
pub continue-ok {ℓ κ} :
    {A : Type ℓ} {B : Type κ} (o : Outcome A) (f : A → World → Outcome B × World) (w w' : World)
    (b : B)
    → continue o f w ≡ (ok b, w')
    → (a : A) × (o ≡ ok a) × (f a w ≡ (ok b, w'))
continue-ok (ok a) f w w' b h = (a, refl, h)
continue-ok (err e) f w w' b h = absurd (ok≢err (sym (ap (λ p. p.0) h)))
