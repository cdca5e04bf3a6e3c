-- ===== src/Disk/Ensures.antt =====
-- What holds of the result of a call, and of the disk that it leaves, when it succeeds.
use ai_editor.Prelude.{◌≡◌, ap}
use mathlib.Core.Path.{subst}
use ai_editor.Outcome.{Outcome, ok, ok-injective}
use ai_editor.Disk.Action.{Exec, World, pure, continue-ok, ◌>>=◌}

pub record Ensures {A : Type 0} (Q : A → World → Type 0) (m : Exec A) : Type 0 where
  pub at : (w w' : World) (a : A) → m w ≡ (ok a, w') → Q a w'

module _ {A B : Type 0} where
  -- The rest of the block may use what is known of the first part's result.
  pub Ensures-bind :
      {P : A → Type 0} {Q : B → World → Type 0} {m : Exec A} {f : A → Exec B}
      → Ensures (λ a w. P a) m
      → ((a : A) → P a → Ensures Q (f a))
      → Ensures Q (m >>= f)
  Ensures-bind {P} {Q} {m} {f} em ef = record {
    at = λ w w' b h.
        let (a, e, h') = continue-ok (m w).0 f (m w).1 w' b h in
        (ef a (em.at w (m w).1 a (λ i. (e i, (m w).1)))).at (m w).1 w' b h';
  }

  -- Nothing is known of the first part.
  pub Ensures-after :
      {Q : B → World → Type 0} {f : A → Exec B} (m : Exec A)
      → ((a : A) → Ensures Q (f a))
      → Ensures Q (m >>= f)
  Ensures-after {Q} {f} m ef = record {
    at = λ w w' b h.
        let (a, e, h') = continue-ok (m w).0 f (m w).1 w' b h in (ef a).at (m w).1 w' b h';
  }

  -- The last call, whose result is turned into the block's.
  pub Ensures-map :
      {P : A → World → Type 0} {Q : B → World → Type 0} {m : Exec A} (g : A → B)
      → Ensures P m
      → ((a : A) (w : World) → P a w → Q (g a) w)
      → Ensures Q (m >>= λ a. pure (g a))
  Ensures-map {P} {Q} {m} g em k = record {
    at = λ w w' b h.
        let (a, e, h') = continue-ok (m w).0 (λ a. pure (g a)) (m w).1 w' b h in
        let p = k a (m w).1 (em.at w (m w).1 a (λ i. (e i, (m w).1))) in
        let same = ok-injective (ap (λ (r : Outcome B × World). r.0) h') in
        subst (λ c. Q c w') same
          (subst (λ v. Q (g a) v) (ap (λ (r : Outcome B × World). r.1) h') p);
  }
