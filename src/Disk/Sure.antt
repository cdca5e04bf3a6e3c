-- ===== src/Disk/Sure.antt =====
-- Calls that succeed where no call of the system fails, and calls that leave a file with given bytes.
use ai_editor.Prelude.{arith, ℕ, ◌≡◌, refl, ap, ◌∙◌}
use ai_editor.Text.{Bytes}
use ai_editor.Outcome.{Outcome, ok, err}
use ai_editor.Disk.{Host, no_fault, content_of, create_directories, write_unchecked}
use ai_editor.Disk.Action.{Exec, World, pure, continue, ◌>>=◌}
use ai_editor.Disk.Keeps.{Keeps, FileKept}

-- No call of the system fails.
abbrev pub NoFaults : Host → Type 0
NoFaults host = (n : ℕ) → host.fault n ≡ no_fault

pub record Succeeds {A : Type 0} (m : Exec A) : Type 0 where
  pub at : (w : World) → (a : A) × ((m w).0 ≡ ok a)

-- The call leaves the file with these bytes, whatever it returns.
pub record Leaves {A : Type 0} (q bytes : Bytes) (m : Exec A) : Type 0 where
  pub at : (w : World) → content_of q (m w).1 ≡ bytes

pub content_of-kept :
    (q : Bytes) (w w' : World) → FileKept q w w' → content_of q w' ≡ content_of q w
unfolding content_of
content_of-kept q w w' e = rw (e, content_of)

module _ {A B : Type 0} where
  Succeeds-continue :
      (o : Outcome A) (f : A → Exec B) (w : World) (a : A)
      → o ≡ ok a
      → Succeeds (f a)
      → (b : B) × ((continue o f w).0 ≡ ok b)
  Succeeds-continue o f w a e k = let (b, done) = k.at w in (b, rw e done)

  pub Succeeds-bind :
      {m : Exec A} {f : A → Exec B} → Succeeds m → ((a : A) → Succeeds (f a)) → Succeeds (m >>= f)
  Succeeds-bind {m} {f} sm sf = record {
    at = λ w. let (a, e) = sm.at w in Succeeds-continue (m w).0 f (m w).1 a e (sf a);
  }

  -- The bytes are written by what follows a call that succeeds.
  pub Leaves-later :
      {q bytes : Bytes} {m : Exec A} {f : A → Exec B}
      → Succeeds m
      → ((a : A) → Leaves q bytes (f a))
      → Leaves q bytes (m >>= f)
  Leaves-later {q} {bytes} {m} {f} sm lf = record {
    at = λ w.
        let (a, e) = sm.at w in
        ap (λ o. content_of q (continue o f (m w).1).1) e ∙ (lf a).at (m w).1;
  }

  -- The bytes are left as they are by what follows.
  pub Leaves-then :
      {q bytes : Bytes} {m : Exec A} {f : A → Exec B}
      → Leaves q bytes m
      → ((a : A) → Keeps q (f a))
      → Leaves q bytes (m >>= f)
  Leaves-then {q} {bytes} {m} {f} lm kf = record {
    at = λ w. content_of-kept q (m w).1 ((m >>= f) w).1 (kept (m w).0 (m w).1) ∙ lm.at w;
  }
    where
      kept : (o : Outcome A) (w : World) → FileKept q w (continue o f w).1
      kept (ok a) w = (kf a).at w
      kept (err e) w = refl

pub Succeeds-pure : {A : Type 0} {a : A} → Succeeds (pure a)
Succeeds-pure {A} {a} = record { at = λ w. (a, refl) }

module _ (host : Host) (sure : NoFaults host) where
  pub Succeeds-create_directories : (p : Bytes) → Succeeds (create_directories host p)
  unfolding create_directories
  Succeeds-create_directories p = record { at = λ w. (tt, ground (arith, sure w.step)) }

  pub Succeeds-write_unchecked :
      (p text message : Bytes) → Succeeds (write_unchecked host p text message)
  unfolding write_unchecked
  Succeeds-write_unchecked p text message = record { at = λ w. (tt, ground (arith, sure w.step)) }
