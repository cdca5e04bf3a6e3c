-- ===== src/Disk/Keeps.antt =====
-- Calls that leave the file at a path as it is, whether they succeed or fail: one rule for each way
-- to build a call, and one for each operation on the disk.
use ai_editor.Prelude.{
  ◌≡◌, refl, ap, ◌∙◌, Bool, true, false, List, none, some, if◌then◌else◌, arith,
}
use ai_editor.Text.{Bytes, str_eq}
use ai_editor.Outcome.{Outcome, ok, err}
use ai_editor.Disk.{
  Host, exists_or_throw, read_file, slurp_text, write_text, write_unchecked, append_text,
  remove_path, rename_path, create_directories, current_timestamp, current_timestamp_ms,
  last_write_time,
}
use ai_editor.Disk.Action.{Exec, World, File, pure, fail, lift, attempt, continue, ◌>>=◌}
use ai_editor.Disk.Files.{
  find_file, put_file, remove_file, find_file-put_file, find_file-remove_file,
}

abbrev pub FileKept : Bytes → World → World → Type 0
FileKept q w w' = find_file q w'.files ≡ find_file q w.files

pub record Keeps {A : Type 0} (q : Bytes) (m : Exec A) : Type 0 where
  pub at : (w : World) → FileKept q w (m w).1

module _ {A B : Type 0} {q : Bytes} where
  pub Keeps-continue :
      (o : Outcome A) (f : A → Exec B) (w : World)
      → ((a : A) → Keeps q (f a))
      → FileKept q w (continue o f w).1
  Keeps-continue (ok a) f w k = (k a).at w
  Keeps-continue (err e) f w k = refl

  pub Keeps-bind :
      {m : Exec A} {f : A → Exec B} → Keeps q m → ((a : A) → Keeps q (f a)) → Keeps q (m >>= f)
  Keeps-bind {m} {f} km kf = record { at = λ w. Keeps-continue (m w).0 f (m w).1 kf ∙ km.at w }

  Keeps-continue_with :
      (o : Outcome A) (f : A → Exec B) (w : World)
      → ((a : A) → o ≡ ok a → Keeps q (f a))
      → FileKept q w (continue o f w).1
  Keeps-continue_with (ok a) f w k = (k a refl).at w
  Keeps-continue_with (err e) f w k = refl

  -- As `Keeps-bind`, where the rest of the block may use what the first part returned.
  pub Keeps-bind_with :
      {m : Exec A} {f : A → Exec B}
      → Keeps q m
      → ((w : World) (a : A) → (m w).0 ≡ ok a → Keeps q (f a))
      → Keeps q (m >>= f)
  Keeps-bind_with {m} {f} km kf = record {
    at = λ w. Keeps-continue_with (m w).0 f (m w).1 (kf w) ∙ km.at w;
  }

  -- The same from one disk on.
  pub FileKept-bind :
      {m : Exec A} {f : A → Exec B} (w : World)
      → Keeps q m
      → ((a : A) → (m w).0 ≡ ok a → Keeps q (f a))
      → FileKept q w ((m >>= f) w).1
  FileKept-bind {m} {f} w km kf = Keeps-continue_with (m w).0 f (m w).1 kf ∙ km.at w

module _ {A : Type 0} {q : Bytes} where
  pub Keeps-pure : {a : A} → Keeps q (pure a)
  Keeps-pure = record { at = λ w. refl }

  pub Keeps-fail : {e : Bytes} → Keeps {A = A} q (fail e)
  Keeps-fail = record { at = λ w. refl }

  pub Keeps-lift : {r : Outcome A} → Keeps q (lift r)
  Keeps-lift = record { at = λ w. refl }

  pub Keeps-attempt : {m : Exec A} → Keeps q m → Keeps q (attempt m)
  Keeps-attempt km = record { at = λ w. km.at w }

  -- A call that looks at the disk before it decides what to do.
  pub Keeps-look : {f : World → Exec A} → ((w : World) → Keeps q (f w)) → Keeps q (λ w. f w w)
  Keeps-look kf = record { at = λ w. (kf w).at w }

  pub Keeps-choose :
      (b : World → Bool) {m n : Exec A}
      → Keeps q m
      → Keeps q n
      → Keeps q (λ w. if b w then m w else n w)
  Keeps-choose b {m} {n} km kn = record {
    at = λ w. elim (b w) as (λ x. FileKept q w (if x then m w else n w).1) [
      | true ↦ km.at w
      | false ↦ kn.at w
    ];
  }

  pub Keeps-if : (b : Bool) {m n : Exec A} → Keeps q m → Keeps q n → Keeps q (if b then m else n)
  Keeps-if true km kn = km
  Keeps-if false km kn = kn

module _ (host : Host) (q : Bytes) where
  pub Keeps-slurp_text : (p : Bytes) → Keeps q (slurp_text host p)
  unfolding slurp_text read_file
  Keeps-slurp_text p = record { at = λ w. ground arith }

  pub Keeps-read_file : (p : Bytes) (w : World) → FileKept q w (read_file host p w).1
  unfolding read_file
  Keeps-read_file p w = ground arith

  pub Keeps-exists_or_throw : (p : Bytes) → Keeps q (exists_or_throw host p)
  unfolding exists_or_throw
  Keeps-exists_or_throw p = record { at = λ w. ground arith }

  pub Keeps-current_timestamp : Keeps q (current_timestamp host)
  unfolding current_timestamp
  Keeps-current_timestamp = record { at = λ w. refl }

  pub Keeps-current_timestamp_ms : Keeps q (current_timestamp_ms host)
  unfolding current_timestamp_ms
  Keeps-current_timestamp_ms = record { at = λ w. refl }

  pub Keeps-create_directories : (p : Bytes) → Keeps q (create_directories host p)
  unfolding create_directories
  Keeps-create_directories p = record { at = λ w. ground arith }

  pub Keeps-last_write_time : (p : Bytes) → Keeps q (last_write_time host p)
  unfolding last_write_time
  Keeps-last_write_time p = record { at = λ w. ground arith }

  find_file-stored :
      (p : Bytes) (f : File) (w : World)
      → str_eq p q ≡ false
      → find_file q (put_file p f w.files) ≡ find_file q w.files
  find_file-stored p f w e =
      find_file-put_file p q f w.files ∙ ap (λ b. if b then some f else find_file q w.files) e

  pub Keeps-write_text : (p text : Bytes) → str_eq p q ≡ false → Keeps q (write_text host p text)
  unfolding write_text
  Keeps-write_text p text e = record { at = λ w. grind (arith, find_file-stored p) }

  pub Keeps-write_unchecked :
      (p text message : Bytes) → str_eq p q ≡ false → Keeps q (write_unchecked host p text message)
  unfolding write_unchecked
  Keeps-write_unchecked p text message e = record { at = λ w. grind (arith, find_file-stored p) }

  pub Keeps-append_text : (p text : Bytes) → str_eq p q ≡ false → Keeps q (append_text host p text)
  unfolding append_text
  Keeps-append_text p text e = record { at = λ w. grind (arith, find_file-stored p) }

  find_file-removed :
      (p : Bytes) (files : List (Bytes × File))
      → str_eq p q ≡ false
      → find_file q (remove_file p files) ≡ find_file q files
  find_file-removed p files e =
      find_file-remove_file p q files ∙ ap (λ b. if b then none else find_file q files) e

  pub Keeps-remove_path : (p : Bytes) → str_eq p q ≡ false → Keeps q (remove_path host p)
  unfolding remove_path
  Keeps-remove_path p e = record { at = λ w. ground (arith, find_file-removed p w.files e) }

  find_file-renamed :
      (from to : Bytes) (f : File) (files : List (Bytes × File))
      → str_eq from q ≡ false
      → str_eq to q ≡ false
      → find_file q (put_file to f (remove_file from files)) ≡ find_file q files
  find_file-renamed from to f files e e' =
      find_file-put_file to q f (remove_file from files)
      ∙ ap (λ b. if b then some f else find_file q (remove_file from files)) e'
      ∙ find_file-removed from files e

  pub Keeps-rename_path :
      (from to : Bytes)
      → str_eq from q ≡ false
      → str_eq to q ≡ false
      → Keeps q (rename_path host from to)
  unfolding rename_path
  Keeps-rename_path from to e e' = record { at = λ w. grind (arith, find_file-renamed from to) }
