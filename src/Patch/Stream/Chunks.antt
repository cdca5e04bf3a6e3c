-- ===== src/Patch/Stream/Chunks.antt =====
-- What the consumer of a streamed diff is given.
use ai_editor.Prelude.{
  if◌then◌else◌, ℕ, zero, suc, ◌+◌, ◌≤◌, ◌<◌, min, ◌≡◌, refl, sym, ap, ◌∙◌, arith, Bool, true,
  false, not, List, [], ◌∷◌, ◌++◌, append-nil, append_assoc, Option, none, some, length, take, drop,
  ltb, take-append-drop, drop-drop, length-drop, Bool-cases, inl, inr,
}
use mathlib.Core.Option
use ai_editor.Text.{Bytes}
use ai_editor.Patch.Stream.{
  StreamOptions, StreamEnd, completed, cancelled, timed_out, consumer_cancelled, Streamed,
  chunk_size, chunk_at, taken, stream_loop, stream_diff, ended,
}

unfoldable pub joined : List Bytes → Bytes
joined [] = []
joined (part ∷ parts) = part ++ joined parts

-- Nobody stops the stream, and the time is never up.
pub record Quiet (options : StreamOptions) : Type 0 where
  pub not_cancelled : (i : ℕ) → options.cancel_requested i ≡ false
  pub in_time : (i : ℕ) → options.expired_before i ≡ false
  pub in_time_after : (i : ℕ) → options.expired_after i ≡ false
  pub accepted : (i : ℕ) (part : Bytes) → options.on_chunk i part ≡ true

-- The stream ends, what was handed over is the front of the text from `pos` on, and all of it if
-- the stream was completed.
abbrev Delivers : Bytes → Option Streamed → Type 0
Delivers text o =
    (s : Streamed) × (o ≡ some s)
    × ((rest : Bytes) × (joined s.parts ++ rest ≡ text))
    × (s.ending ≡ completed → joined s.parts ≡ text)

module _ (options : StreamOptions) (diff : Bytes) where
  chunk_positive : 0 < chunk_size options
  chunk_positive = ground arith

  drop-past : (k : ℕ) (t : Bytes) → length t ≤ k → drop k t ≡ []
  drop-past zero [] l = refl
  drop-past zero (c ∷ t) l = absurd (omega arith)
  drop-past (suc k) [] l = refl
  drop-past (suc k) (c ∷ t) l = drop-past k t (omega arith)

  take-min : (n : ℕ) (t : Bytes) → take (min n (length t)) t ≡ take n t
  take-min zero t = ap (λ k. take k t) {x = min 0 (length t)} {y = 0} (omega arith)
  take-min (suc n) [] = ap (λ k. take k []) {x = min (suc n) 0} {y = 0} (omega arith)
  take-min (suc n) (c ∷ t) =
      ap (λ k. take k (c ∷ t)) {x = min (suc n) (suc (length t))} {y = suc (min n (length t))}
        (omega arith)
      ∙ ap (λ l. c ∷ l) (take-min n t)

  -- A chunk and what is behind it.
  chunk_at-rest :
      (pos : ℕ) → chunk_at options diff pos ++ drop (pos + chunk_size options) diff ≡ drop pos diff
  chunk_at-rest pos =
      let n = chunk_size options in
      let t = drop pos diff in
      ap (λ k. take (min n k) t ++ drop (pos + n) diff) (sym (length-drop pos diff))
      ∙ ap (λ l. l ++ drop (pos + n) diff) (take-min n t)
      ∙ ap (λ l. take n t ++ l) (sym (drop-drop pos n diff))
      ∙ take-append-drop n t

  Delivers-end :
      (pos : ℕ) (how : StreamEnd)
      → (how ≡ completed → drop pos diff ≡ [])
      → Delivers (drop pos diff) (ended how)
  unfolding joined
  Delivers-end pos how k = (
    record { parts = []; chunk_count = 0; ending = how },
    refl,
    (drop pos diff, refl),
    λ e. sym (k e),
  )

  Delivers-refused :
      (pos : ℕ)
      → Delivers (drop pos diff) (
          some (record {
            parts = chunk_at options diff pos ∷ [];
            chunk_count = 0;
            ending = consumer_cancelled;
          }))
  unfolding joined
  Delivers-refused pos =
      let part = chunk_at options diff pos in
      (
        record { parts = part ∷ []; chunk_count = 0; ending = consumer_cancelled },
        refl,
        (
          drop (pos + chunk_size options) diff,
          ap (λ l. l ++ drop (pos + chunk_size options) diff) (append-nil part) ∙ chunk_at-rest pos,
        ),
        λ e. absurd (ground arith),
      )

  Delivers-taken :
      (pos : ℕ) (o : Option Streamed)
      → Delivers (drop (pos + chunk_size options) diff) o
      → Delivers (drop pos diff) (Option.map (taken (chunk_at options diff pos)) o)
  unfolding joined
  Delivers-taken pos o (s, e, (rest, r), all) =
      let part = chunk_at options diff pos in
      (
        taken part s,
        ap (Option.map (taken part)) e,
        (rest, append_assoc part (joined s.parts) rest ∙ ap (λ l. part ++ l) r ∙ chunk_at-rest pos),
        λ h. ap (λ l. part ++ l) (all h) ∙ chunk_at-rest pos,
      )

  Delivers-if :
      (text : Bytes) (b : Bool) (x y : Option Streamed)
      → (b ≡ true → Delivers text x)
      → (b ≡ false → Delivers text y)
      → Delivers text (if b then x else y)
  Delivers-if text true x y dx dy = dx refl
  Delivers-if text false x y dx dy = dy refl

  Delivers-stream_loop :
      (fuel pos i : ℕ)
      → length diff ≤ pos + fuel
      → Delivers (drop pos diff) (stream_loop options diff fuel pos i)
  unfolding stream_loop
  Delivers-stream_loop zero pos i l =
      Delivers-if (drop pos diff) (ltb pos (length diff)) none (ended completed)
        (λ e. absurd (ground arith))
        (λ e. Delivers-end pos completed (λ _. drop-past pos diff (omega arith)))
  Delivers-stream_loop (suc fuel) pos i l =
      let text = drop pos diff in
      let later = stream_loop options diff fuel (pos + chunk_size options) (suc i) in
      let part = chunk_at options diff pos in
      let refused : Option Streamed =
        some (record { parts = part ∷ []; chunk_count = 0; ending = consumer_cancelled }) in
      let next : Option Streamed = Option.map (taken part) later in
      let after : Option Streamed = if not (options.on_chunk i part) then refused else next in
      let late : Option Streamed = if options.expired_after i then ended timed_out else after in
      let early : Option Streamed = if options.expired_before i then ended timed_out else late in
      Delivers-if text (not (ltb pos (length diff))) (ended completed)
        (if options.cancel_requested i then ended cancelled else early)
        (λ e. Delivers-end pos completed (λ _. drop-past pos diff (ground arith)))
        (λ e.
          Delivers-if text (options.cancel_requested i) (ended cancelled) early
            (λ _. Delivers-end pos cancelled (λ h. absurd (ground arith)))
            (λ _.
              Delivers-if text (options.expired_before i) (ended timed_out) late
                (λ _. Delivers-end pos timed_out (λ h. absurd (ground arith)))
                (λ _.
                  Delivers-if text (options.expired_after i) (ended timed_out) after
                    (λ _. Delivers-end pos timed_out (λ h. absurd (ground arith)))
                    (λ _.
                      Delivers-if text (not (options.on_chunk i part)) refused next
                        (λ _. Delivers-refused pos)
                        (λ _. Delivers-taken pos later (
                          Delivers-stream_loop fuel (pos + chunk_size options) (suc i)
                            (omega (arith, chunk_positive))))))))

  ending-taken :
      (part : Bytes) (o : Option Streamed)
      → Option.map (λ s. s.ending) (Option.map (taken part) o) ≡ Option.map (λ s. s.ending) o
  ending-taken part none = refl
  ending-taken part (some s) = refl

  stream_loop_ends :
      Quiet options
      → (fuel pos i : ℕ) → length diff ≤ pos + fuel
      → Option.map (λ s. s.ending) (stream_loop options diff fuel pos i) ≡ some completed
  unfolding stream_loop
  stream_loop_ends quiet zero pos i l = ground arith
  stream_loop_ends quiet (suc fuel) pos i l =
      let part = chunk_at options diff pos in
      let later = stream_loop options diff fuel (pos + chunk_size options) (suc i) in
      let go =
        stream_loop_ends quiet fuel (pos + chunk_size options) (suc i)
          (omega (arith, chunk_positive)) in
      elim (Bool-cases (ltb pos (length diff))) [
        | inl e ↦
            rw
              (
                e,
                quiet.not_cancelled i,
                quiet.in_time i,
                quiet.in_time_after i,
                quiet.accepted i part,
                stream_loop,
              )
              (ending-taken part later ∙ go)
        | inr e ↦ rw (e, stream_loop) refl
      ]

-- Streaming a diff ends after at most one round for each byte; the parts that were handed to the
-- consumer, one after the other, are the front of the diff, and the whole diff if the stream was
-- completed.
pub stream_diff-delivers :
    (options : StreamOptions) (diff : Bytes)
    → (s : Streamed) × (stream_diff options diff ≡ some s)
      × ((rest : Bytes) × (joined s.parts ++ rest ≡ diff))
      × (s.ending ≡ completed → joined s.parts ≡ diff)
unfolding stream_diff
stream_diff-delivers options diff =
    Delivers-stream_loop options diff (length diff) 0 0 (omega arith)

stream_diff_ends :
    (options : StreamOptions) (diff : Bytes)
    → Quiet options
    → Option.map (λ s. s.ending) (stream_diff options diff) ≡ some completed
unfolding stream_diff
stream_diff_ends options diff quiet =
    stream_loop_ends options diff quiet (length diff) 0 0 (omega arith)

-- A stream that nobody stops and whose time is never up is completed.
pub stream_diff-completes :
    (options : StreamOptions) (diff : Bytes)
    → Quiet options
    → (s : Streamed) × (stream_diff options diff ≡ some s)
      × (s.ending ≡ completed)
      × (joined s.parts ≡ diff)
stream_diff-completes options diff quiet =
    let (s, e, rest, all) = stream_diff-delivers options diff in
    let h = ap (Option.map (λ s. s.ending)) (sym e) ∙ stream_diff_ends options diff quiet in
    let done : s.ending ≡ completed = ground arith in (s, e, done, all done)
