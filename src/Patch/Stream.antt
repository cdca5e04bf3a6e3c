-- ===== src/Patch/Stream.antt =====
-- patch_service.cpp: `patch_preview_stream`, which hands a preview's diff to a consumer in chunks.
pub mod Chunks
use ai_editor.Prelude.{
  ℕ, zero, suc, ◌+◌, ◌*◌, ◌-◌, min, Bool, true, false, not, List, [], ◌∷◌, Option, none, some,
  length, take, drop, ltb, ◌==◌, if◌then◌else◌,
}
use ai_editor.Text.{Bytes, codes}
use ai_editor.Outcome.{Outcome, ok, err}
use ai_editor.Disk.Action.{Exec, pure, ◌>>=◌}
use ai_editor.Disk.{Host}
use ai_editor.Patch.Base.{PatchBase}
use ai_editor.Patch.Store.{Settings}
use ai_editor.Patch.Preview.{PatchPreviewResult, patch_preview}
use mathlib.Core.Option

-- What the caller gives: the size of a chunk, and by the number of the chunk whether the request is
-- cancelled before it, whether the time is up before and after its delay, and whether the consumer
-- goes on after it.
pub record StreamOptions : Type 0 where
  pub chunk_bytes : ℕ
  pub cancel_requested : ℕ → Bool
  pub expired_before : ℕ → Bool
  pub expired_after : ℕ → Bool
  pub on_chunk : ℕ → Bytes → Bool

pub data StreamEnd : Type 0 where
  completed cancelled timed_out consumer_cancelled : StreamEnd

-- The parts that were handed to the consumer, how many of them it took, and how the stream ended.
pub record Streamed : Type 0 where
  pub parts : List Bytes
  pub chunk_count : ℕ
  pub ending : StreamEnd

abbrev pub chunk_size : StreamOptions → ℕ
chunk_size options = if options.chunk_bytes == 0 then 16 * 1024 else options.chunk_bytes

abbrev pub chunk_at : StreamOptions → Bytes → ℕ → Bytes
chunk_at options diff pos = take (min (chunk_size options) (length diff - pos)) (drop pos diff)

abbrev ended : StreamEnd → Option Streamed
ended how = some (record { parts = []; chunk_count = 0; ending = how })

abbrev pub taken : Bytes → Streamed → Streamed
taken part later = record later { parts = part ∷ later.parts; chunk_count = suc later.chunk_count }

module _ (options : StreamOptions) (diff : Bytes) where
  -- The loop from `pos`, at its `i`-th chunk: none if the fuel runs out.
  unfoldable pub stream_loop : ℕ → ℕ → ℕ → Option Streamed
  stream_loop zero pos i = if ltb pos (length diff) then none else ended completed
  stream_loop (suc fuel) pos i =
      let later = stream_loop fuel (pos + chunk_size options) (suc i) in
      let part = chunk_at options diff pos in
      if not (ltb pos (length diff))
      then ended completed
      else if options.cancel_requested i
      then ended cancelled
      else if options.expired_before i
      then ended timed_out
      else if options.expired_after i
      then ended timed_out
      else if not (options.on_chunk i part)
      then some (record { parts = part ∷ []; chunk_count = 0; ending = consumer_cancelled })
      else Option.map (taken part) later

  -- One round for each byte is enough.
  unfoldable pub stream_diff : Option Streamed
  unfolding stream_loop
  stream_diff = stream_loop (length diff) 0 0

-- The preview, and how its diff was streamed.
unfoldable pub patch_preview_stream :
    Host
    → Settings
    → Bytes
    → Bytes
    → PatchBase
    → StreamOptions
    → Exec (PatchPreviewResult × Option Streamed)
unfolding patch_preview stream_diff
patch_preview_stream host settings requested_path new_content base options = do
  preview ← patch_preview host settings requested_path new_content base
  pure (preview, stream_diff options preview.diff)
