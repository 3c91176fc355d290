-- ===== src/Logger/Stream.antt =====
-- cpp_gateway/src/utils/logger.cpp: `LogStream`, which logs what is written to it, and the directory of
-- the files.
use Prim.Native.String.{String, ◌++◌ as ◌<>◌}
use stm32_board.Base.{◌≡◌, refl, ap, ◌∙◌, List, [], ◌∷◌, Bool, true, false, if◌then◌else◌}
use stm32_board.Logger.{Level, Logger, trace, warning, ensure_initialized}

pub record LogStream : Type 0 where
  pub level : Level
  pub text : String
  pub active : Bool

unfoldable pub log_stream : Level → LogStream
log_stream level = record { level = level; text = ""; active = true }

-- `operator<<` of a value, whose text is the library's.
unfoldable pub append_text : String → LogStream → LogStream
append_text t s = record s { text = s.text <> t }

-- `LogStream(LogStream&&)`: the new object, and the old one.
unfoldable pub move_stream : LogStream → LogStream × LogStream
move_stream s = (s, record s { text = ""; active = false })

-- The level has its own name. `is_blank` is whether the directory is empty or only space.
module _ (context : String → String) (date : String) where
  unfoldable pub commit : LogStream → Logger → LogStream × Logger
  commit s lg =
      if s.active
      then (
        record s { active = false },
        trace date (record { level = s.level; message = context s.text }) lg,
      )
      else (s, lg)

  -- `~LogStream()`
  unfoldable pub destroy_stream : LogStream → Logger → Logger
  destroy_stream s lg = (commit s lg).1

  unfoldable pub set_logs_dir : Bool → String → Logger → Logger
  set_logs_dir is_blank dir lg =
      if is_blank
      then trace date (warning (context "Invalid log directory path")) lg
      else ensure_initialized date (record lg { log_dir = dir; initialized = false })

  -- What a caller does with a stream: it writes, commits, or moves it on, whereby the old object is
  -- destroyed.
  pub data Use : Type 0 where
    writes : String → Use
    commits moves : Use

  abbrev pub used : List Use → LogStream → Logger → Logger
  used [] s lg = destroy_stream s lg
  used (writes t ∷ uses) s lg = used uses (append_text t s) lg
  used (commits ∷ uses) s lg = used uses (commit s lg).0 (commit s lg).1
  used (moves ∷ uses) s lg = used uses (move_stream s).0 (destroy_stream (move_stream s).1 lg)

  -- What is written before the first commit, behind `text`.
  abbrev pub said : String → List Use → String
  said text [] = text
  said text (writes t ∷ uses) = said (text <> t) uses
  said text (commits ∷ uses) = text
  said text (moves ∷ uses) = said text uses

  commit_spent : (s : LogStream) (lg : Logger) → s.active ≡ false → commit s lg ≡ (s, lg)
  unfolding commit
  commit_spent s lg h = simp h refl

  commit_active :
      (s : LogStream) (lg : Logger)
      → s.active ≡ true
      → commit s lg ≡ (
        record s { active = false },
        trace date (record { level = s.level; message = context s.text }) lg,
      )
  unfolding commit
  commit_active s lg h = simp h refl

  spent : (uses : List Use) (s : LogStream) (lg : Logger) → s.active ≡ false → used uses s lg ≡ lg
  unfolding destroy_stream append_text move_stream
  spent [] s lg h = ap (λ (p : LogStream × Logger). p.1) (commit_spent s lg h)
  spent (writes t ∷ uses) s lg h = spent uses (append_text t s) lg h
  spent (commits ∷ uses) s lg h =
      ap (λ (p : LogStream × Logger). used uses p.0 p.1) (commit_spent s lg h) ∙ spent uses s lg h
  spent (moves ∷ uses) s lg h =
      ap (λ (p : LogStream × Logger). used uses s p.1)
        (commit_spent (record s { text = ""; active = false }) lg refl)
      ∙ spent uses s lg h

  -- A stream logs one message exactly, with what is written to it before its first commit, whatever is
  -- done with it: written, moved, committed again, and destroyed at the end.
  pub used_once :
      (uses : List Use) (s : LogStream) (lg : Logger)
      → s.active ≡ true
      → used uses s lg
        ≡ trace date (record { level = s.level; message = context (said s.text uses) }) lg
  unfolding destroy_stream append_text move_stream
  used_once [] s lg h = ap (λ (p : LogStream × Logger). p.1) (commit_active s lg h)
  used_once (writes t ∷ uses) s lg h = used_once uses (append_text t s) lg h
  used_once (commits ∷ uses) s lg h =
      ap (λ (p : LogStream × Logger). used uses p.0 p.1) (commit_active s lg h)
      ∙ (spent uses (record s { active = false })
          (trace date (record { level = s.level; message = context s.text }) lg) refl)
  used_once (moves ∷ uses) s lg h =
      ap (λ (p : LogStream × Logger). used uses s p.1)
        (commit_spent (record s { text = ""; active = false }) lg refl)
      ∙ used_once uses s lg h
