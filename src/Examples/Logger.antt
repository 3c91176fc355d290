-- ===== src/Examples/Logger.antt =====
-- A logger that gets three messages and is closed.
use Prim.Native.String.{String, ◌++◌ as ◌<>◌}
use stm32_board.Base.{◌≡◌, refl, List, [], ◌∷◌, ◌++◌, true, some, leb}
use stm32_board.Logger.{
  debug, info, error, LogItem, Logger, fresh_logger, joined, close, first_free, rotate_if_needed,
}
use stm32_board.Logger.Delivery.{trace_all}
use stm32_board.Logger.Closing.{close-closed}

abbrev items : List LogItem
items =
    record { level = info; message = "started" }
    ∷ record { level = debug; message = "detail" }
    ∷ record { level = error; message = "failed" }
    ∷ []

-- Debug messages do not go to the files.
abbrev quiet : Logger
quiet = record fresh_logger { logging_level = 20 }

abbrev join : String → String → String
join dir name = dir <> ("/" <> name)

close-closed_example :
    (close join
      (λ file. true)
      "now"
      4
      (trace_all "now" items (record quiet { worker = joined }))).1.lines
    ≡ []
close-closed_example =
    close-closed join (λ file. true) "now" items (record quiet { worker = joined }) 4 refl

-- A file that is too long gets the first number that is free.
third : rotate_if_needed 100 (some 101) (λ i. leb i 2) ≡ some 3
unfolding rotate_if_needed first_free
third = refl
