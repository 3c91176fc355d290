-- ===== src/System/Shutdown/Ends.antt =====
-- The program ends once the stop flag is set, unless the receive thread's read never returns.
use stm32_board.Base.{List, [], ◌∷◌}
use stm32_board.System.Shutdown.{Action, main_acts}

abbrev pub six_steps : List Action
six_steps = main_acts ∷ main_acts ∷ main_acts ∷ main_acts ∷ main_acts ∷ main_acts ∷ []
