-- ===== src/LogWorker/Files.antt =====
-- From the rings to the CSV files: what the decoder makes of the files that the log worker wrote.
use Prim.Native.String.{String}
use stm32_board.BinaryLog.Unremoved.{Unremoved}
