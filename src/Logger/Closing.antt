-- ===== src/Logger/Closing.antt =====
-- What is in the files when the logger has been closed, and what comes there afterwards.
use Prim.Native.String.{String}
use stm32_board.Base.{ℕ, ◌≡◌, refl, ap, ◌∙◌, List, [], ◌∷◌, Bool, true, false, inl, inr, arith, ◌⊎◌}
use stm32_board.Logger.{
  LogItem, Logger, ensure_initialized, print_item, trace, Worker, not_started, running, joined,
  start_worker_if_needed, join_worker, close, worker_loop, signal_stop,
}
use stm32_board.Logger.Delivery.{trace_all}

-- A worker that runs; or none yet, and then nothing waits for it and the next message starts it.
abbrev pub Manned : Logger → Type 0
Manned lg =
    (lg.worker ≡ running) ⊎ ((lg.worker ≡ not_started) × (lg.initialized ≡ false) × (lg.queue ≡ []))

join_idle :
    (w : Worker) (run : Bool × Logger) (lg : Logger)
    → (w ≡ not_started) ⊎ (w ≡ joined)
    → join_worker w run lg ≡ (true, lg)
unfolding join_worker
join_idle not_started run lg e = refl
join_idle running run lg (inl e) = cc
join_idle running run lg (inr e) = cc
join_idle joined run lg e = refl

trace-joined :
    (date : String) (item : LogItem) (lg : Logger)
    → lg.worker ≡ joined
    → ((trace date item lg).worker ≡ joined) × ((trace date item lg).lines ≡ lg.lines)
unfolding trace print_item ensure_initialized start_worker_if_needed
trace-joined date item lg j = ground (arith, j)

-- A logger whose worker has been joined writes nothing more: whatever is logged then and closed again,
-- no line is added, since the worker is not started a second time.
pub close-closed :
    (join : String → String → String) (can_open : String → Bool) (date : String)
    (items : List LogItem) (lg : Logger) (n : ℕ)
    → lg.worker ≡ joined
    → (close join can_open date n (trace_all date items lg)).1.lines ≡ lg.lines
unfolding trace_all close
close-closed join can_open date [] lg n j =
    ap (λ (r : Bool × Logger). r.1.lines)
      (join_idle lg.worker (worker_loop join can_open date n (signal_stop lg)) (signal_stop lg)
        (inr j))
close-closed join can_open date (item ∷ items) lg n j =
    let (j', same) = trace-joined date item lg j in
    close-closed join can_open date items (trace date item lg) n j' ∙ same
