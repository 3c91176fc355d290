-- ===== src/Logger/Delivery.antt =====
-- The messages that reach the files.
use Prim.Native.String.{String}
use stm32_board.Base.{
  ℕ, zero, suc, ◌+◌, ◌≤◌, ◌<◌, ◌≡◌, refl, sym, ap, ap₂, ◌+◌, ◌%◌, ◌^◌, ◌∙◌, List, [], ◌∷◌, ◌++◌,
  map, Bool, true, false, leb, length, Bool-cases, inl, inr, if◌then◌else◌, append-nil,
  append_assoc, Option, none, some, arith, ◌==◌, ==_iff,
}
use stm32_board.Logger.{
  level_value, LogItem, Line, Logger, ensure_initialized, print_item, trace, first_free, wrote,
  worker_turn, worker_loop, log_file_for,
}

-- Messages in turn.
unfoldable pub trace_all : String → List LogItem → Logger → Logger
trace_all date [] lg = lg
trace_all date (item ∷ items) lg = trace_all date items (trace date item lg)

-- The messages of a level that goes to the files.
abbrev pub passing : ℕ → List LogItem → List LogItem
passing level [] = []
passing level (item ∷ items) =
    if leb level (level_value item.level) then item ∷ passing level items else passing level items

abbrev pub messages : List Line → List LogItem
messages lines = map (λ l. l.item) lines

-- What one message does to the queue.
pub record Traced (item : LogItem) (lg lg' : Logger) : Type 0 where
  pub queue : lg'.queue ≡ lg.queue ++ passing lg.logging_level (item ∷ [])
  pub lines : lg'.lines ≡ lg.lines
  pub level : lg'.logging_level ≡ lg.logging_level
  pub enabled : lg'.enable_file_logging ≡ lg.enable_file_logging

pub trace-Traced :
    (date : String) (item : LogItem) (lg : Logger)
    → lg.enable_file_logging ≡ true
    → Traced item lg (trace date item lg)
unfolding trace print_item ensure_initialized
trace-Traced date item lg on = ground (arith, on, append-nil lg.queue)

passing-append :
    (level : ℕ) (item : LogItem) (items : List LogItem)
    → passing level (item ∷ []) ++ passing level items ≡ passing level (item ∷ items)
passing-append level item items = elim (Bool-cases (leb level (level_value item.level))) [
  | inl e ↦ rw e refl
  | inr e ↦ rw e refl
]

pub trace_all-queue :
    (date : String) (items : List LogItem) (lg : Logger)
    → lg.enable_file_logging ≡ true
    → let lg' = trace_all date items lg in
      (lg'.queue ≡ lg.queue ++ passing lg.logging_level items) × (lg'.lines ≡ lg.lines)
unfolding trace_all
trace_all-queue date [] lg on = (sym (append-nil lg.queue), refl)
trace_all-queue date (item ∷ items) lg on =
    let t = trace-Traced date item lg on in
    let (queue, lines) = trace_all-queue date items (trace date item lg) (t.enabled ∙ on) in
    (
      queue
          ∙ ap₂ (λ q level. q ++ passing level items) t.queue t.level
          ∙ append_assoc lg.queue (passing lg.logging_level (item ∷ []))
              (passing lg.logging_level items)
          ∙ ap (λ q. lg.queue ++ q) (passing-append lg.logging_level item items),
      lines ∙ t.lines,
    )

messages-append :
    (lines : List Line) (l : Line) → messages (lines ++ l ∷ []) ≡ messages lines ++ l.item ∷ []
messages-append [] l = refl
messages-append (x ∷ lines) l = ap (◌∷◌ x.item) (messages-append lines l)

-- What one turn on a queue that is not empty leads to, if the file opens.
after_turn : (String → String → String) → String → LogItem → List LogItem → Logger → Logger
after_turn join date item queue lg =
    let ready = ensure_initialized date (record lg { queue = queue }) in
    let counter = (lg.msg_counter + 1) % 2 ^ 64 in
    record ready {
      msg_counter = counter;
      lines =
          lg.lines
          ++ record { file = log_file_for join ready item.level; counter = counter; item = item }
            ∷ [];
    }

after_turn-queue :
    (join : String → String → String) (date : String) (item : LogItem) (queue : List LogItem)
    (lg : Logger)
    → let lg' = after_turn join date item queue lg in
      (lg'.queue ≡ queue) × (lg'.stop_signal ≡ lg.stop_signal)
unfolding after_turn ensure_initialized
after_turn-queue join date item queue lg = elim (Bool-cases lg.initialized) [
  | inl e ↦ simp e (refl, refl)
  | inr e ↦ simp e (refl, refl)
]

module _ (join : String → String → String) (can_open : String → Bool)
    (opens : (file : String) → can_open file ≡ true) (date : String) where
  turn_lem :
      (item : LogItem) (queue : List LogItem) (lg : Logger)
      → lg.queue ≡ item ∷ queue
      → worker_turn join can_open date lg ≡ wrote (after_turn join date item queue lg)
  unfolding worker_turn after_turn
  turn_lem item queue lg e = rw (e, opens) refl

  -- Behind the signal, the worker writes the whole queue in order, and ends.
  pub worker_loop-queue :
      (n : ℕ) (queue : List LogItem) (lg : Logger)
      → lg.queue ≡ queue
      → lg.stop_signal ≡ true
      → length queue < n
      → let (ended, lg') = worker_loop join can_open date n lg in
        (ended ≡ true) × (messages lg'.lines ≡ messages lg.lines ++ queue)
  unfolding worker_loop worker_turn after_turn
  worker_loop-queue zero queue lg e stop h = absurd (omega arith)
  worker_loop-queue (suc n) [] lg e stop h =
      rw (e, stop, worker_loop, worker_turn) (refl, sym (append-nil (messages lg.lines)))
  worker_loop-queue (suc n) (item ∷ queue) lg e stop h =
      let lg' = after_turn join date item queue lg in
      let kept = after_turn-queue join date item queue lg in
      let (ended, put) = worker_loop-queue n queue lg' kept.0 (kept.1 ∙ stop) (omega arith) in
      rw (turn_lem item queue lg e, worker_loop)
        (
          ended,
          put
              ∙ ap (λ m. m ++ queue) (messages-append lg.lines _)
              ∙ append_assoc (messages lg.lines) (item ∷ []) queue,
        )

pub passing-le : (level : ℕ) (items : List LogItem) → length (passing level items) ≤ length items
passing-le level [] = omega arith
passing-le level (item ∷ items) = ground (arith, passing-le level items)

-- The search for a free number: no file has it, and all smaller ones from `i` on are taken; or all are.
abbrev pub Found : (ℕ → Bool) → ℕ → ℕ → Option ℕ → Type 0
Found exists n i none = (j : ℕ) → i ≤ j → j < i + n → exists j ≡ true
Found exists n i (some k) =
    (exists k ≡ false) × (i ≤ k) × (k < i + n) × ((j : ℕ) → i ≤ j → j < k → exists j ≡ true)

pub first_free-Found : (exists : ℕ → Bool) (n i : ℕ) → Found exists n i (first_free exists n i)
unfolding first_free
first_free-Found exists zero i = λ j le lt. absurd (omega arith)
first_free-Found exists (suc n) i = elim (Bool-cases (exists i)) [
  | inl e ↦
      rw (e, first_free) (widen (first_free exists n (i + 1)) (first_free-Found exists n (i + 1)) e)
  | inr e ↦ rw (e, first_free) (e, omega arith, omega arith, λ j le lt. absurd (omega arith))
]
  where
    below :
        (top : ℕ)
        → ((j : ℕ) → i + 1 ≤ j → j < top → exists j ≡ true)
        → exists i ≡ true
        → (j : ℕ) → i ≤ j
        → j < top
        → exists j ≡ true
    below top all e j le lt = elim (Bool-cases (j == i)) [
      | inl same ↦ ap exists ((==_iff j i).0 same) ∙ e
      | inr other ↦ all j (ground (arith, le)) lt
    ]

    widen : (o : Option ℕ) → Found exists n (i + 1) o → exists i ≡ true → Found exists (suc n) i o
    widen none all e = λ j le lt. below (i + 1 + n) all e j le (omega arith)
    widen (some k) (free, le, lt, all) e = (free, omega arith, omega arith, below k all e)
