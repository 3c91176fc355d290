-- ===== src/LogWorker/Rounds.antt =====
-- Several rounds of the log worker: what they write and what they leave in the rings.
use stm32_board.Base.{
  ℕ, zero, suc, ◌*◌, ◌≡◌, ◌≤◌, refl, sym, ap, ap₂, ◌∙◌, arith, length-drop, List, [], ◌∷◌, ◌++◌,
  length,
}
use stm32_board.Shared.{SharedState}
use stm32_board.BinaryLog.{Os}
use stm32_board.BinaryLog.Rotating.{RotatingBinaryLog}
use stm32_board.BinaryLog.Contents.{LoggedRecord, write_records}
use stm32_board.LogWorker.{log_round, log_rounds}
use stm32_board.LogWorker.Batch.{
  Samples, samples, RingsValid, batch, rest, write_records-append, log_round-batch,
}

-- The records of `n` rounds, and the samples that they leave.
unfoldable pub batches : ℕ → Samples → List LoggedRecord
batches zero q = []
batches (suc n) q = batch q ++ batches n (rest q)

unfoldable pub rest_after : ℕ → Samples → Samples
rest_after zero q = q
rest_after (suc n) q = rest_after n (rest q)

module _ (os : Os) where
  pub log_rounds-batches :
      (n : ℕ) (sh : SharedState) (l : RotatingBinaryLog)
      → RingsValid sh
      → let (sh', l') = log_rounds os n sh l in
        (samples sh' ≡ rest_after n (samples sh))
        × (l' ≡ write_records os (batches n (samples sh)) l)
        × RingsValid sh'
  unfolding log_rounds rest_after batches write_records
  log_rounds-batches zero sh l v = (refl, refl, v)
  log_rounds-batches (suc n) sh l v =
      let (sh', l') = log_round os sh l in
      let (left, wrote, v') = log_round-batch os sh l v in
      let ih = log_rounds-batches n sh' l' v' in
      (
        ih.0 ∙ ap (rest_after n) left,
        ih.1
            ∙ ap₂ (λ q m. write_records os (batches n q) m) left wrote
            ∙ sym (write_records-append os (batch (samples sh)) (batches n (rest (samples sh))) l),
        ih.2,
      )

abbrev pub no_samples : Samples
no_samples = record { states = []; cmds = []; events = []; sys_events = [] }

-- No ring holds more than `n` samples.
pub record AtMost (n : ℕ) (q : Samples) : Type 0 where
  pub states : length q.states ≤ n
  pub cmds : length q.cmds ≤ n
  pub events : length q.events ≤ n
  pub sys_events : length q.sys_events ≤ n

pub nil_of_length : {A : Type 0} (xs : List A) → length xs ≤ 0 → xs ≡ []
nil_of_length [] h = refl
nil_of_length (x ∷ xs) h = absurd (omega arith)

pub rest-AtMost : (n : ℕ) (q : Samples) → AtMost (1024 * suc n) q → AtMost (1024 * n) (rest q)
unfolding rest
rest-AtMost n q h = record {
  states = omega (arith, length-drop 1024 q.states, h.states);
  cmds = omega (arith, length-drop 1024 q.cmds, h.cmds);
  events = omega (arith, length-drop 1024 q.events, h.events);
  sys_events = omega (arith, length-drop 1024 q.sys_events, h.sys_events);
}

rest_after_all : (n : ℕ) (q : Samples) → AtMost (1024 * n) q → rest_after n q ≡ no_samples
unfolding rest_after
rest_after_all zero q h = λ i. record {
  states = nil_of_length q.states (omega (arith, h.states)) i;
  cmds = nil_of_length q.cmds (omega (arith, h.cmds)) i;
  events = nil_of_length q.events (omega (arith, h.events)) i;
  sys_events = nil_of_length q.sys_events (omega (arith, h.sys_events)) i;
}
rest_after_all (suc n) q h = rest_after_all n (rest q) (rest-AtMost n q h)

-- Valid rings of at most 1024 * n samples each that nobody fills are empty after n rounds, whether the
-- log is open or not.
pub log_rounds_drained :
    (os : Os) (n : ℕ) (sh : SharedState) (l : RotatingBinaryLog)
    → RingsValid sh
    → AtMost (1024 * n) (samples sh)
    → samples (log_rounds os n sh l).0 ≡ no_samples
log_rounds_drained os n sh l v h =
    (log_rounds-batches os n sh l v).0 ∙ rest_after_all n (samples sh) h
