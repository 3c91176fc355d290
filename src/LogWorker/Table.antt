-- ===== src/LogWorker/Table.antt =====
-- The rows that the decoder makes of what some rounds of the log worker write.
use stm32_board.Base.{
  ℕ, zero, suc, ◌*◌, ◌≡◌, refl, sym, ap, ap₂, ◌∙◌, arith, List, [], ◌∷◌, ◌++◌, map, All, take, drop,
  append-nil, append_assoc, take-append-drop,
}
use stm32_board.Shared.{EventSample}
use stm32_board.BinaryLog.SampleBytes.{StateSampleInRange, MotorSampleInRange, EventSampleInRange}
use stm32_board.Decoder.Contents.{decode_all}
use stm32_board.Decoder.Rows.{both, rows, rows-append}
use stm32_board.LogWorker.Batch.{of_state, of_cmd, of_event, Samples, batch, rest}
use stm32_board.LogWorker.Rounds.{batches, AtMost, nil_of_length, rest-AtMost}
use stm32_board.LogWorker.Rows.{
  state_cells, cmd_cells, event_cells, rows-states, rows-cmds, rows-events,
}

-- The order of the events in the log: by rounds, those of the board before those of the system.
unfoldable pub events_of : ℕ → Samples → List EventSample
events_of zero q = []
events_of (suc n) q = take 1024 q.events ++ (take 1024 q.sys_events ++ events_of n (rest q))

pub record SamplesInRange (q : Samples) : Type 0 where
  pub states : All StateSampleInRange q.states
  pub cmds : All MotorSampleInRange q.cmds
  pub events : All EventSampleInRange q.events
  pub sys_events : All EventSampleInRange q.sys_events

pub All-take-drop :
    {A : Type 0} (P : A → Type 0) (n : ℕ) (xs : List A)
    → All P xs
    → All P (take n xs) × All P (drop n xs)
All-take-drop P zero xs h = (tt, h)
All-take-drop P (suc n) [] h = (tt, tt)
All-take-drop P (suc n) (x ∷ xs) (h, hs) = let (t, d) = All-take-drop P n xs hs in ((h, t), d)

pub rest-InRange : (q : Samples) → SamplesInRange q → SamplesInRange (rest q)
unfolding rest
rest-InRange q h = record {
  states = (All-take-drop StateSampleInRange 1024 q.states h.states).1;
  cmds = (All-take-drop MotorSampleInRange 1024 q.cmds h.cmds).1;
  events = (All-take-drop EventSampleInRange 1024 q.events h.events).1;
  sys_events = (All-take-drop EventSampleInRange 1024 q.sys_events h.sys_events).1;
}

rows-batch :
    (q : Samples)
    → SamplesInRange q
    → rows (batch q) ≡ (
      map state_cells (take 1024 q.states),
      map cmd_cells (take 1024 q.cmds),
      map event_cells (take 1024 q.events) ++ map event_cells (take 1024 q.sys_events),
    )
unfolding batch
rows-batch q h =
    let s = map of_state (take 1024 q.states) in
    let c = map of_cmd (take 1024 q.cmds) in
    let e = map of_event (take 1024 q.events) in
    let x = map of_event (take 1024 q.sys_events) in
    rows-append s (c ++ (e ++ x))
    ∙ ap₂ both
        (rows-states (take 1024 q.states)
          (All-take-drop StateSampleInRange 1024 q.states h.states).0)
        (rows-append c (e ++ x)
          ∙ ap₂ both
              (rows-cmds (take 1024 q.cmds) (All-take-drop MotorSampleInRange 1024 q.cmds h.cmds).0)
              (rows-append e x
                ∙ ap₂ both
                    (rows-events (take 1024 q.events)
                      (All-take-drop EventSampleInRange 1024 q.events h.events).0)
                    (rows-events (take 1024 q.sys_events)
                      (All-take-drop EventSampleInRange 1024 q.sys_events h.sys_events).0)))
    ∙ (λ i. (
      append-nil (map state_cells (take 1024 q.states)) i,
      append-nil (map cmd_cells (take 1024 q.cmds)) i,
      map event_cells (take 1024 q.events) ++ map event_cells (take 1024 q.sys_events),
    ))

map-append : {A B : Type 0} (f : A → B) (xs ys : List A) → map f (xs ++ ys) ≡ map f xs ++ map f ys
map-append f [] ys = refl
map-append f (x ∷ xs) ys = ap (◌∷◌ (f x)) (map-append f xs ys)

map-take-drop :
    {A B : Type 0} (f : A → B) (n : ℕ) (xs : List A)
    → map f (take n xs) ++ map f (drop n xs) ≡ map f xs
map-take-drop f n xs =
    sym (map-append f (take n xs) (drop n xs)) ∙ ap (map f) (take-append-drop n xs)

map-three :
    {A B : Type 0} (f : A → B) (xs ys zs : List A)
    → (map f xs ++ map f ys) ++ map f zs ≡ map f (xs ++ (ys ++ zs))
map-three f xs ys zs =
    append_assoc (map f xs) (map f ys) (map f zs)
    ∙ ap (λ t. map f xs ++ t) (sym (map-append f ys zs))
    ∙ sym (map-append f xs (ys ++ zs))

pub rows-batches :
    (n : ℕ) (q : Samples)
    → SamplesInRange q
    → AtMost (1024 * n) q
    → rows (batches n q)
      ≡ (map state_cells q.states, map cmd_cells q.cmds, map event_cells (events_of n q))
unfolding batches events_of decode_all rest
rows-batches zero q r h = λ i. (
  ap (map state_cells) (sym (nil_of_length q.states (omega (arith, h.states)))) i,
  ap (map cmd_cells) (sym (nil_of_length q.cmds (omega (arith, h.cmds)))) i,
  [],
)
rows-batches (suc n) q r h =
    rows-append (batch q) (batches n (rest q))
    ∙ ap₂ both (rows-batch q r) (rows-batches n (rest q) (rest-InRange q r) (rest-AtMost n q h))
    ∙ (λ i. (
      map-take-drop state_cells 1024 q.states i,
      map-take-drop cmd_cells 1024 q.cmds i,
      map-three event_cells (take 1024 q.events) (take 1024 q.sys_events) (events_of n (rest q)) i,
    ))
