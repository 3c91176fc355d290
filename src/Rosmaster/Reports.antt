-- ===== src/Rosmaster/Reports.antt =====
-- What the receive loop makes of the bytes that the board sends.
use stm32_board.Base.{
  ==_refl, ne→==, ◌≢◌, ℕ, suc, ◌+◌, ◌-◌, ◌%◌, ◌^◌, ◌<◌, ◌≡◌, refl, ap, ◌∙◌, List, [], ◌∷◌, ◌++◌,
  true, not, ◌||◌, none, some, ltb, leb, ◌==◌, if◌then◌else◌, length, get_or, arith, All,
  length-append, take-append, drop-append_self,
}
use stm32_board.Float.{Fpu}
use stm32_board.Rosmaster.{head, device_id}
use stm32_board.Rosmaster.Writers.{sum}
use stm32_board.Rosmaster.Receive.{
  queue_read, queue_port, Report, sum_init, check_report, rx_round, ◌>>=◌, ◌>>◌, require, and_then,
  Robot, deliver_report, rx_loop,
}

-- A report as the board sends it, with `check` as its last byte.
abbrev pub report_bytes : Report → ℕ → List ℕ
report_bytes rep check =
    head ∷ (device_id - 1) ∷ (length rep.bytes + 3) ∷ rep.ext_type ∷ (rep.bytes ++ check ∷ [])

abbrev pub report_sum : Report → ℕ
report_sum rep = (length rep.bytes + 3 + rep.ext_type + sum rep.bytes) % 256

sum_init-append :
    (start : ℕ) (bytes : List ℕ) (c : ℕ) → sum_init start (bytes ++ c ∷ []) ≡ start + sum bytes
unfolding sum_init
sum_init-append start [] c = omega arith
sum_init-append start (b ∷ []) c = omega arith
sum_init-append start (b ∷ d ∷ rest) c = sum_init-append (start + b) (d ∷ rest) c ∙ omega arith

get_or-append : (bytes : List ℕ) (c : ℕ) → get_or (bytes ++ c ∷ []) (length bytes) 0 ≡ c
get_or-append [] c = refl
get_or-append (b ∷ bytes) c = get_or-append bytes c

queue_read-append :
    (bytes rest : List ℕ) → queue_read (bytes ++ rest) (length bytes) ≡ (some bytes, rest)
unfolding queue_read
queue_read-append bytes rest =
    ground (arith, length-append bytes rest, take-append bytes rest, drop-append_self bytes rest)

queue_read_one : (b : ℕ) (rest : List ℕ) → queue_read (b ∷ rest) 1 ≡ (some (b ∷ []), rest)
queue_read_one b rest = queue_read-append (b ∷ []) rest

wrap : (x : ℕ) → x % 2 ^ 32 % 256 ≡ x % 256
wrap x = omega arith

last_index : (bytes : List ℕ) (c : ℕ) → length (bytes ++ c ∷ []) - 1 ≡ length bytes
last_index bytes c = omega (arith, length-append bytes (c ∷ []))

check_report-append :
    (rep : Report) (check : ℕ)
    → check_report (length rep.bytes + 3) rep.ext_type (rep.bytes ++ check ∷ [])
      ≡ (if report_sum rep == check then some rep else none)
unfolding check_report
check_report-append rep check = rw (
  last_index rep.bytes check,
  get_or-append rep.bytes check,
  sum_init-append (length rep.bytes + 3 + rep.ext_type) rep.bytes check,
  wrap (length rep.bytes + 3 + rep.ext_type + sum rep.bytes),
  take-append rep.bytes (check ∷ []),
)

-- One round on a whole report with less than 200 bytes of data: it is handed on if its last byte is the
-- sum of its length, its type and its data modulo 256, which leaves out the two head bytes, else it is
-- dropped; either way the round takes this report from the port and no byte more.
pub rx_round-report_bytes :
    (rep : Report) (check : ℕ) (rest : List ℕ)
    → length rep.bytes < 200
    → rx_round queue_port (report_bytes rep check ++ rest)
      ≡ ((if report_sum rep == check then some rep else none), rest)
unfolding rx_round
rx_round-report_bytes rep check rest h = rw (
  rx_round,
  ◌>>=◌,
  ◌>>◌,
  and_then,
  queue_read_one head ((device_id - 1) ∷ (length rep.bytes + 3) ∷ rep.ext_type ∷ tail),
  queue_read_one (device_id - 1) ((length rep.bytes + 3) ∷ rep.ext_type ∷ tail),
  queue_read_one (length rep.bytes + 3) (rep.ext_type ∷ tail),
  queue_read_one rep.ext_type tail,
  accepted,
  read_tail,
  check_report-append rep check,
)
  where
    tail : List ℕ
    tail = (rep.bytes ++ check ∷ []) ++ rest

    accepted : not (leb (length rep.bytes + 3) 2 || ltb 200 (length rep.bytes + 3 - 2)) ≡ true
    accepted = ground arith

    size : length rep.bytes + 3 - 2 ≡ length (rep.bytes ++ check ∷ [])
    size = omega (arith, length-append rep.bytes (check ∷ []))

    read_tail : queue_read tail (length rep.bytes + 3 - 2) ≡ (some (rep.bytes ++ check ∷ []), rest)
    read_tail = ap (queue_read tail) size ∙ queue_read-append (rep.bytes ++ check ∷ []) rest

rx_round-not_head :
    (b : ℕ) (rest : List ℕ) → b ≢ head → rx_round queue_port (b ∷ rest) ≡ (none, rest)
unfolding rx_round
rx_round-not_head b rest h =
    rw (rx_round, ◌>>=◌, ◌>>◌, and_then, require, queue_read_one b rest, ne→== b head h)

rx_round-head_head : (rest : List ℕ) → rx_round queue_port (head ∷ head ∷ rest) ≡ (none, rest)
unfolding rx_round
rx_round-head_head rest = rw (
  rx_round,
  ◌>>=◌,
  ◌>>◌,
  and_then,
  require,
  queue_read_one head (head ∷ rest),
  queue_read_one head rest,
)

abbrev pub reports_bytes : List Report → List ℕ
reports_bytes [] = []
reports_bytes (rep ∷ reps) = report_bytes rep (report_sum rep) ++ reports_bytes reps

-- What is handed on, one report after the other.
module _ (fpu : Fpu) where
  abbrev pub deliver_all : List Report → Robot → Robot
  deliver_all [] r = r
  deliver_all (rep ∷ reps) r = deliver_all reps (deliver_report fpu r rep)

  -- The loop turns a stream of whole reports with right sums, each with less than 200 bytes of data, into the
  -- deliveries of these reports in their order, in one round for each, and leaves no byte.
  pub rx_loop-reports_bytes :
      (reps : List Report) (r : Robot)
      → All (λ rep. length rep.bytes < 200) reps
      → rx_loop fpu queue_port (length reps) (reports_bytes reps) r ≡ (deliver_all reps r, [])
  unfolding rx_loop
  rx_loop-reports_bytes [] r h = refl
  rx_loop-reports_bytes (rep ∷ reps) r (h, hs) =
      rw
        (
          rx_loop,
          rx_round-report_bytes rep (report_sum rep) (reports_bytes reps) h,
          ==_refl (report_sum rep),
        )
        (rx_loop-reports_bytes reps (deliver_report fpu r rep) hs)

  -- A byte that starts no report is dropped in one round.
  rx_loop-not_head :
      (bytes : List ℕ) (r : Robot)
      → All (λ b. b ≢ head) bytes
      → rx_loop fpu queue_port (length bytes) bytes r ≡ (r, [])
  unfolding rx_loop
  rx_loop-not_head [] r h = refl
  rx_loop-not_head (b ∷ bytes) r (h, hs) =
      rw (rx_loop, rx_round-not_head b bytes h) (rx_loop-not_head bytes r hs)

  -- A stray head byte before a report takes that report's own head byte with it: where none of the
  -- report's other bytes is a head byte, the loop drops all of it, and the state stays as it is.
  pub rx_loop-stray_head :
      (body : List ℕ) (r : Robot)
      → All (λ b. b ≢ head) body
      → rx_loop fpu queue_port (suc (length body)) (head ∷ head ∷ body) r ≡ (r, [])
  unfolding rx_loop
  rx_loop-stray_head body r h = rw (rx_loop, rx_round-head_head body) (rx_loop-not_head body r h)
