-- ===== src/Socket/Balance.antt =====
-- No operation on a socket or a port loses a descriptor or closes one that it does not hold.
use stm32_board.Base.{
  ℕ, ◌+◌, ◌≡◌, List, [], ◌∷◌, ◌++◌, Bool, Option, none, some, ◌==◌, arith, if◌then◌else◌,
}
use stm32_board.Transfer.{intr, again, other}
use stm32_board.Socket.{
  Ledger, Fd, opens, close, Accept, accepted, no_client, accept_client, Opening, open_port, is_open,
}

-- How often a number stands in a list.
abbrev pub count : ℕ → List ℕ → ℕ
count d [] = 0
count d (x ∷ xs) = (if x == d then 1 else 0) + count d xs

pub count-append : (d : ℕ) (xs ys : List ℕ) → count d (xs ++ ys) ≡ count d xs + count d ys
count-append d [] ys = omega arith
count-append d (x ∷ xs) ys = omega (arith, count-append d xs ys)

abbrev pub fds : List Fd → List ℕ
fds [] = []
fds (none ∷ xs) = fds xs
fds (some fd ∷ xs) = fd ∷ fds xs

-- Each descriptor that was given is held once, or has been closed.
abbrev pub Balanced : Ledger → List Fd → Type 0
Balanced l held = (d : ℕ) → count d l.opened ≡ count d l.closed + count d (fds held)

-- The same with some other descriptors, which the rest of the program holds.
abbrev pub Held : Ledger → Fd → ℕ → ℕ → Type 0
Held l fd d others = count d l.opened ≡ count d l.closed + count d (fds (fd ∷ [])) + others

pub opens-Held :
    (r : Option ℕ) (l : Ledger) (d others : ℕ)
    → count d l.opened ≡ count d l.closed + others
    → Held (opens r l).1 (opens r l).0 d others
unfolding opens
opens-Held none l d others h = omega arith
opens-Held (some fd) l d others h = ground arith

pub close-Held :
    (fd : Fd) (l : Ledger) (d others : ℕ)
    → Held l fd d others
    → count d (close fd l).1.opened ≡ count d (close fd l).1.closed + others
unfolding close
close-Held none l d others h = omega arith
close-Held (some fd) l d others h = ground arith

pub accept_client-Held :
    (srv : Fd) (nonblocking : Bool) (calls : List Accept) (out : Fd) (l : Ledger) (d others : ℕ)
    → Held l out d others
    → let (_, out', l') = accept_client srv nonblocking calls out l in Held l' out' d others
unfolding accept_client opens close
accept_client-Held none nonblocking calls out l d others h = h
accept_client-Held (some fd) nonblocking [] out l d others h = h
accept_client-Held (some fd) nonblocking (accepted cfd f ∷ calls) none l d others h = ground arith
accept_client-Held (some fd) nonblocking (accepted cfd f ∷ calls) (some old) l d others h =
    ground arith
accept_client-Held (some fd) nonblocking (no_client intr ∷ calls) out l d others h =
    accept_client-Held (some fd) nonblocking calls out l d others h
accept_client-Held (some fd) nonblocking (no_client again ∷ calls) out l d others h = h
accept_client-Held (some fd) nonblocking (no_client other ∷ calls) out l d others h = h

-- `SerialPort::open` succeeds exactly when all three calls do; the object then holds the new
-- descriptor, and none otherwise. The descriptor from before is closed, and none is lost.
pub open_port_lem :
    (r : Opening) (old : Fd) (l : Ledger) (d others : ℕ)
    → Held l old d others
    → let (ok, fd, l') = open_port r old l in Held l' fd d others × (is_open fd ≡ ok)
unfolding open_port opens close is_open
open_port_lem r none l d others h = ground arith
open_port_lem r (some fd) l d others h = ground arith
