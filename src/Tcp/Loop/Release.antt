-- ===== src/Tcp/Loop/Release.antt =====
-- The parts of a cycle keep hold of every descriptor that they were given or gave up.
use stm32_board.Base.{
  ℕ, ◌+◌, ◌≡◌, List, [], ◌∷◌, ◌++◌, Bool, true, Option, none, some, arith, inl, inr, Bool-cases,
  Option-cases, if◌then◌else◌, ◌==◌, ◌%◌, ◌^◌,
}
use stm32_board.Core.{Timestamps}
use stm32_board.Float.{Fpu}
use stm32_board.Mailbox.{load}
use stm32_board.Socket.{Ledger, Fd, is_open, opens, close, Accept, accept_client}
use stm32_board.Socket.Balance.{count, fds, opens-Held, close-Held, accept_client-Held}
use stm32_board.Tcp.Worker.{TcpState, state_frame}
use stm32_board.Tcp.Loop.{
  accept_all, accept_block, take_bytes, receive_sockets, send_sockets, publish_sockets, close_all,
}
use stm32_board.Transfer.{Ret, try_recv}

-- The clients hold what the ledger has not seen closed, beside what others hold.
abbrev pub AllHeld : Ledger → List Fd → ℕ → ℕ → Type 0
AllHeld l clients d others = count d l.opened ≡ count d l.closed + count d (fds clients) + others

count_fds-append :
    (d : ℕ) (xs ys : List Fd) → count d (fds (xs ++ ys)) ≡ count d (fds xs) + count d (fds ys)
count_fds-append d [] ys = omega arith
count_fds-append d (none ∷ xs) ys = count_fds-append d xs ys
count_fds-append d (some fd ∷ xs) ys = omega (arith, count_fds-append d xs ys)

count_fds-cons :
    (d : ℕ) (c : Fd) (xs : List Fd)
    → count d (fds (c ∷ xs)) ≡ count d (fds (c ∷ [])) + count d (fds xs)
count_fds-cons d none xs = omega arith
count_fds-cons d (some fd) xs = omega arith

accept_all-AllHeld :
    (srv : Fd) (calls : List (List Accept)) (c : Fd) (clients : List Fd) (l : Ledger) (d others : ℕ)
    → AllHeld l (c ∷ clients) d others
    → let (clients', c', l') = accept_all srv calls c clients l in
      AllHeld l' (c' ∷ clients') d others
unfolding accept_all
accept_all-AllHeld srv [] c clients l d others h = h
accept_all-AllHeld srv (call ∷ more) c clients l d others h =
    let rest = count d (fds clients) + others in
    let c' = (accept_client srv true call c l).1 in
    let l' = (accept_client srv true call c l).2 in
    let step =
      accept_client-Held srv true call c l d rest (omega (arith, count_fds-cons d c clients)) in
    elim (Bool-cases (is_open srv)) [
      | inr shut ↦ rw shut h
      | inl up ↦ elim (Bool-cases (accept_client srv true call c l).0) [
        | inr e ↦ rw (up, e) (omega (arith, count_fds-cons d c' clients))
        | inl e ↦
            rw (up, e)
              (accept_all-AllHeld srv more none (clients ++ c' ∷ []) l' d others
                (omega (arith, count_fds-append d clients (c' ∷ []))))
      ]
    ]

pub accept_block-AllHeld :
    (srv : Fd) (temp : Option ℕ) (calls : List (List Accept)) (clients : List Fd) (l : Ledger)
    (d others : ℕ)
    → AllHeld l clients d others
    → let (clients', l') = accept_block srv temp calls clients l in AllHeld l' clients' d others
unfolding accept_block
accept_block-AllHeld srv temp calls clients l d others h =
    let (c, l1) = opens temp l in
    let (clients', c', l2) = accept_all srv calls c clients l1 in
    let h1 = opens-Held temp l d (count d (fds clients) + others) (omega arith) in
    let h2 =
      accept_all-AllHeld srv calls c clients l1 d others
        (omega (arith, count_fds-cons d c clients)) in
    let h3 =
      close-Held c' l2 d (count d (fds clients') + others)
        (omega (arith, count_fds-cons d c' clients')) in
    omega arith

dropped-AllHeld :
    (fd : ℕ) (more : List Fd) (l : Ledger) (d others : ℕ)
    → AllHeld l (some fd ∷ more) d others
    → AllHeld (close (some fd) l).1 more d others
unfolding close
dropped-AllHeld fd more l d others h = omega arith

pub receive_sockets-AllHeld :
    (fpu : Fpu) (clock : ℕ → ℕ → Timestamps) (recv : ℕ → Ret (List ℕ)) (cs : List Fd) (s : TcpState)
    (l : Ledger) (d others : ℕ)
    → AllHeld l cs d others
    → let (stay, s', l') = receive_sockets fpu clock recv s l cs in AllHeld l' stay d others
unfolding receive_sockets
receive_sockets-AllHeld fpu clock recv [] s l d others h = h
receive_sockets-AllHeld fpu clock recv (none ∷ more) s l d others h =
    receive_sockets-AllHeld fpu clock recv more s l d others h
receive_sockets-AllHeld fpu clock recv (some fd ∷ more) s l d others h =
    let s' = take_bytes fpu (clock fd) s fd (try_recv true (recv fd)).1 in
    elim (Bool-cases (try_recv true (recv fd)).0) [
      | inl e ↦
          let ih =
            receive_sockets-AllHeld fpu clock recv more s' l d (others + (if fd == d then 1 else 0))
              (omega arith) in
          rw e (omega arith)
      | inr e ↦ rw e (
          receive_sockets-AllHeld fpu clock recv more s (close (some fd) l).1 d others
            (dropped-AllHeld fd more l d others h))
    ]

send_sockets-AllHeld :
    (accepts : ℕ → Bool) (frame : List ℕ) (cs : List Fd) (l : Ledger) (d others : ℕ)
    → AllHeld l cs d others
    → let (stay, sent, l') = send_sockets accepts frame l cs in AllHeld l' stay d others
unfolding send_sockets
send_sockets-AllHeld accepts frame [] l d others h = h
send_sockets-AllHeld accepts frame (none ∷ more) l d others h =
    send_sockets-AllHeld accepts frame more l d others h
send_sockets-AllHeld accepts frame (some fd ∷ more) l d others h = elim (Bool-cases (accepts fd)) [
  | inl e ↦
      let ih =
        send_sockets-AllHeld accepts frame more l d (others + (if fd == d then 1 else 0))
          (omega arith) in
      rw e (omega arith)
  | inr e ↦ rw e (
      send_sockets-AllHeld accepts frame more (close (some fd) l).1 d others
        (dropped-AllHeld fd more l d others h))
]

pub publish_sockets-AllHeld :
    (accepts : ℕ → Bool) (t_mono_s : ℕ) (s : TcpState) (cs : List Fd) (l : Ledger) (d others : ℕ)
    → AllHeld l cs d others
    → let (stay, s', l') = publish_sockets accepts t_mono_s s l cs in AllHeld l' stay d others
unfolding publish_sockets
publish_sockets-AllHeld accepts t_mono_s s cs l d others h =
    elim (Option-cases (load s.sh.latest_state)) [
      | inl e ↦ rw (e, publish_sockets) h
      | inr (st, e) ↦
          rw (e, publish_sockets)
            (send_sockets-AllHeld accepts (state_frame ((s.state_seq + 1) % 2 ^ 32) t_mono_s st) cs
              l d others h)
    ]

pub close_all-AllHeld :
    (cs : List Fd) (l : Ledger) (d others : ℕ)
    → AllHeld l cs d others
    → count d (close_all cs l).1.opened ≡ count d (close_all cs l).1.closed + others
unfolding close_all
close_all-AllHeld [] l d others h = omega arith
close_all-AllHeld (c ∷ more) l d others h =
    let h1 =
      close-Held c l d (count d (fds more) + others) (omega (arith, count_fds-cons d c more)) in
    close_all-AllHeld more (close c l).1 d others (omega arith)
