-- ===== src/Transfer.antt =====
-- cpp_gateway/src/connection/serial_port.cpp and tcp_socket.cpp: the loops that move bytes. What the
-- system calls return is an argument, call by call.
pub mod Prefix
use stm32_board.Base.{
  ℕ, zero, suc, ◌+◌, ◌-◌, List, [], ◌∷◌, ◌++◌, Bool, true, false, Option, none, some, ◌==◌,
  if◌then◌else◌, length, take, drop,
}

pub data Errno : Type 0 where
  intr again other : Errno

-- A result that is not negative, or an error. A read's result is the bytes that it stored.
pub data Ret (A : Type 0) : Type 0 where
  count : A → Ret A
  error : Errno → Ret A

-- `SerialPort::read_exact`: whether it succeeds, `none` while it still waits, and what it stored.
unfoldable pub read_exact : List (Ret (List ℕ)) → ℕ → Option Bool × List ℕ
read_exact rets zero = (some true, [])
read_exact [] (suc n) = (none, [])
read_exact (count bytes ∷ rets) (suc n) =
    let (ok, got) = read_exact rets (suc n - length bytes) in
    if length bytes == 0 then (some false, []) else (ok, bytes ++ got)
read_exact (error intr ∷ rets) (suc n) = read_exact rets (suc n)
read_exact (error again ∷ rets) (suc n) = (some false, [])
read_exact (error other ∷ rets) (suc n) = (some false, [])

-- `SerialPort::write_all`: the same, with the bytes that the line took.
unfoldable pub write_all : List (Ret ℕ) → List ℕ → Option Bool × List ℕ
write_all rets [] = (some true, [])
write_all [] (b ∷ data_) = (none, [])
write_all (count n ∷ rets) (b ∷ data_) =
    let (ok, sent) = write_all rets (drop n (b ∷ data_)) in
    if n == 0 then (some false, []) else (ok, take n (b ∷ data_) ++ sent)
write_all (error intr ∷ rets) (b ∷ data_) = write_all rets (b ∷ data_)
write_all (error again ∷ rets) (b ∷ data_) = (some false, [])
write_all (error other ∷ rets) (b ∷ data_) = (some false, [])

-- What a `send` returns; of one that would block, whether the `poll` behind it finds the socket
-- writable.
pub data Send : Type 0 where
  sends : ℕ → Send
  blocks : Bool → Send
  fails : Send

unfoldable pub send_loop : List Send → List ℕ → Option Bool × List ℕ
send_loop calls [] = (some true, [])
send_loop [] (b ∷ data_) = (none, [])
send_loop (sends n ∷ calls) (b ∷ data_) =
    let (ok, sent) = send_loop calls (drop n (b ∷ data_)) in
    if n == 0 then (some false, []) else (ok, take n (b ∷ data_) ++ sent)
send_loop (blocks writable ∷ calls) (b ∷ data_) =
    let rest = send_loop calls (b ∷ data_) in if writable then rest else (some false, [])
send_loop (fails ∷ calls) (b ∷ data_) = (some false, [])

-- `TcpSocket::send_all`
unfoldable pub send_all : Bool → List Send → List ℕ → Option Bool × List ℕ
send_all is_open calls data_ = if is_open then send_loop calls data_ else (some false, [])

-- `TcpSocket::try_send`: whether it succeeds, and `out_nbytes`.
unfoldable pub try_send : Bool → Ret ℕ → Bool × ℕ
try_send false ret = (false, 0)
try_send true (count n) = if n == 0 then (false, 0) else (true, n)
try_send true (error again) = (true, 0)
try_send true (error intr) = (true, 0)
try_send true (error other) = (false, 0)

-- The loop of `TcpSocket::recv_all`.
unfoldable pub recv_loop : List (Ret (List ℕ)) → ℕ → Option Bool × List ℕ
recv_loop rets zero = (some true, [])
recv_loop [] (suc n) = (none, [])
recv_loop (count bytes ∷ rets) (suc n) =
    let (ok, got) = recv_loop rets (suc n - length bytes) in
    if length bytes == 0 then (some false, []) else (ok, bytes ++ got)
recv_loop (error e ∷ rets) (suc n) = (some false, [])

unfoldable pub recv_all : Bool → List (Ret (List ℕ)) → ℕ → Option Bool × List ℕ
recv_all is_open rets n = if is_open then recv_loop rets n else (some false, [])

-- `TcpSocket::try_recv`: whether it succeeds, and the bytes that it stored.
unfoldable pub try_recv : Bool → Ret (List ℕ) → Bool × List ℕ
try_recv false ret = (false, [])
try_recv true (count bytes) = if length bytes == 0 then (false, []) else (true, bytes)
try_recv true (error again) = (true, [])
try_recv true (error intr) = (true, [])
try_recv true (error other) = (false, [])
