-- ===== src/SocketIo.antt =====
-- src/common/socket_io.cpp: the loops around ::send and ::recv. The two system calls are parameters.
pub mod Sending
pub mod Receiving
use syncwire.Common.{
  ℕ, zero, suc, ◌+◌, ◌-◌, ◌≤◌, ◌<◌, ◌≡◌, Bool, true, false, List, [], ◌∷◌, ◌++◌, Option, none, some,
  ltb, if◌then◌else◌, length, take, drop,
}

pub data IoStatus : Type 0 where
  complete peer_closed system_error : IoStatus

pub record IoResult : Type 0 where
  pub status : IoStatus
  pub transferred : ℕ
  pub errno : ℕ

-- What one system call answers: a positive count (with the bytes, for ::recv), zero, or -1 with errno
-- equal to EINTR or to another number.
pub data Sent : Type 0 where
  sent_some : ℕ → Sent
  sent_zero sent_interrupted : Sent
  sent_error : ℕ → Sent

pub data Received : Type 0 where
  got_some : List ℕ → Received
  got_zero got_interrupted : Received
  got_error : ℕ → Received

-- A connected socket, with all that its calls depend on in one state.
pub record Socket : Type 1 where
  pub World : Type 0
  pub send : List ℕ → World → Sent × World
  pub recv : ℕ → World → Received × World

-- What send(2) and recv(2) document, in terms of the bytes that the socket has taken (`wire`), the
-- bytes that the peer's side will still deliver (`inbox`), and the signals that will still
-- interrupt a call (`signals`).
abbrev pub SentWell : List ℕ → Sent → List ℕ → List ℕ → ℕ → ℕ → Type 0
SentWell bytes (sent_some n) before after signals signals' =
    (0 < n) × (n ≤ length bytes) × (after ≡ before ++ take n bytes) × (signals' ≤ signals)
SentWell bytes sent_zero before after signals signals' = (after ≡ before) × (signals' ≤ signals)
SentWell bytes sent_interrupted before after signals signals' =
    (after ≡ before) × (signals' < signals)
SentWell bytes (sent_error e) before after signals signals' =
    (after ≡ before) × (signals' ≤ signals)

abbrev pub ReceivedWell : ℕ → Received → List ℕ → List ℕ → ℕ → ℕ → Type 0
ReceivedWell n (got_some bytes) before after signals signals' =
    (0 < length bytes) × (length bytes ≤ n) × (before ≡ bytes ++ after) × (signals' ≤ signals)
ReceivedWell n got_zero before after signals signals' = (before ≡ after) × (signals' ≤ signals)
ReceivedWell n got_interrupted before after signals signals' =
    (before ≡ after) × (signals' < signals)
ReceivedWell n (got_error e) before after signals signals' = (before ≡ after) × (signals' ≤ signals)

pub record SocketLaws (s : Socket) : Type 0 where
  pub wire : s.World → List ℕ
  pub inbox : s.World → List ℕ
  pub signals : s.World → ℕ
  pub send_law :
      (bytes : List ℕ) (w : s.World)
      → SentWell bytes
          (s.send bytes w).0
          (wire w)
          (wire (s.send bytes w).1)
          (signals w)
          (signals (s.send bytes w).1)
  pub send_inbox : (bytes : List ℕ) (w : s.World) → inbox (s.send bytes w).1 ≡ inbox w
  pub recv_law :
      (n : ℕ) (w : s.World)
      → ReceivedWell n
          (s.recv n w).0
          (inbox w)
          (inbox (s.recv n w).1)
          (signals w)
          (signals (s.recv n w).1)
  pub recv_wire : (n : ℕ) (w : s.World) → wire (s.recv n w).1 ≡ wire w

module _ (s : Socket) where
  open s use {World, send, recv}

  -- What the loop of send_all does with the answer of ::send; `again` is its next round.
  unfoldable pub send_next :
      (ℕ → World → Option (IoResult × World)) → ℕ → Sent → World → Option (IoResult × World)
  send_next again sent (sent_some n) w = again (sent + n) w
  send_next again sent sent_zero w =
      some (record { status = peer_closed; transferred = sent; errno = 0 }, w)
  send_next again sent sent_interrupted w = again sent w
  send_next again sent (sent_error e) w =
      some (record { status = system_error; transferred = sent; errno = e }, w)

  -- The loop of send_all, with `sent` bytes gone. `none`: the fuel ran out.
  unfoldable pub send_loop : ℕ → List ℕ → ℕ → World → Option (IoResult × World)
  unfolding send_next
  send_loop zero bytes sent w = none
  send_loop (suc fuel) bytes sent w =
      let (answer, w') = send (drop sent bytes) w in
      if ltb sent (length bytes)
      then send_next (send_loop fuel bytes) sent answer w'
      else some (record { status = complete; transferred = sent; errno = 0 }, w)

  unfoldable pub recv_next :
      (List ℕ → World → Option (IoResult × List ℕ × World))
      → List ℕ
      → Received
      → World
      → Option (IoResult × List ℕ × World)
  recv_next again received (got_some bytes) w = again (received ++ bytes) w
  recv_next again received got_zero w =
      some (record { status = peer_closed; transferred = length received; errno = 0 }, received, w)
  recv_next again received got_interrupted w = again received w
  recv_next again received (got_error e) w =
      some (record { status = system_error; transferred = length received; errno = e }, received, w)

  -- The loop of recv_exact for `size` bytes, with the bytes that have come. `none`: the fuel ran out.
  unfoldable pub recv_loop : ℕ → ℕ → List ℕ → World → Option (IoResult × List ℕ × World)
  unfolding recv_next
  recv_loop zero size received w = none
  recv_loop (suc fuel) size received w =
      let (answer, w') = recv (size - length received) w in
      if ltb (length received) size
      then recv_next (recv_loop fuel size) received answer w'
      else some
          (record { status = complete; transferred = length received; errno = 0 }, received, w)
