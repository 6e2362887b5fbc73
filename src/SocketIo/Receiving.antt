-- ===== src/SocketIo/Receiving.antt =====
-- recv_exact of src/common/socket_io.cpp, in terms of the bytes that the socket delivers.
use syncwire.Common.{
  ℕ, zero, suc, ◌+◌, ◌-◌, ◌≤◌, ◌<◌, ◌≡◌, ◌≢◌, ◌↔◌, refl, ap, sym, subst, ◌∙◌, List, [], ◌++◌,
  Option, none, some, ltb, length, length-append, arith, Bool-cases, inl, inr, get_some,
}
use mathlib.Core.Option.{some-injective}
use mathlib.Core.List.{append_assoc}
use syncwire.SocketIo.{
  complete, peer_closed, system_error, IoResult, Received, got_some, got_zero, got_interrupted,
  got_error, Socket, ReceivedWell, SocketLaws, recv_next, recv_loop,
}

module _ (s : Socket) (laws : SocketLaws s) where
  open s use {World}
  open laws use {wire, inbox, signals, recv_law, recv_wire}

  -- The bytes that came left the inbox from the front; they are `size` exactly when the status says so.
  pub record ReceivedAll (size : ℕ) (w : World) (r : IoResult) (bytes : List ℕ) (w' : World)
      : Type 0 where
    pub counted : r.transferred ≡ length bytes
    pub in_range : length bytes ≤ size
    pub delivered : inbox w ≡ bytes ++ inbox w'
    pub all_received : (r.status ≡ complete) ↔ (length bytes ≡ size)
    pub same_wire : wire w' ≡ wire w
    pub quieter : signals w' ≤ signals w

  -- The same from the bytes `received` on.
  abbrev Goes : ℕ → List ℕ → World → IoResult → List ℕ → World → Type 0
  Goes size received w r bytes w' =
      (r.transferred ≡ length bytes)
      × (length bytes ≤ size)
      × (received ++ inbox w ≡ bytes ++ inbox w')
      × ((r.status ≡ complete) ↔ (length bytes ≡ size))
      × (wire w' ≡ wire w)
      × (signals w' ≤ signals w)

  abbrev Returns : ℕ → List ℕ → World → Option (IoResult × List ℕ × World) → Type 0
  Returns size received w o =
      (r : IoResult) × (bytes : List ℕ) × (w' : World) × (o ≡ some (r, bytes, w'))
      × Goes size received w r bytes w'

  recv_next-Returns :
      (again : List ℕ → World → Option (IoResult × List ℕ × World)) (size : ℕ) (received : List ℕ)
      (w w1 : World) (answer : Received)
      → ((received' : List ℕ) (w' : World)
          → length received' ≤ size
          → signals w' + (size - length received') < signals w + (size - length received)
          → Returns size received' w' (again received' w'))
      → length received < size
      → ReceivedWell (size - length received) answer (inbox w) (inbox w1) (signals w) (signals w1)
      → wire w1 ≡ wire w
      → Returns size received w (recv_next s again received answer w1)
  unfolding recv_next
  recv_next-Returns again size received w w1 (got_some bytes) ih more
        (some_bytes, most, came, quiet) same =
      let longer = length-append received bytes in
      let (r, all, w', e, goes) =
        ih (received ++ bytes) w1 (omega (arith, longer)) (omega (arith, longer)) in
      let (count, range, left, iff, kept, quieter) = goes in
      (
        r,
        all,
        w',
        e,
        (
          count,
          range,
          ap (◌++◌ received) came ∙ sym (append_assoc received bytes (inbox w1)) ∙ left,
          iff,
          kept ∙ same,
          omega arith,
        ),
      )
  recv_next-Returns again size received w w1 got_zero ih more (left, quiet) same =
      let r : IoResult = record {
        status = peer_closed;
        transferred = length received;
        errno = 0;
      } in
      (
        r,
        received,
        w1,
        refl,
        (
          refl,
          omega arith,
          ap (◌++◌ received) left,
          (λ e. cc e, λ e. absurd (omega arith)),
          same,
          quiet,
        ),
      )
  recv_next-Returns again size received w w1 got_interrupted ih more (left, quiet) same =
      let (r, all, w', e, goes) = ih received w1 (omega arith) (omega arith) in
      let (count, range, delivered, iff, kept, quieter) = goes in
      (
        r,
        all,
        w',
        e,
        (count, range, ap (◌++◌ received) left ∙ delivered, iff, kept ∙ same, omega arith),
      )
  recv_next-Returns again size received w w1 (got_error n) ih more (left, quiet) same =
      let r : IoResult = record {
        status = system_error;
        transferred = length received;
        errno = n;
      } in
      (
        r,
        received,
        w1,
        refl,
        (
          refl,
          omega arith,
          ap (◌++◌ received) left,
          (λ e. cc e, λ e. absurd (omega arith)),
          same,
          quiet,
        ),
      )

  recv_loop-Returns :
      (fuel size : ℕ) (received : List ℕ) (w : World)
      → length received ≤ size
      → signals w + (size - length received) < fuel
      → Returns size received w (recv_loop s fuel size received w)
  unfolding recv_loop
  recv_loop-Returns zero size received w within enough = absurd (omega arith)
  recv_loop-Returns (suc fuel) size received w within enough =
      elim (Bool-cases (ltb (length received) size)) [
        | inl more ↦
            rw (more, recv_loop)
              (recv_next-Returns (recv_loop s fuel size) size received w _ _
                (λ received' w' within' less.
                  recv_loop-Returns fuel size received' w' within' (omega arith))
                (ground arith) (recv_law (size - length received) w)
                (recv_wire (size - length received) w))
        | inr done ↦
            rw (done, recv_loop)
              (
                record { status = complete; transferred = length received; errno = 0 },
                received,
                w,
                refl,
                (refl, within, refl, (λ _. ground arith, λ _. refl), refl, omega arith),
              )
      ]

  abbrev pub recv_fuel : ℕ → World → ℕ
  recv_fuel size w = suc (signals w + size)

  recv_loop-ends :
      (size : ℕ) (w : World) → Returns size [] w (recv_loop s (recv_fuel size w) size [] w)
  recv_loop-ends size w = recv_loop-Returns (recv_fuel size w) size [] w (omega arith) (omega arith)

  pub recv_loop-ne-none : (size : ℕ) (w : World) → recv_loop s (recv_fuel size w) size [] w ≢ none
  recv_loop-ne-none size w e =
      let (r, bytes, w', returned, _) = recv_loop-ends size w in cc (e, returned)

  -- recv_exact, with fuel for every signal to come and every byte to come, and the bytes of the buffer
  -- that it has filled.
  unfoldable pub recv_exact : ℕ → World → IoResult × List ℕ × World
  recv_exact size w = get_some (recv_loop s (recv_fuel size w) size [] w) (recv_loop-ne-none size w)

  -- recv_exact is a total function on the states of a socket that keeps the documented rules. The
  -- bytes that it hands over are the next ones to come, as many as it reports, and the status is
  -- complete exactly when they are all that was asked for; nothing is sent.
  pub recv_exact-ReceivedAll :
      (size : ℕ) (w : World)
      → ReceivedAll size w (recv_exact size w).0 (recv_exact size w).1 (recv_exact size w).2
  unfolding recv_exact
  recv_exact-ReceivedAll size w =
      let (r, bytes, w', returned, goes) = recv_loop-ends size w in
      let (count, range, left, iff, same, quiet) = goes in
      got (recv_loop s (recv_fuel size w) size [] w) (recv_loop-ne-none size w) r bytes w' returned
        (record {
          counted = count;
          in_range = range;
          delivered = left;
          all_received = iff;
          same_wire = same;
          quieter = quiet;
        })
    where
      got :
          (o : Option (IoResult × List ℕ × World)) (ne : o ≢ none) (r : IoResult) (bytes : List ℕ)
          (w' : World)
          → o ≡ some (r, bytes, w')
          → ReceivedAll size w r bytes w'
          → ReceivedAll size w (get_some o ne).0 (get_some o ne).1 (get_some o ne).2
      got none ne r bytes w' e h = absurd (ne refl)
      got (some (r1, b1, w1)) ne r bytes w' e h =
          subst (λ (x : IoResult × List ℕ × World). ReceivedAll size w x.0 x.1 x.2)
            (sym (some-injective _ _ e)) h
