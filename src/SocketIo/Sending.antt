-- ===== src/SocketIo/Sending.antt =====
-- send_all of src/common/socket_io.cpp, in terms of the bytes that the socket takes.
use syncwire.Common.{
  ℕ, zero, suc, ◌+◌, ◌-◌, ◌≤◌, ◌<◌, ◌≡◌, ◌≢◌, ◌↔◌, refl, ap, sym, subst, ◌∙◌, List, ◌++◌, Option,
  none, some, ltb, length, take, drop, drop-drop, length-drop, arith, Bool-cases, inl, inr,
  get_some, take-drop-take,
}
use mathlib.Core.Option.{some-injective}
use mathlib.Core.List.{append_assoc, append-nil}
use syncwire.SocketIo.{
  complete, peer_closed, system_error, IoResult, Sent, sent_some, sent_zero, sent_interrupted,
  sent_error, Socket, SentWell, SocketLaws, send_next, send_loop,
}

module _ (s : Socket) (laws : SocketLaws s) where
  open s use {World}
  open laws use {wire, inbox, signals, send_law, send_inbox}

  -- What the loop returns from `sent` bytes on: the bytes up to `transferred` are on the wire, and it
  -- has sent them all exactly when the status says so.
  abbrev Goes : List ℕ → ℕ → World → IoResult → World → Type 0
  Goes bytes sent w r w' =
      (sent ≤ r.transferred)
      × (r.transferred ≤ length bytes)
      × (wire w' ≡ wire w ++ take (r.transferred - sent) (drop sent bytes))
      × ((r.status ≡ complete) ↔ (r.transferred ≡ length bytes))
      × (inbox w' ≡ inbox w)
      × (signals w' ≤ signals w)

  abbrev Returns : List ℕ → ℕ → World → Option (IoResult × World) → Type 0
  Returns bytes sent w o =
      (r : IoResult) × (w' : World) × (o ≡ some (r, w')) × Goes bytes sent w r w'

  stopped :
      (bytes : List ℕ) (sent : ℕ) (w w' : World) (r : IoResult)
      → sent < length bytes
      → r.transferred ≡ sent
      → r.status ≢ complete
      → wire w' ≡ wire w
      → inbox w' ≡ inbox w
      → signals w' ≤ signals w
      → Goes bytes sent w r w'
  stopped bytes sent w w' r more here bad same same_inbox quiet = (
    omega arith,
    omega arith,
    same
        ∙ sym (append-nil (wire w))
        ∙ ap (λ (k : ℕ). wire w ++ take k (drop sent bytes)) {x = 0} (omega arith),
    (λ e. absurd (bad e), λ e. absurd (omega arith)),
    same_inbox,
    quiet,
  )

  send_next-Returns :
      (again : ℕ → World → Option (IoResult × World)) (bytes : List ℕ) (sent : ℕ) (w w1 : World)
      (answer : Sent)
      → ((sent' : ℕ) (w' : World)
          → sent' ≤ length bytes
          → signals w' + (length bytes - sent') < signals w + (length bytes - sent)
          → Returns bytes sent' w' (again sent' w'))
      → sent < length bytes
      → SentWell (drop sent bytes) answer (wire w) (wire w1) (signals w) (signals w1)
      → inbox w1 ≡ inbox w
      → Returns bytes sent w (send_next s again sent answer w1)
  unfolding send_next
  send_next-Returns again bytes sent w w1 (sent_some n) ih more (some_sent, most, on, quiet) same =
      let (r, w', e, goes) =
        ih (sent + n) w1 (omega (arith, length-drop sent bytes))
          (omega (arith, length-drop sent bytes)) in
      let (from, to, wired, iff, kept, quieter) = goes in
      (
        r,
        w',
        e,
        (
          omega arith,
          to,
          wired
              ∙ ap (λ (l : List ℕ). l ++ take (r.transferred - (sent + n)) (drop (sent + n) bytes))
                  on
              ∙ append_assoc (wire w) (take n (drop sent bytes))
                  (take (r.transferred - (sent + n)) (drop (sent + n) bytes))
              ∙ ap (◌++◌ (wire w)) (
                  ap
                    (λ (l : List ℕ).
                      take n (drop sent bytes) ++ take (r.transferred - (sent + n)) l)
                    (sym (drop-drop sent n bytes))
                  ∙ take-drop-take n (r.transferred - (sent + n)) (drop sent bytes)
                  ∙ ap (λ (k : ℕ). take k (drop sent bytes)) {y = r.transferred - sent}
                      (omega arith)),
          iff,
          kept ∙ same,
          omega arith,
        ),
      )
  send_next-Returns again bytes sent w w1 sent_zero ih more (on, quiet) same =
      let r : IoResult = record { status = peer_closed; transferred = sent; errno = 0 } in
      (r, w1, refl, stopped bytes sent w w1 r more refl (λ e. cc) on same quiet)
  send_next-Returns again bytes sent w w1 sent_interrupted ih more (on, quiet) same =
      let (r, w', e, goes) = ih sent w1 (omega arith) (omega arith) in
      let (from, to, wired, iff, kept, quieter) = goes in
      (
        r,
        w',
        e,
        (
          from,
          to,
          wired ∙ ap (λ (l : List ℕ). l ++ take (r.transferred - sent) (drop sent bytes)) on,
          iff,
          kept ∙ same,
          omega arith,
        ),
      )
  send_next-Returns again bytes sent w w1 (sent_error n) ih more (on, quiet) same =
      let r : IoResult = record { status = system_error; transferred = sent; errno = n } in
      (r, w1, refl, stopped bytes sent w w1 r more refl (λ e. cc) on same quiet)

  send_loop-Returns :
      (fuel : ℕ) (bytes : List ℕ) (sent : ℕ) (w : World)
      → sent ≤ length bytes
      → signals w + (length bytes - sent) < fuel
      → Returns bytes sent w (send_loop s fuel bytes sent w)
  unfolding send_loop
  send_loop-Returns zero bytes sent w within enough = absurd (omega arith)
  send_loop-Returns (suc fuel) bytes sent w within enough =
      elim (Bool-cases (ltb sent (length bytes))) [
        | inl more ↦
            rw (more, send_loop)
              (send_next-Returns (send_loop s fuel bytes) bytes sent w _ _
                (λ sent' w' within' less.
                  send_loop-Returns fuel bytes sent' w' within' (omega arith))
                (ground arith) (send_law (drop sent bytes) w) (send_inbox (drop sent bytes) w))
        | inr done ↦
            rw (done, send_loop)
              (
                record { status = complete; transferred = sent; errno = 0 },
                w,
                refl,
                (
                  omega arith,
                  within,
                  sym (append-nil (wire w))
                      ∙ ap (λ (k : ℕ). wire w ++ take k (drop sent bytes)) {x = 0} {y = sent - sent}
                          (omega arith),
                  (λ _. ground arith, λ _. refl),
                  refl,
                  omega arith,
                ),
              )
      ]

  abbrev pub send_fuel : List ℕ → World → ℕ
  send_fuel bytes w = suc (signals w + length bytes)

  send_loop-ends :
      (bytes : List ℕ) (w : World) → Returns bytes 0 w (send_loop s (send_fuel bytes w) bytes 0 w)
  send_loop-ends bytes w =
      send_loop-Returns (send_fuel bytes w) bytes 0 w (omega arith) (omega arith)

  pub send_loop-ne-none :
      (bytes : List ℕ) (w : World) → send_loop s (send_fuel bytes w) bytes 0 w ≢ none
  send_loop-ne-none bytes w e =
      let (r, w', returned, _) = send_loop-ends bytes w in cc (e, returned)

  -- send_all, with fuel for every signal to come and every byte to go.
  unfoldable pub send_all : List ℕ → World → IoResult × World
  send_all bytes w =
      get_some (send_loop s (send_fuel bytes w) bytes 0 w) (send_loop-ne-none bytes w)

  -- The first `transferred` bytes are on the wire: all of them exactly when the status is complete.
  pub record SentAll (bytes : List ℕ) (w : World) (r : IoResult) (w' : World) : Type 0 where
    pub in_range : r.transferred ≤ length bytes
    pub on_wire : wire w' ≡ wire w ++ take r.transferred bytes
    pub all_sent : (r.status ≡ complete) ↔ (r.transferred ≡ length bytes)
    pub same_inbox : inbox w' ≡ inbox w
    pub quieter : signals w' ≤ signals w

  -- send_all is a total function on the states of a socket that keeps the documented rules. What
  -- it calls transferred is what the socket has taken, from the front, and the status is complete
  -- exactly when that is everything; the bytes to come stay as they are.
  pub send_all-SentAll :
      (bytes : List ℕ) (w : World) → SentAll bytes w (send_all bytes w).0 (send_all bytes w).1
  unfolding send_all
  send_all-SentAll bytes w =
      let (r, w', returned, goes) = send_loop-ends bytes w in
      let (from, to, wired, iff, same, quiet) = goes in
      got (send_loop s (send_fuel bytes w) bytes 0 w) (send_loop-ne-none bytes w) r w' returned
        (record {
          in_range = to;
          on_wire =
              wired ∙ ap (λ (k : ℕ). wire w ++ take k bytes) {x = r.transferred - 0} (omega arith);
          all_sent = iff;
          same_inbox = same;
          quieter = quiet;
        })
    where
      got :
          (o : Option (IoResult × World)) (ne : o ≢ none) (r : IoResult) (w' : World)
          → o ≡ some (r, w')
          → SentAll bytes w r w'
          → SentAll bytes w (get_some o ne).0 (get_some o ne).1
      got none ne r w' e h = absurd (ne refl)
      got (some (r1, w1)) ne r w' e h =
          subst (λ (x : IoResult × World). SentAll bytes w x.0 x.1) (sym (some-injective _ _ e)) h
