-- ===== src/PingPong/Exchange.antt =====
-- What the two ends of src/common/ping_pong.cpp accept.
use syncwire.Common.{
  ℕ, ◌≡◌, ◌≢◌, ◌↔◌, refl, true, false, List, [], ◌∷◌, ◌==◌, ok, Bool-cases, Outcome-cases, inl, inr,
  arith,
}
use syncwire.Protocol.{Frame, MessageType, ping, pong, type_eq→eq, type_eq_self}
use syncwire.FrameIo.{frame_io_ok}
use syncwire.Link.{Link}
use syncwire.PingPong.{
  PingPongStatus, frame_error, is_empty, validate_common, exchange_frame, succeeded, check_pong,
  await_pong, perform_ping,
}

-- A frame that passes validate_common.
pub record IsExchange (type : MessageType) (f : Frame) : Type 0 where
  pub type_ok : f.header.message_type ≡ type
  pub empty : f.payload ≡ []
  pub numbered : f.header.request_id ≢ 0
  pub no_transfer : f.header.transfer_id ≡ 0

is_empty-nil : (xs : List ℕ) → is_empty xs ≡ true → xs ≡ []
is_empty-nil [] h = refl
is_empty-nil (x ∷ xs) h = cc

not_zero : (n : ℕ) → n ≢ 0 → (n == 0) ≡ false
not_zero n h = ground arith

-- validate_common lets through exactly the frames of the expected type that have no payload, a
-- request id and no transfer id.
pub validate_common_iff :
    (f : Frame) (type : MessageType)
    → (validate_common f type ≡ PingPongStatus.success) ↔ IsExchange type f
unfolding validate_common
validate_common_iff f type = (
  λ h. record {
    type_ok = type_eq→eq f.header.message_type type (ground arith);
    empty = is_empty-nil f.payload (ground arith);
    numbered = ground arith;
    no_transfer = ground arith;
  },
  λ v.
      rw
        (
          v.type_ok,
          type_eq_self type,
          v.empty,
          v.no_transfer,
          not_zero f.header.request_id v.numbered,
        )
        refl,
)

succeeded_iff : (x : PingPongStatus) → (succeeded x ≡ true) ↔ (x ≡ PingPongStatus.success)
succeeded_iff PingPongStatus.success = (λ h. refl, λ h. refl)
succeeded_iff x = (λ h. cc h, λ h. cc h)

module _ (l : Link) where
  open l use {World, send, receive}

  -- What makes a ping of the client a success.
  pub record Answered (request_id : ℕ) (w : World) : Type 0 where
    pub request_ok : request_id ≢ 0
    pub sent_ok : frame_io_ok (send (exchange_frame ping request_id) w).0.status ≡ true
    pub answer : Frame
    pub received : (receive (send (exchange_frame ping request_id) w).1).0 ≡ ok answer
    pub pong_ok : IsExchange pong answer
    pub same_id : answer.header.request_id ≡ request_id

  check_pong_iff :
      (request_id : ℕ) (answer : Frame)
      → ((check_pong request_id answer).status ≡ PingPongStatus.success)
        ↔ (IsExchange pong answer × (answer.header.request_id ≡ request_id))
  unfolding check_pong
  check_pong_iff request_id answer = elim (Bool-cases (succeeded (validate_common answer pong))) [
    | inr bad ↦ (
      λ h. absurd (cc (bad, (succeeded_iff (validate_common answer pong)).1 (rw bad at h))),
      λ h. cc (
        bad,
        (succeeded_iff (validate_common answer pong)).1 ((validate_common_iff answer pong).1 h.0),
      ),
    )
    | inl good ↦
        let valid =
          (validate_common_iff answer pong).0
            ((succeeded_iff (validate_common answer pong)).0 good) in
        (λ h. (valid, ground arith), λ h. rw (good, h.1) (ground arith))
  ]

  -- perform_ping succeeds exactly when the request id is not 0, the PING went out whole and the next
  -- frame is a PONG with the same request id, no payload and no transfer id.
  pub perform_ping_iff :
      (request_id : ℕ) (w : World)
      → ((perform_ping l request_id w).0.status ≡ PingPongStatus.success) ↔ Answered request_id w
  unfolding perform_ping await_pong frame_error
  perform_ping_iff request_id w = (success-Answered, Answered-success)
    where
      success-Answered :
          (perform_ping l request_id w).0.status ≡ PingPongStatus.success → Answered request_id w
      success-Answered h = elim (Bool-cases (request_id == 0)) [
        | inl bad ↦ cc (rw bad at h)
        | inr numbered ↦
            elim (Bool-cases (frame_io_ok (send (exchange_frame ping request_id) w).0.status)) [
              | inr bad ↦ cc (rw (numbered, bad) at h)
              | inl sent ↦
                  elim (Outcome-cases (receive (send (exchange_frame ping request_id) w).1).0) [
                    | inr (e, bad) ↦ cc (rw (numbered, sent, await_pong, bad) at h)
                    | inl (answer, got) ↦
                        let (valid, same) =
                          (check_pong_iff request_id answer).0
                            (rw (numbered, sent, await_pong, got) at h) in
                        record {
                          request_ok = ground arith;
                          sent_ok = sent;
                          answer = answer;
                          received = got;
                          pong_ok = valid;
                          same_id = same;
                        }
                  ]
            ]
      ]

      Answered-success :
          Answered request_id w → (perform_ping l request_id w).0.status ≡ PingPongStatus.success
      Answered-success a =
          rw (not_zero request_id a.request_ok, a.sent_ok, await_pong, a.received)
            ((check_pong_iff request_id a.answer).1 (a.pong_ok, a.same_id))
