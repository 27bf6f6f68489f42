-- ===== src/Protocol/Long.antt =====
-- The size of a message (python/vsapi.py): five bytes of length cannot tell of 100,000 bytes, and
-- sendMessageOnSocket does not look at the size.
use vizstack.Prelude.Digits.{Bytes, int_of_bound}
use vizstack.Prelude.{ℕ, ◌<◌, ◌≡◌, ap, subst, ◌^◌, length, arith}
use vizstack.Errors.{Result, ok, Statement}
use vizstack.Protocol.{read_message_from_socket}
use vizstack.Protocol.Reading.{FailsAsSocket, IsOutcome, read_message_from_socket-IsOutcome}

module _ {Socket : Type 0} (recv : ℕ → Statement Socket Bytes)
    (recv-FailsAsSocket : (n : ℕ) (socket : Socket) → FailsAsSocket ((recv n socket).0)) where
  outcome_bound : (first : Result Bytes) (m : Bytes) → IsOutcome first (ok m) → length m < 100000
  outcome_bound first m (field, is_first, five, some_bytes, value) =
      let under : length m < 10 ^ length field = int_of_bound field (length m) value in
      let width : 10 ^ length field ≡ 100000 = ap (λ k. 10 ^ k) five in omega arith

  -- A message that is read has at least 1 and at most 99,999 bytes, whatever the peer sent. The
  -- condition is that recv raises nothing but socket.error.
  pub read_message_from_socket_bound :
      (socket now : Socket) (m : Bytes)
      → read_message_from_socket recv socket ≡ (ok m, now)
      → (0 < length m) × (length m < 100000)
  read_message_from_socket_bound socket now m h =
      let outcome : IsOutcome ((recv 5 socket).0) (ok m) =
        subst (IsOutcome ((recv 5 socket).0)) (ap (λ r. r.0) h)
          (read_message_from_socket-IsOutcome recv recv-FailsAsSocket socket) in
      let (_, _, _, some_bytes, _) = outcome in
      (some_bytes, outcome_bound ((recv 5 socket).0) m outcome)
