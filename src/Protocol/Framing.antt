-- ===== src/Protocol/Framing.antt =====
-- Messages one after the other (python/vsapi.py): what one side sends with sendMessageOnSocket, and
-- what the other makes of it with readMessageFromSocket.
use vizstack.Prelude.Digits.{Bytes}
use vizstack.Prelude.{ℕ, zero, suc, ◌+◌, ◌≤◌, ◌<◌, ◌≡◌, ◌⊎◌, List, [], ◌∷◌, ◌++◌, length}
use vizstack.Errors.{ok, raise, viz_error, bad_protocol, Statement, pure, ◌>>=◌, ◌>>◌}
use vizstack.Protocol.{read_message_from_socket, length_field, send_message_on_socket}
use vizstack.Protocol.Stream.{IsStream, InPieces}

-- The messages that the five bytes can tell of.
abbrev pub Fits : Bytes → Type 0
Fits m = (0 < length m) × (length m < 100000)

-- send_message_on_socket for one message after the other, and as many reads.
abbrev pub send_all :
    {Socket : Type 0} → (Bytes → Statement Socket ℕ) → List Bytes → Statement Socket ℕ
send_all send [] = pure 0
send_all send (m ∷ ms) = send_message_on_socket send m >> send_all send ms

abbrev pub read_all :
    {Socket : Type 0} → (ℕ → Statement Socket Bytes) → ℕ → Statement Socket (List Bytes)
read_all recv zero = pure []
read_all recv (suc n) =
    read_message_from_socket recv >>= (λ m. read_all recv n >>= (λ ms. pure (m ∷ ms)))

-- What the messages are on the wire.
abbrev pub wires : List Bytes → Bytes
wires [] = []
wires (m ∷ ms) = length_field (length m) ++ (m ++ wires ms)

module _ {Socket : Type 0} {send : Bytes → Statement Socket ℕ} {recv : ℕ → Statement Socket Bytes}
    {pending : Socket → Bytes} (stream : IsStream send recv pending) where
  -- What was meant to be sent is pending behind what was, or some of it is missing.
  abbrev Pends : Bytes → Socket → Socket → Type 0
  Pends bytes before now =
      (length (pending now) ≤ length (pending before) + length bytes)
      × ((pending now ≡ pending before ++ bytes)
          ⊎ (length (pending now) < length (pending before) + length bytes))

  -- All messages are read, or a length comes in pieces.
  abbrev AllOutcome : List Bytes → Socket → Type 0
  AllOutcome ms socket =
      ((final : Socket) × (read_all recv (length ms) socket ≡ (ok ms, final))
        × (pending final ≡ []))
      ⊎ ((final : Socket) × (read_all recv (length ms) socket
            ≡ (raise (viz_error bad_protocol), final))
          × InPieces recv pending)
