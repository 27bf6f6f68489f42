-- ===== src/Protocol/Reading.antt =====
-- readMessageFromSocket (python/vsapi.py) against any peer: its loop ends, and what it may raise.
use vizstack.Prelude.Digits.{Bytes, int_of}
use vizstack.Prelude.Int.{pos}
use vizstack.Prelude.{
  ℕ, zero, suc, ◌+◌, ◌-◌, ◌≤◌, ◌<◌, ◌≡◌, refl, ap, ◌⊎◌, ◌↔◌, inl, inr, some, [], ◌∷◌, ◌++◌, ltb,
  nat_beq, if◌then◌else◌, Bool-cases, length, length-append, arith,
}
use vizstack.Errors.{
  Exception, viz_error, socket_failure, socket_error, not_connected, bad_protocol, Result, ok,
  raise, Result-cases, Statement, proceed,
}
use vizstack.Protocol.{
  announced, translated, after_chunk, receive, complete, read_payload, read_rest, lift,
  read_message_from_socket,
}

module _ {ℓ} {State Value Next : Type ℓ} where
  proceed_same :
      (f g : Value → Statement State Next)
      → ((v : Value) (s : State) → f v s ≡ g v s)
      → (r : Result Value × State) → proceed f r ≡ proceed g r
  proceed_same f g same (ok v, s) = same v s
  proceed_same f g same (raise e, s) = refl

module _ {Socket : Type 0} (recv : ℕ → Statement Socket Bytes) where
  -- One round of the source's loop, and what follows it.
  abbrev pub round : (Bytes → Statement Socket Bytes) → ℕ → Bytes → Statement Socket Bytes
  round again wanted payload socket =
      if ltb (length payload) wanted
      then proceed (after_chunk again payload) (recv (wanted - length payload) socket)
      else (ok payload, socket)

  -- Two ways to go on that agree on longer payloads.
  after_chunk_same :
      (f g : Bytes → Statement Socket Bytes) (payload : Bytes)
      → ((longer : Bytes) (now : Socket)
          → length payload < length longer
          → f longer now ≡ g longer now)
      → (chunk : Bytes) (now : Socket)
      → after_chunk f payload chunk now ≡ after_chunk g payload chunk now
  unfolding after_chunk
  after_chunk_same f g payload same [] now = refl
  after_chunk_same f g payload same (b ∷ rest) now =
      same (payload ++ b ∷ rest) now (omega (arith, length-append payload (b ∷ rest)))

  receive_same :
      (rounds more wanted : ℕ) (payload : Bytes) (socket : Socket)
      → wanted ≤ length payload + rounds
      → wanted ≤ length payload + more
      → receive recv rounds wanted payload socket ≡ receive recv more wanted payload socket
  unfolding receive
  receive_same zero zero wanted payload socket h k = refl
  receive_same zero (suc more) wanted payload socket h k = ground arith
  receive_same (suc rounds) zero wanted payload socket h k = ground arith
  receive_same (suc rounds) (suc more) wanted payload socket h k =
      ap (λ r. if ltb (length payload) wanted then r else (ok payload, socket))
        (proceed_same _ _
          (after_chunk_same (receive recv rounds wanted) (receive recv more wanted) payload
            λ longer now grown.
              receive_same rounds more wanted longer now (omega arith) (omega arith))
          (recv (wanted - length payload) socket))

  -- The loop over recv ends whatever recv answers: with at least as many rounds as bytes are missing,
  -- `receive` equals one round of the source's `while` followed by itself, with no round used up.
  pub receive_lem :
      (rounds wanted : ℕ) (payload : Bytes) (socket : Socket)
      → wanted ≤ length payload + rounds
      → receive recv rounds wanted payload socket
        ≡ round (receive recv rounds wanted) wanted payload socket
  unfolding receive
  receive_lem rounds wanted payload socket h =
      receive_same rounds (suc rounds) wanted payload socket h (omega arith)

pub announced_iff :
    (field : Bytes) (n : ℕ)
    → (announced field ≡ ok n) ↔ ((length field ≡ 5) × (0 < n) × (int_of field ≡ some (pos n)))
unfolding announced
announced_iff field n = ground arith

announced-raise :
    (field : Bytes) (e : Exception)
    → announced field ≡ raise e
    → (e ≡ viz_error not_connected) ⊎ (e ≡ viz_error bad_protocol)
unfolding announced
announced-raise field e h = ground arith

-- Raised by recv: socket.error and nothing else.
abbrev pub FailsAsSocket : {A : Type 0} → Result A → Type 0
FailsAsSocket (ok a) = Unit
FailsAsSocket (raise e) = e ≡ socket_failure

-- A whole message of the length that the first five bytes announce, or one of three VizErrors.
abbrev pub IsOutcome : Result Bytes → Result Bytes → Type 0
IsOutcome first (ok payload) =
    (field : Bytes) × (first ≡ ok field)
    × (length field ≡ 5)
    × (0 < length payload)
    × (int_of field ≡ some (pos (length payload)))
IsOutcome first (raise e) =
    (e ≡ viz_error not_connected) ⊎ (e ≡ viz_error bad_protocol) ⊎ (e ≡ viz_error socket_error)

module _ {Socket : Type 0} (recv : ℕ → Statement Socket Bytes)
    (recv-FailsAsSocket : (n : ℕ) (socket : Socket) → FailsAsSocket ((recv n socket).0)) where
  proceed-FailsAsSocket :
      (f : Bytes → Statement Socket Bytes) (r : Result Bytes × Socket)
      → FailsAsSocket (r.0)
      → ((v : Bytes) (s : Socket) → FailsAsSocket ((f v s).0))
      → FailsAsSocket ((proceed f r).0)
  proceed-FailsAsSocket f (ok v, s) h k = k v s
  proceed-FailsAsSocket f (raise e, s) h k = h

  after_chunk-FailsAsSocket :
      (f : Bytes → Statement Socket Bytes) (payload : Bytes)
      → ((longer : Bytes) (s : Socket) → FailsAsSocket ((f longer s).0))
      → (chunk : Bytes) (s : Socket) → FailsAsSocket ((after_chunk f payload chunk s).0)
  unfolding after_chunk
  after_chunk-FailsAsSocket f payload h [] s = tt
  after_chunk-FailsAsSocket f payload h (b ∷ more) s = h (payload ++ b ∷ more) s

  receive-FailsAsSocket :
      (rounds wanted : ℕ) (payload : Bytes) (socket : Socket)
      → FailsAsSocket ((receive recv rounds wanted payload socket).0)
  unfolding receive
  receive-FailsAsSocket zero wanted payload socket = tt
  receive-FailsAsSocket (suc rounds) wanted payload socket =
      elim (Bool-cases (ltb (length payload) wanted)) [
        | inl e ↦ rw e (
            proceed-FailsAsSocket (after_chunk (receive recv rounds wanted) payload)
              (recv (wanted - length payload) socket)
              (recv-FailsAsSocket (wanted - length payload) socket)
              (after_chunk-FailsAsSocket (receive recv rounds wanted) payload
                (receive-FailsAsSocket rounds wanted)))
        | inr e ↦ rw e tt
      ]

  -- What the loop left is whole or refused.
  completed :
      (field : Bytes) (wanted : ℕ)
      → announced field ≡ ok wanted
      → (r : Result Bytes × Socket) → FailsAsSocket (r.0)
      → IsOutcome
          (ok field)
          (translated ((proceed (λ payload. lift (complete wanted payload)) r).0))
  unfolding translated complete
  completed field wanted h (raise e, s) k = rw k (inr (inr refl))
  completed field wanted h (ok payload, s) k =
      let (five, some_bytes, value) = (announced_iff field wanted).0 h in
      elim (Bool-cases (nat_beq (length payload) wanted)) [
        | inl e ↦
            let same : length payload ≡ wanted = ground arith in
            rw e (field, refl, five, omega arith, rw same value)
        | inr e ↦ rw e (inr (inl refl))
      ]

  read_from :
      (first : Result Bytes × Socket)
      → FailsAsSocket (first.0)
      → IsOutcome (first.0) (translated ((proceed (read_rest recv) first).0))
  unfolding translated read_rest read_payload
  read_from (raise e, s) h = rw h (inr (inr refl))
  read_from (ok field, s) h = elim (Result-cases (announced field)) [
    | inl (wanted, e) ↦ rw e (
        completed field wanted e (receive recv wanted wanted [] s)
          (receive-FailsAsSocket wanted wanted [] s))
    | inr (x, e) ↦ rw e (elim (announced-raise field x e) [
      | inl h ↦ rw h (inl refl)
      | inr h ↦ rw h (inr (inl refl))
    ])
  ]

  -- Whatever the peer sends, a read gives a message whose length is the positive number announced in
  -- the first five bytes, or raises a VizError: not_connected, bad_protocol or socket_error. The
  -- condition is that recv raises nothing but socket.error.
  pub read_message_from_socket-IsOutcome :
      (socket : Socket) → IsOutcome ((recv 5 socket).0) ((read_message_from_socket recv socket).0)
  unfolding read_message_from_socket
  read_message_from_socket-IsOutcome socket =
      read_from (recv 5 socket) (recv-FailsAsSocket 5 socket)
