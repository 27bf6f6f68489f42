-- ===== src/Protocol/Stream.antt =====
-- One message over a connection (python/vsapi.py): readMessageFromSocket against what the system
-- documents of send and recv.
use mathlib.Core.List.{append_assoc, append-nil}
use vizstack.Prelude.Digits.{Bytes}
use vizstack.Prelude.{
  ℕ, zero, suc, ◌+◌, ◌-◌, ◌≤◌, ◌<◌, ◌≡◌, refl, sym, ap, ◌∙◌, ◌⊎◌, inl, inr, Bool-cases, nat_beq, [],
  ◌∷◌, ◌++◌, ltb, true, length, length-append, nil_of_length, arith,
}
use vizstack.Errors.{ok, raise, viz_error, bad_protocol, Statement}
use vizstack.Protocol.{
  announced, translated, after_chunk, receive, complete, read_payload, read_rest,
  read_message_from_socket,
}
use vizstack.Protocol.Reading.{announced_iff, round}

-- The system's calls on a connection that neither fails nor closes in between. `pending` is what was
-- sent and not yet received.
pub record IsStream {Socket : Type 0} (send : Bytes → Statement Socket ℕ)
    (recv : ℕ → Statement Socket Bytes) (pending : Socket → Bytes) : Type 0 where
  -- A send takes a front of its bytes, and returns how long that is.
  pub sent :
      (bytes : Bytes) (socket : Socket)
      → (taken : Bytes) × (left : Bytes) × (now : Socket) × (send bytes socket
          ≡ (ok (length taken), now))
        × (bytes ≡ taken ++ left)
        × (pending now ≡ pending socket ++ taken)
  -- A receive takes at most as many bytes as it asked for, in order, and some if there are some.
  pub received :
      (n : ℕ) (socket : Socket)
      → 0 < n
      → (chunk : Bytes) × (now : Socket) × (recv n socket ≡ (ok chunk, now))
        × (pending socket ≡ chunk ++ pending now)
        × (length chunk ≤ n)
        × (length chunk ≡ 0 → pending socket ≡ [])

-- A receive took a part of the five bytes of a length, which were all there.
abbrev pub InPieces : {Socket : Type 0} → (ℕ → Statement Socket Bytes) → (Socket → Bytes) → Type 0
InPieces {Socket} recv pending =
    (before : Socket) × (chunk : Bytes) × (after : Socket) × (recv 5 before ≡ (ok chunk, after))
    × (length chunk < 5)
    × (5 ≤ length (pending before))

-- Two ways to cut one text: the shorter front is a front of the longer one.
cut :
    (front back m rest : Bytes)
    → front ++ back ≡ m ++ rest
    → length front ≤ length m
    → (more : Bytes) × (m ≡ front ++ more) × (back ≡ more ++ rest)
cut [] back m rest e h = (m, refl, e)
cut (b ∷ front) back [] rest e h = absurd (omega arith)
cut (b ∷ front) back (c ∷ m) rest e h =
    let (more, left, right) = cut front back m rest (cc) (omega arith) in (more, cc, right)

cut_same :
    (front back m rest : Bytes)
    → front ++ back ≡ m ++ rest
    → length front ≡ length m
    → (m ≡ front) × (back ≡ rest)
cut_same front back m rest e h =
    let (more, left, right) = cut front back m rest e (omega arith) in
    let none_left : more ≡ [] =
      nil_of_length more (omega (arith, length-append front more, ap length left)) in
    (left ∙ ap (front ++◌) none_left ∙ append-nil front, right ∙ ap (◌++ rest) none_left)

module _ {Socket : Type 0} {send : Bytes → Statement Socket ℕ} {recv : ℕ → Statement Socket Bytes}
    {pending : Socket → Bytes} (stream : IsStream send recv pending) where
  -- What is left of `m` arrives, behind the payload so far.
  abbrev Arrives : (Bytes → Statement Socket Bytes) → Bytes → Bytes → Bytes → Socket → Type 0
  Arrives loop payload m rest socket =
      (now : Socket) × (loop payload socket ≡ (ok (payload ++ m), now)) × (pending now ≡ rest)

  after_chunk-Arrives :
      (again : Bytes → Statement Socket Bytes) (payload m rest chunk : Bytes) (socket now : Socket)
      → 0 < length m
      → pending socket ≡ m ++ rest
      → pending socket ≡ chunk ++ pending now
      → length chunk ≤ length m
      → (length chunk ≡ 0 → pending socket ≡ [])
      → ((more : Bytes)
          → m ≡ chunk ++ more
          → 0 < length chunk
          → pending now ≡ more ++ rest
          → Arrives again (payload ++ chunk) more rest now)
      → (after : Socket) × (after_chunk again payload chunk now ≡ (ok (payload ++ m), after))
        × (pending after ≡ rest)
  unfolding after_chunk
  after_chunk-Arrives again payload m rest [] socket now some_m e split short there ih =
      absurd (omega (arith, ap length (sym (there refl) ∙ e), length-append m rest))
  after_chunk-Arrives again payload m rest (c ∷ chunk) socket now some_m e split short there ih =
      let (more, whole, behind) = cut (c ∷ chunk) (pending now) m rest (sym split ∙ e) short in
      let (after, read, left) = ih more whole (omega arith) behind in
      (
        after,
        read
            ∙ ap (λ p. (ok p, after))
                (append_assoc payload (c ∷ chunk) more ∙ ap (payload ++◌) (sym whole)),
        left,
      )

  round_lem :
      (again : Bytes → Statement Socket Bytes) (wanted : ℕ) (payload chunk : Bytes)
      (socket now : Socket)
      → length payload < wanted
      → recv (wanted - length payload) socket ≡ (ok chunk, now)
      → round recv again wanted payload socket ≡ after_chunk again payload chunk now
  round_lem again wanted payload chunk socket now missing got =
      let more : ltb (length payload) wanted ≡ true = ground arith in rw (more, got)

  -- The loop takes exactly the bytes that are missing, however they come in.
  receive-Arrives :
      (rounds wanted : ℕ) (payload m rest : Bytes) (socket : Socket)
      → length m ≤ rounds
      → length payload + length m ≡ wanted
      → pending socket ≡ m ++ rest
      → Arrives (receive recv rounds wanted) payload m rest socket
  unfolding receive
  receive-Arrives zero wanted payload [] rest socket h k e =
      (socket, ap (λ p. (ok p, socket)) (sym (append-nil payload)), e)
  receive-Arrives zero wanted payload (b ∷ m) rest socket h k e = absurd (omega arith)
  receive-Arrives (suc rounds) wanted payload [] rest socket h k e =
      (socket, ground (arith, append-nil payload), e)
  receive-Arrives (suc rounds) wanted payload (b ∷ m) rest socket h k e =
      let (chunk, now, got, split, short, there) =
        stream.received (wanted - length payload) socket (omega arith) in
      let (after, read, left) =
        after_chunk-Arrives (receive recv rounds wanted) payload (b ∷ m) rest chunk socket now
          (omega arith) e split (omega arith) there
          λ more whole some_bytes behind.
            receive-Arrives rounds wanted (payload ++ chunk) more rest now
              (omega (arith, ap length whole, length-append chunk more))
              (omega
                (arith, ap length whole, length-append chunk more, length-append payload chunk))
              behind in
      (
        after,
        round_lem (receive recv rounds wanted) wanted payload chunk socket now (omega arith) got
            ∙ read,
        left,
      )

  read_rest_lem :
      (field m : Bytes) (now after : Socket)
      → announced field ≡ ok (length m)
      → receive recv (length m) (length m) [] now ≡ (ok m, after)
      → read_rest recv field now ≡ (ok m, after)
  unfolding read_rest read_payload complete
  read_rest_lem field m now after told read = rw (told, read) (ground arith)

  -- A length field and the message behind it are read as the message, and what follows stays pending;
  -- or the field came in pieces, and is refused.
  abbrev pub ReadOutcome : Bytes → Bytes → Socket → Type 0
  ReadOutcome m rest socket =
      ((now : Socket) × (read_message_from_socket recv socket ≡ (ok m, now)) × (pending now ≡ rest))
      ⊎ ((now : Socket) × (read_message_from_socket recv socket
            ≡ (raise (viz_error bad_protocol), now))
          × InPieces recv pending)

  whole_field :
      (field m rest chunk : Bytes) (socket now : Socket)
      → announced field ≡ ok (length m)
      → pending socket ≡ field ++ (m ++ rest)
      → recv 5 socket ≡ (ok chunk, now)
      → pending socket ≡ chunk ++ pending now
      → length chunk ≡ length field
      → ReadOutcome m rest socket
  unfolding read_message_from_socket translated
  whole_field field m rest chunk socket now told e got split all_five =
      let (is_field, behind) =
        cut_same chunk (pending now) field (m ++ rest) (sym split ∙ e) all_five in
      let (after, read, left) =
        receive-Arrives (length m) (length m) [] m rest now (omega arith) (omega arith) behind in
      inl (
        after,
        rw (got ∙ ap (λ f. (ok f, now)) (sym is_field), read_rest_lem field m now after told read)
            refl,
        left,
      )

  announced_part :
      (chunk : Bytes)
      → 0 < length chunk
      → length chunk < 5
      → announced chunk ≡ raise (viz_error bad_protocol)
  unfolding announced
  announced_part chunk some_bytes few = ground arith

  part_of_field :
      (chunk m rest : Bytes) (socket now : Socket)
      → recv 5 socket ≡ (ok chunk, now)
      → 0 < length chunk
      → length chunk < 5
      → 5 ≤ length (pending socket)
      → ReadOutcome m rest socket
  unfolding read_message_from_socket translated read_rest
  part_of_field chunk m rest socket now got some_bytes few there = inr (
    now,
    rw (got, announced_part chunk some_bytes few) refl,
    (socket, chunk, now, got, few, there),
  )

  pub read-ReadOutcome :
      (field m rest : Bytes) (socket : Socket)
      → announced field ≡ ok (length m)
      → pending socket ≡ field ++ (m ++ rest)
      → ReadOutcome m rest socket
  read-ReadOutcome field m rest socket told e =
      let (five, some_m, _) = (announced_iff field (length m)).0 told in
      let (chunk, now, got, split, short, there) = stream.received 5 socket (omega arith) in
      let size : length (pending socket) ≡ length field + length (m ++ rest) =
        ap length e ∙ length-append field (m ++ rest) in
      let cases : (length chunk ≡ 5) ⊎ (length chunk < 5) = ground arith in
      elim cases [
        | inl all_five ↦ whole_field field m rest chunk socket now told e got split (omega arith)
        | inr few ↦ elim (Bool-cases (nat_beq (length chunk) 0)) [
          | inl z ↦
              let zero_bytes : length chunk ≡ 0 = ground arith in
              absurd (omega (arith, ap length (there zero_bytes), size))
          | inr present ↦ part_of_field chunk m rest socket now got (ground arith) few (omega arith)
        ]
      ]
