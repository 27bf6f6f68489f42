-- ===== src/Protocol.antt =====
-- The message framing of python/vsapi.py, which the clients and vs-ssm share: sendMessageOnSocket
-- and readMessageFromSocket. A message travels behind its length, five bytes of decimal digits and
-- blanks. The socket is a parameter: `Socket` is what the process and its peer know of the
-- connection, and `send` and `recv` are the calls of the operating system.
mod Reading
mod Stream
mod Framing
mod Long
mod Samples
use vizstack.Prelude.Digits.{Bytes, digits, int_of}
use vizstack.Prelude.Int.{ℤ, pos, negsuc}
use vizstack.Prelude.{
  ℕ, zero, suc, ◌-◌, Option, none, some, [], ◌∷◌, ◌++◌, ltb, nat_beq, if◌then◌else◌, length,
  replicate,
}
use vizstack.Errors.{
  Exception, viz_error, socket_failure, socket_error, not_connected, bad_protocol, Result, ok,
  raise, Statement, proceed, pure, ◌>>=◌, ◌>>◌,
}

-- `'%d' % len(message)`, filled up to five bytes: a longer number is not cut.
unfoldable pub length_field : ℕ → Bytes
length_field n = let field = digits n in field ++ replicate (5 - length field) b' '

-- What the five bytes announce.
unfoldable pub announced : Bytes → Result ℕ
announced field =
    if nat_beq (length field) 0
    then raise (viz_error not_connected)
    else if nat_beq (length field) 5
    then elim (int_of field) [
      | none ↦ raise (viz_error bad_protocol)
      | some (negsuc n) ↦ raise (viz_error bad_protocol)
      | some (pos zero) ↦ raise (viz_error bad_protocol)
      | some (pos (suc n)) ↦ ok (suc n)
    ]
    else raise (viz_error bad_protocol)

-- except socket.error
unfoldable pub translated {ℓ} : {A : Type ℓ} → Result A → Result A
translated (raise socket_failure) = raise (viz_error socket_error)
translated r = r

-- Code that does not touch the socket.
abbrev pub lift : {S A : Type 0} → Result A → Statement S A
lift r s = (r, s)

unfoldable pub complete : ℕ → Bytes → Result Bytes
complete wanted payload =
    if nat_beq (length payload) wanted then ok payload else raise (viz_error bad_protocol)

module _ {Socket : Type 0} where
  -- The results of sock.send, how many bytes went out, are not looked at.
  unfoldable pub send_message_on_socket : (Bytes → Statement Socket ℕ) → Bytes → Statement Socket ℕ
  unfolding length_field
  send_message_on_socket send message = send (length_field (length message)) >> send message

  -- `if len(data)==0: break`, or the payload grows and the loop goes on.
  pub after_chunk : (Bytes → Statement Socket Bytes) → Bytes → Bytes → Statement Socket Bytes
  after_chunk another payload [] = pure payload
  after_chunk another payload (b ∷ more) = another (payload ++ b ∷ more)

  module _ (recv : ℕ → Statement Socket Bytes) where
    -- The loop over recv; each round that goes on has added a byte, so that `wanted` rounds are
    -- enough.
    unfoldable pub receive : ℕ → ℕ → Bytes → Statement Socket Bytes
    unfolding after_chunk
    receive zero wanted payload socket = (ok payload, socket)
    receive (suc rounds) wanted payload socket =
        let another = receive rounds wanted in
        if ltb (length payload) wanted
        then proceed (after_chunk another payload) (recv (wanted - length payload) socket)
        else (ok payload, socket)

    pub read_payload : ℕ → Statement Socket Bytes
    unfolding receive complete
    read_payload wanted = receive wanted wanted [] >>= (λ payload. lift (complete wanted payload))

    pub read_rest : Bytes → Statement Socket Bytes
    unfolding announced read_payload
    read_rest field = lift (announced field) >>= read_payload

    unfoldable pub read_message_from_socket : Statement Socket Bytes
    unfolding read_rest translated
    read_message_from_socket socket =
        let (result, after) = (recv 5 >>= read_rest) socket in (translated result, after)
