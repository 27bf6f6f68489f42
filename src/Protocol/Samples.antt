-- ===== src/Protocol/Samples.antt =====
-- A connection whose receiver gets three bytes at a time, and messages over it.
use vizstack.Prelude.Digits.{Bytes, digits, int_of}
use vizstack.Prelude.{
  ℕ, zero, suc, ◌<◌, ◌≡◌, refl, [], ◌∷◌, ◌++◌, leb, if◌then◌else◌, length, arith,
}
use vizstack.Errors.{viz_error, bad_protocol, ok, raise, Statement}
use vizstack.Protocol.{length_field, send_message_on_socket, receive, read_message_from_socket}
use vizstack.Protocol.Reading.{
  FailsAsSocket, IsOutcome, round, receive_lem, read_message_from_socket-IsOutcome,
}
use vizstack.Protocol.Framing.{send_all, read_all}
use vizstack.Protocol.Long.{read_message_from_socket_bound}

abbrev take : ℕ → Bytes → Bytes
take zero s = []
take (suc n) [] = []
take (suc n) (b ∷ s) = b ∷ take n s

abbrev drop : ℕ → Bytes → Bytes
drop zero s = s
drop (suc n) [] = []
drop (suc n) (b ∷ s) = drop n s

abbrev send : Bytes → Statement Bytes ℕ
send bytes socket = (ok (length bytes), socket ++ bytes)

abbrev piece : ℕ → ℕ
piece n = if leb n 5 then n else 3

abbrev recv : ℕ → Statement Bytes Bytes
recv n socket = (ok (take (piece n) socket), drop (piece n) socket)

abbrev hello : Bytes
hello = b'h' ∷ b'e' ∷ b'l' ∷ b'l' ∷ b'o' ∷ b'!' ∷ []

abbrev query : Bytes
query = b'<' ∷ b'q' ∷ b'/' ∷ b'>' ∷ []

abbrev on_the_wire : Bytes
on_the_wire = length_field 6 ++ hello

recv-FailsAsSocket : (n : ℕ) (socket : Bytes) → FailsAsSocket ((recv n socket).0)
recv-FailsAsSocket n socket = tt

field_test : length_field 42 ≡ b'4' ∷ b'2' ∷ b' ' ∷ b' ' ∷ b' ' ∷ []
unfolding length_field digits
field_test = refl

-- Six digits are not cut to five.
long_field_test : length (length_field 123456) ≡ 6
unfolding length_field digits
long_field_test = refl

-- An empty message is sent, and refused where it is read.
empty_test : (read_all recv 1 ((send_all send ([] ∷ []) []).1)).0 ≡ raise (viz_error bad_protocol)
unfolding send_message_on_socket read_message_from_socket digits int_of
empty_test = refl

receive_lem_example : receive recv 6 6 [] hello ≡ round recv (receive recv 6 6) 6 [] hello
receive_lem_example = receive_lem recv 6 6 [] hello (omega arith)

read_message_from_socket-IsOutcome_example :
    IsOutcome ((recv 5 on_the_wire).0) ((read_message_from_socket recv on_the_wire).0)
read_message_from_socket-IsOutcome_example =
    read_message_from_socket-IsOutcome recv recv-FailsAsSocket on_the_wire

read_hello : read_message_from_socket recv on_the_wire ≡ (ok hello, [])
unfolding read_message_from_socket length_field digits int_of
read_hello = refl

read_message_from_socket_bound_example : (0 < length hello) × (length hello < 100000)
read_message_from_socket_bound_example =
    read_message_from_socket_bound recv recv-FailsAsSocket on_the_wire [] hello read_hello

read_all_test :
    read_all recv 2 ((send_all send (hello ∷ query ∷ []) []).1) ≡ (ok (hello ∷ query ∷ []), [])
unfolding send_message_on_socket read_message_from_socket length_field digits int_of
read_all_test = refl
