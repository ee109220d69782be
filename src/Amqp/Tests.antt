-- ===== src/Amqp/Tests.antt =====
-- A write that fills the buffer, a handler's loop, and what it sends.
mod Links
use limb_worker.Prelude.{
  refl, joined, ◌≤◌, List, some, none, true, Bytes, ◌≡◌, ◌∷◌, ◌++◌, [], min, length, arith,
}
use limb_worker.Amqp.Buffer.{Buffer, content, write}
use limb_worker.Amqp.Buffer.Content.{IsValid}
use limb_worker.Amqp.Handler.{
  Callback, Library, Round, fresh_handler, call_backs, loop, receive, consume, call_back, on_data,
  send_data_from_buffer, finish,
}
use limb_worker.Amqp.Handler.Streams.{loop-call_backs}
use limb_worker.Amqp.Handler.Sending.{handed, call_backs-fresh_handler}

abbrev three : Bytes
three = 1 ∷ 2 ∷ 3 ∷ []

abbrev one_used : Buffer
one_used = record { bytes = 7 ∷ 0 ∷ 0 ∷ []; used = 1 }

one_used-IsValid : IsValid one_used
one_used-IsValid = record { fits = omega arith; small = omega arith }

-- A library that takes one byte at a time, and answers each with two.
abbrev library : Library
library = record {
  parse = λ front. min 1 (length front);
  callbacks = λ front. Callback.data_out (1 ∷ 2 ∷ []) ∷ [];
}

abbrev rounds : List Round
rounds =
    record { polled = true; received = some three }
    ∷ record { polled = true; received = some (4 ∷ []) }
    ∷ record { polled = true; received = none }
    ∷ []

abbrev library_calls : List Callback
library_calls =
    Callback.data_out three ∷ Callback.ready ∷ Callback.data_out (4 ∷ []) ∷ Callback.closed ∷ []

parse_bounded : (front : Bytes) → library.parse front ≤ length front
parse_bounded front = omega arith

-- The connection's constructor sends the header of the protocol.
abbrev header_sent : List Callback
header_sent = Callback.data_out (65 ∷ []) ∷ []

-- Two rounds of the loop parse a byte each; two more stay.
parsed_two :
    let h = loop library rounds (call_backs header_sent (fresh_handler 4)) in
    (h.parsed ≡ 1 ∷ 2 ∷ []) × (content h.input ≡ 3 ∷ 4 ∷ [])
unfolding loop receive consume call_backs call_back on_data send_data_from_buffer finish write
parsed_two = (refl, refl)

loop-call_backs_example :
    let h = loop library rounds (call_backs header_sent (fresh_handler 4)) in
    h.parsed ++ content h.input ≡ h.taken
loop-call_backs_example =
    loop-call_backs library header_sent rounds 4 parse_bounded (omega arith)
      (omega arith, (omega arith, (omega arith, tt)))

call_backs-fresh_handler_example :
    joined (call_backs library_calls (fresh_handler 4)).sent ≡ handed library_calls
call_backs-fresh_handler_example =
    call_backs-fresh_handler library_calls 4 (omega arith) (omega arith, (omega arith, tt))
