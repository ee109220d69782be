-- ===== src/Amqp/Handler/Sending.antt =====
-- amqp-handler.cpp: the bytes that the library sends.
use limb_worker.Prelude.{
  Bytes, joined, joined-append, ℕ, ◌^◌, ◌≤◌, ◌<◌, ◌≡◌, refl, sym, ap, ap₂, ◌∙◌, true, Bool-cases,
  inl, inr, List, [], ◌∷◌, ◌++◌, arith, ◌==◌, length, take, append_assoc, append-nil, length-take,
  length-replicate,
}
use limb_worker.Amqp.Buffer.{Buffer, write, content}
use limb_worker.Amqp.Buffer.Content.{IsValid, write_lem, drain_lem}
use limb_worker.Amqp.Handler.{
  Handler, Callback, fresh_handler, send_data_from_buffer, on_data, on_ready, on_closed, call_back,
  call_backs,
}
use limb_worker.Amqp.Handler.Streams.{make_buffer-IsValid}

-- The bytes that the library hands over to be sent.
abbrev pub handed : List Callback → Bytes
handed [] = []
handed (Callback.data_out bytes ∷ cs) = bytes ++ handed cs
handed (Callback.ready ∷ cs) = handed cs
handed (Callback.closed ∷ cs) = handed cs

-- No piece is larger than the output buffer.
abbrev pub Pieces : ℕ → List Callback → Type 0
Pieces size [] = Unit {0}
Pieces size (Callback.data_out bytes ∷ cs) = (length bytes ≤ size) × Pieces size cs
Pieces size (Callback.ready ∷ cs) = Pieces size cs
Pieces size (Callback.closed ∷ cs) = Pieces size cs

abbrev Drained : ℕ → Handler → Type 0
Drained size h = IsValid h.out × (length h.out.bytes ≡ size) × (h.out.used ≡ 0)

take-length : (xs : Bytes) → take (length xs) xs ≡ xs
take-length [] = refl
take-length (x ∷ xs) = ap (λ zs. x ∷ zs) (take-length xs)

length-content : (b : Buffer) → IsValid b → length (content b) ≡ b.used
length-content b v = omega (arith, length-take b.used b.bytes, v.fits)

-- A drained buffer that takes a piece holds that piece.
write-drained :
    (b : Buffer) (bytes : Bytes)
    → IsValid b
    → b.used ≡ 0
    → length bytes ≤ length b.bytes
    → let (b', count) = write b bytes in
      (count ≡ length bytes)
      × (content b' ≡ bytes)
      × (length b'.bytes ≡ length b.bytes)
      × IsValid b'
write-drained b bytes v empty fits =
    let (count_min, appended, same, valid) = write_lem b bytes v (omega (arith, fits, v.small)) in
    let count_all : (write b bytes).1 ≡ length bytes = omega (arith, count_min, fits, empty) in
    (
      count_all,
      appended ∙ ap₂ (λ n m. take n b.bytes ++ take m bytes) empty count_all ∙ take-length bytes,
      same,
      valid,
    )

send_data_from_buffer-sent :
    (h : Handler)
    → IsValid h.out
    → (joined (send_data_from_buffer h).sent ≡ joined h.sent ++ content h.out)
      × Drained (length h.out.bytes) (send_data_from_buffer h)
unfolding send_data_from_buffer
send_data_from_buffer-sent h v = elim (Bool-cases (h.out.used == 0)) [
  | inl empty ↦
      let zero_used : h.out.used ≡ 0 = ground (arith, empty) in
      rw (empty) (
        sym (append-nil (joined h.sent))
            ∙ ap (λ n. joined h.sent ++ take n h.out.bytes) (sym zero_used),
        (v, refl, zero_used),
      )
  | inr some_used ↦
      let (nothing, same, valid) = drain_lem h.out v in
      rw (some_used) (
        joined-append h.sent (content h.out ∷ [])
            ∙ ap (λ zs. joined h.sent ++ zs) (append-nil (content h.out)),
        (valid, same, refl),
      )
]

-- A handler whose output is drained sends a piece at once.
on_data-sent :
    (size : ℕ) (bytes : Bytes) (h : Handler)
    → Drained size h
    → length bytes ≤ size
    → (joined (on_data bytes h).sent ≡ joined h.sent ++ bytes) × Drained size (on_data bytes h)
unfolding on_data
on_data-sent size bytes h (valid, capacity, empty) fits =
    let (out, written) = write h.out bytes in
    let (all_written, holds, same, valid') =
      write-drained h.out bytes valid empty (omega (arith, fits, capacity)) in
    let filled : Handler = record h { connection = true; out = out } in
    let flushed = send_data_from_buffer filled in
    let (sent, (drained_valid, drained_size, drained_empty)) =
      send_data_from_buffer-sent filled valid' in
    let (none_written, holds', same', valid'') =
      write-drained flushed.out [] drained_valid drained_empty (omega arith) in
    let test : (written == length bytes) ≡ true = ground (arith, all_written) in
    rw (test) (
      sent ∙ ap (λ zs. joined h.sent ++ zs) holds,
      (
        valid'',
        omega (arith, same', drained_size, same, capacity),
        sym (length-content (write flushed.out []).0 valid'') ∙ ap length holds',
      ),
    )

call_backs-sent :
    (size : ℕ) (cs : List Callback) (h : Handler)
    → Drained size h
    → Pieces size cs
    → joined (call_backs cs h).sent ≡ joined h.sent ++ handed cs
unfolding call_backs call_back on_ready on_closed
call_backs-sent size [] h drained pieces = sym (append-nil (joined h.sent))
call_backs-sent size (Callback.data_out bytes ∷ cs) h drained (fits, rest) =
    let (sent, drained') = on_data-sent size bytes h drained fits in
    call_backs-sent size cs (on_data bytes h) drained' rest
    ∙ ap (λ zs. zs ++ handed cs) sent
    ∙ append_assoc (joined h.sent) bytes (handed cs)
call_backs-sent size (Callback.ready ∷ cs) h drained pieces =
    call_backs-sent size cs (on_ready h) drained pieces
call_backs-sent size (Callback.closed ∷ cs) h drained pieces =
    call_backs-sent size cs (on_closed h) drained pieces

-- For any capacity below 2 ^ 63 and any calls of the library on a new handler, none of which hands over
-- more than the capacity at once: what the socket is given is what the library handed over, in order.
pub call_backs-fresh_handler :
    (cs : List Callback) (size : ℕ)
    → size < 2 ^ 63
    → Pieces size cs
    → joined (call_backs cs (fresh_handler size)).sent ≡ handed cs
call_backs-fresh_handler cs size large pieces =
    call_backs-sent size cs (fresh_handler size)
      (make_buffer-IsValid size large, length-replicate {A = ℕ} size 0, refl) pieces
