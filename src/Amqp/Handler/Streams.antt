-- ===== src/Amqp/Handler/Streams.antt =====
-- amqp-handler.cpp: the bytes that the handler receives.
use limb_worker.Prelude.{
  Bytes, ℕ, zero, suc, ◌^◌, ◌≤◌, ◌<◌, ◌≡◌, refl, sym, ap, ap₂, subst, ◌∙◌, Bool, true, false, not,
  ◌&&◌, ◌||◌, Bool-cases, inl, inr, List, [], ◌∷◌, ◌++◌, arith, ltb, ◌==◌, if◌then◌else◌, length,
  take, drop, take-append-drop, append_assoc, append-nil, length-take, length-replicate,
}
use limb_worker.Amqp.Buffer.{make_buffer, write, content}
use limb_worker.Amqp.Buffer.Content.{IsValid, write_lem, shl_lem, drain_lem}
use limb_worker.Amqp.Handler.{
  Handler, Callback, Library, Round, fresh_handler, send_data_from_buffer, on_data, on_ready,
  on_closed, call_back, call_backs, consume, received_bytes, failed, receive, finish, loop,
}

-- Every byte that the input buffer took is parsed or still in it, in order.
pub record Flows (h : Handler) : Type 0 where
  pub valid : IsValid h.input
  pub kept : h.parsed ++ content h.input ≡ h.taken

-- Handlers with the same input side.
abbrev SameInput : Handler → Handler → Type 0
SameInput h h' = (h'.input ≡ h.input) × (h'.taken ≡ h.taken) × (h'.parsed ≡ h.parsed)

Flows-SameInput : (h h' : Handler) → SameInput h h' → Flows h → Flows h'
Flows-SameInput h h' (input, taken, parsed) f = record {
  valid = subst IsValid (sym input) f.valid;
  kept = ap₂ (λ xs b. xs ++ content b) parsed input ∙ f.kept ∙ sym taken;
}

send_data_from_buffer-SameInput : (h : Handler) → SameInput h (send_data_from_buffer h)
unfolding send_data_from_buffer
send_data_from_buffer-SameInput h = ground arith

finish-SameInput : (h : Handler) → SameInput h (finish h)
unfolding finish
finish-SameInput h = ground (arith, send_data_from_buffer-SameInput h)

call_back-SameInput : (c : Callback) (h : Handler) → SameInput h (call_back c h)
unfolding call_back on_data on_ready on_closed send_data_from_buffer
call_back-SameInput (Callback.data_out bytes) h = ground arith
call_back-SameInput Callback.ready h = (refl, refl, refl)
call_back-SameInput Callback.closed h = (refl, refl, refl)

call_backs-SameInput : (cs : List Callback) (h : Handler) → SameInput h (call_backs cs h)
unfolding call_backs
call_backs-SameInput [] h = (refl, refl, refl)
call_backs-SameInput (c ∷ cs) h =
    let (input, taken, parsed) = call_back-SameInput c h in
    let (input', taken', parsed') = call_backs-SameInput cs (call_back c h) in
    (input' ∙ input, taken' ∙ taken, parsed' ∙ parsed)

drop-all : (n : ℕ) (xs : Bytes) → length xs ≤ n → drop n xs ≡ []
drop-all zero [] h = refl
drop-all (suc n) [] h = refl
drop-all zero (x ∷ xs) h = absurd (omega arith)
drop-all (suc n) (x ∷ xs) h = drop-all n xs (omega arith)

-- What is parsed leaves the front of the content.
parsed_front :
    (parsed taken front : Bytes) (count : ℕ)
    → parsed ++ front ≡ taken
    → (parsed ++ take count front) ++ drop count front ≡ taken
parsed_front parsed taken front count e =
    append_assoc parsed (take count front) (drop count front)
    ∙ ap (λ zs. parsed ++ zs) (take-append-drop count front)
    ∙ e

consume-Flows :
    (lib : Library) (h : Handler)
    → lib.parse (content h.input) ≤ h.input.used
    → Flows h
    → Flows (consume lib h)
unfolding consume
consume-Flows lib h bounded f =
    let front = content h.input in
    let count = lib.parse front in
    let called = call_backs (lib.callbacks front) h in
    let (input, taken, parsed) = call_backs-SameInput (lib.callbacks front) h in
    let moved = parsed_front h.parsed h.taken front count f.kept in
    elim (Bool-cases (h.connection && not (h.input.used == 0))) [
      | inr idle ↦ rw (idle) f
      | inl busy ↦ elim (Bool-cases (count == h.input.used)) [
        | inl all ↦
            let size : length front ≤ count =
              ground (arith, all, length-take h.input.used h.input.bytes, f.valid.fits) in
            rw (busy, all)
              (record {
                valid = (drain_lem h.input f.valid).2;
                kept =
                    ap (λ zs. (h.parsed ++ take count front) ++ zs)
                      (sym (drop-all count front size))
                    ∙ moved
                    ∙ sym taken;
              })
        | inr some_left ↦ elim (Bool-cases (ltb 0 count)) [
          | inl progress ↦
              let (shifted, same, valid) = shl_lem h.input count f.valid bounded in
              rw (busy, some_left, progress)
                (record {
                  valid = valid;
                  kept =
                      ap (λ zs. (h.parsed ++ take count front) ++ zs) shifted ∙ moved ∙ sym taken;
                })
          | inr stuck ↦
              let none_parsed : count ≡ 0 = ground (arith, stuck) in
              rw (busy, some_left, stuck)
                (record {
                  valid = subst IsValid (sym input) f.valid;
                  kept =
                      ap₂ (λ n b. (h.parsed ++ take n front) ++ content b) none_parsed input
                      ∙ ap (λ zs. zs ++ front) (append-nil h.parsed)
                      ∙ f.kept
                      ∙ sym taken;
                })
        ]
      ]
    ]

receive-Flows :
    (lib : Library) (bytes : Bytes) (h : Handler)
    → ((front : Bytes) → lib.parse front ≤ length front)
    → length bytes < 2 ^ 63
    → Flows h
    → Flows (receive lib bytes h)
unfolding receive
receive-Flows lib bytes h bounded small f =
    let (input, count) = write h.input bytes in
    let (taken, appended, same, valid) = write_lem h.input bytes f.valid small in
    let filled : Handler = record h { input = input; taken = h.taken ++ take count bytes } in
    let flows : Flows filled = record {
      valid = valid;
      kept =
          ap (λ zs. h.parsed ++ zs) appended
          ∙ sym (append_assoc h.parsed (content h.input) (take count bytes))
          ∙ ap (λ zs. zs ++ take count bytes) f.kept;
    } in
    let within : lib.parse (content input) ≤ input.used =
      omega (arith, bounded (content input), length-take input.used input.bytes) in
    let consumed = consume lib filled in
    Flows-SameInput consumed (send_data_from_buffer consumed)
      (send_data_from_buffer-SameInput consumed) (consume-Flows lib filled within flows)

-- Every round receives fewer than 2 ^ 63 bytes, as `recv1` into the temporary buffer does.
abbrev pub SmallRounds : List Round → Type 0
SmallRounds [] = Unit {0}
SmallRounds (r ∷ rs) = (length (received_bytes r.received) < 2 ^ 63) × SmallRounds rs

Flows-if : (test : Bool) {h h' : Handler} → Flows h → Flows h' → Flows (if test then h else h')
Flows-if true f f' = f
Flows-if false f f' = f'

loop-Flows :
    (lib : Library) (rs : List Round) (h : Handler)
    → ((front : Bytes) → lib.parse front ≤ length front)
    → SmallRounds rs
    → Flows h
    → Flows (loop lib rs h)
unfolding loop
loop-Flows lib [] h bounded small f =
    Flows-if h.quit (Flows-SameInput h (finish h) (finish-SameInput h) f) f
loop-Flows lib (r ∷ rs) h bounded (small, rest) f =
    let next = receive-Flows lib (received_bytes r.received) h bounded small f in
    Flows-if (h.quit || (not r.polled || failed r.received))
      (Flows-SameInput h (finish h) (finish-SameInput h) f)
      (loop-Flows lib rs (receive lib (received_bytes r.received) h) bounded rest next)

pub make_buffer-IsValid : (size : ℕ) → size < 2 ^ 63 → IsValid (make_buffer size)
make_buffer-IsValid size h = record {
  fits = omega arith;
  small = omega (arith, h, length-replicate {A = ℕ} size 0);
}

-- For any calls that the library makes when the connection is made, any library whose `parse` takes at
-- most what it is given, any capacity below 2 ^ 63 and any rounds of fewer than 2 ^ 63 bytes each: what
-- the loop has handed to `parse` and been relieved of, with what is left in the input buffer, is what
-- the input buffer took, in order, without a gap or a repetition.
pub loop-call_backs :
    (lib : Library) (opening : List Callback) (rs : List Round) (size : ℕ)
    → ((front : Bytes) → lib.parse front ≤ length front)
    → size < 2 ^ 63
    → SmallRounds rs
    → let h = loop lib rs (call_backs opening (fresh_handler size)) in
      h.parsed ++ content h.input ≡ h.taken
loop-call_backs lib opening rs size bounded large small =
    let h = fresh_handler size in
    let h' = call_backs opening h in
    let flows : Flows h = record { valid = make_buffer-IsValid size large; kept = refl } in
    (loop-Flows lib rs h' bounded small
      (Flows-SameInput h h' (call_backs-SameInput opening h) flows)).kept
