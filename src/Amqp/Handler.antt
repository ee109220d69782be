-- ===== src/Amqp/Handler.antt =====
-- src/internal/app-transport/amqp-handler.cpp: the handler between the socket and the AMQP library.
-- What `send1` reports is not used by the code, and its time stamps are left out.
pub mod Streams
pub mod Sending
use limb_worker.Prelude.{
  Bytes, ℕ, ◌+◌, ◌*◌, ◌-◌, Bool, true, false, not, ◌&&◌, ◌||◌, Option, none, some, List, [], ◌∷◌,
  ◌++◌, ltb, ◌==◌, if◌then◌else◌, length, take,
}
use limb_worker.Amqp.Buffer.{Buffer, make_buffer, write, drain, shl, content}

-- `sent` is what each `send1` was given. The log of the input: `taken` is what the input buffer took,
-- and `parsed` what `parse` took.
pub record Handler : Type 0 where
  pub input : Buffer
  pub out : Buffer
  pub connection : Bool
  pub connected : Bool
  pub quit : Bool
  pub sent : List Bytes
  pub taken : Bytes
  pub parsed : Bytes

-- The calls that the library makes on the handler while it parses.
pub data Callback : Type 0 where
  data_out : Bytes → Callback
  ready closed : Callback

-- The library: how many bytes `parse` takes, and the calls that it makes.
pub record Library : Type 0 where
  pub parse : Bytes → ℕ
  pub callbacks : Bytes → List Callback

-- What the socket gives a round of the loop: an error of `poll_read`, or of `recv1` as `none`.
pub record Round : Type 0 where
  pub polled : Bool
  pub received : Option Bytes

abbrev pub buffer_size : ℕ
buffer_size = 8 * 1024 * 1024

-- The constructor, for buffers of a size; its calls of the socket are in Socket.
abbrev pub fresh_handler : ℕ → Handler
fresh_handler size = record {
  input = make_buffer size;
  out = make_buffer size;
  connection = false;
  connected = false;
  quit = false;
  sent = [];
  taken = [];
  parsed = [];
}

unfoldable pub send_data_from_buffer : Handler → Handler
send_data_from_buffer h =
    if h.out.used == 0
    then h
    else record h { sent = h.sent ++ (content h.out ∷ []); out = drain h.out }

-- Where all was written, the second write has nothing left to write.
unfoldable pub on_data : Bytes → Handler → Handler
unfolding send_data_from_buffer
on_data bytes h =
    let (out, written) = write h.out bytes in
    let filled : Handler = record h { connection = true; out = out } in
    if written == length bytes
    then (let flushed = send_data_from_buffer filled in
        record flushed { out = (write flushed.out []).0 })
    else filled

unfoldable pub on_ready : Handler → Handler
on_ready h = record h { connected = true }

unfoldable pub on_closed : Handler → Handler
on_closed h = record h { connection = false; quit = true }

unfoldable pub call_back : Callback → Handler → Handler
unfolding on_data on_ready on_closed
call_back (Callback.data_out bytes) h = on_data bytes h
call_back Callback.ready h = on_ready h
call_back Callback.closed h = on_closed h

unfoldable pub call_backs : List Callback → Handler → Handler
unfolding call_back
call_backs [] h = h
call_backs (c ∷ cs) h = call_backs cs (call_back c h)

-- What `parse` did not take stays in the input buffer.
unfoldable pub consume : Library → Handler → Handler
unfolding call_backs
consume lib h =
    if h.connection && not (h.input.used == 0)
    then (let count = lib.parse (content h.input) in
        let called = call_backs (lib.callbacks (content h.input)) h in
        let parsed : Handler = record called {
          parsed = h.parsed ++ take count (content h.input);
        } in
        if count == h.input.used
        then record parsed { input = drain h.input }
        else if ltb 0 count
        then record parsed { input = shl h.input count }
        else parsed)
    else h

-- The body of the loop behind `recv1`.
unfoldable pub receive : Library → Bytes → Handler → Handler
unfolding consume send_data_from_buffer
receive lib bytes h =
    let (input, count) = write h.input bytes in
    let filled : Handler = record h { input = input; taken = h.taken ++ take count bytes } in
    send_data_from_buffer (consume lib filled)

-- Behind the loop the rest is sent, where the handler was told to quit.
unfoldable pub finish : Handler → Handler
unfolding send_data_from_buffer
finish h = if h.quit && not (h.out.used == 0) then send_data_from_buffer h else h

abbrev pub received_bytes : Option Bytes → Bytes
received_bytes none = []
received_bytes (some bytes) = bytes

abbrev pub failed : Option Bytes → Bool
failed none = true
failed (some bytes) = false

-- `loop`, over the rounds that the socket gives; where they end, the loop still runs.
unfoldable pub loop : Library → List Round → Handler → Handler
unfolding receive finish
loop lib [] h = if h.quit then finish h else h
loop lib (r ∷ rs) h =
    let next = loop lib rs (receive lib (received_bytes r.received) h) in
    if h.quit || (not r.polled || failed r.received) then finish h else next

-- `onNegotiate`: the interval that the heartbeats get, of `DEFAULT_HEARTBEAT` seconds at least.
unfoldable pub on_negotiate : ℕ → ℕ → ℕ
on_negotiate heartbeat interval =
    let wanted = if ltb interval heartbeat then interval else heartbeat in
    if heartbeat == 0 then 0 else if ltb wanted 10 then 10 else wanted
