-- ===== src/Amqp/Transport/Settling.antt =====
-- amqp-transport.cpp: which messages are answered, and which are acknowledged or rejected.
use Prim.Native.String.{String}
use limb_worker.Prelude.{
  ℕ, ◌^◌, ◌≡◌, ◌≢◌, ◌⊎◌, refl, sym, ap, ◌∙◌, subst, inl, inr, true, false, none, some, List, [],
  ◌∷◌, ◌++◌, map, arith, if◌then◌else◌, str_eq, str_eq_iff, Bytes, Outcome, Option-cases,
  Bool-cases, append-nil, length, ltb,
}
use limb_worker.Status.{ReturnStatus, get_error_message}
use limb_worker.Service.Process.{ImageTask, is_ok}
use limb_worker.ThreadPool.BoundedQueue.{Queue}
use limb_worker.ThreadPool.BoundedQueue.Window.{Holds}
use limb_worker.ThreadPool.BoundedQueue.Fifo.{push_refines, offer}
use limb_worker.Tasks.{
  Document, TaskStatus, from_type, parse_ping, parse_image, serialize_ping, serialize_result,
  serialize_app_info,
}
use limb_worker.Amqp.Transport.{
  Message, AmqpTask, Send, Environment, handle_ping, handle_get_app_info, answer_ping,
  handle_process_image, run_image, answer_image, report_progress, on_process_image, send_reject,
  send_response, send_ack, send_response_and_ack,
}

-- The acknowledgements and rejections among the calls, and the answers.
abbrev pub settled : List Send → List Send
settled [] = []
settled (Send.publishes to id body ∷ sends) = settled sends
settled (Send.acks tag ∷ sends) = Send.acks tag ∷ settled sends
settled (Send.rejects tag ∷ sends) = Send.rejects tag ∷ settled sends

abbrev pub answers : List Send → List Send
answers [] = []
answers (Send.publishes to id body ∷ sends) = Send.publishes to id body ∷ answers sends
answers (Send.acks tag ∷ sends) = answers sends
answers (Send.rejects tag ∷ sends) = answers sends

settled-append : (xs ys : List Send) → settled (xs ++ ys) ≡ settled xs ++ settled ys
settled-append [] ys = refl
settled-append (Send.publishes to id body ∷ xs) ys = settled-append xs ys
settled-append (Send.acks tag ∷ xs) ys = ap (λ zs. Send.acks tag ∷ zs) (settled-append xs ys)
settled-append (Send.rejects tag ∷ xs) ys = ap (λ zs. Send.rejects tag ∷ zs) (settled-append xs ys)

answers-append : (xs ys : List Send) → answers (xs ++ ys) ≡ answers xs ++ answers ys
answers-append [] ys = refl
answers-append (Send.publishes to id body ∷ xs) ys =
    ap (λ zs. Send.publishes to id body ∷ zs) (answers-append xs ys)
answers-append (Send.acks tag ∷ xs) ys = answers-append xs ys
answers-append (Send.rejects tag ∷ xs) ys = answers-append xs ys

module _ (env : Environment) where
  abbrev pub result_answer : AmqpTask → TaskStatus → String → Send
  result_answer task status message =
      Send.publishes task.message.reply_to task.message.correlation_id
        (serialize_result env.simdjson (record { message = message; status = status })).0

  -- After the progress: an answer where `processImage` returned, but for a failure without a message.
  abbrev pub last_answer : AmqpTask → Outcome ReturnStatus → List Send
  last_answer task Outcome.throws = []
  last_answer task Outcome.undefined = []
  last_answer task (Outcome.done ret) =
      if is_ok ret
      then result_answer task TaskStatus.done "Done" ∷ []
      else (elim (get_error_message ret) [
        | none ↦ []
        | some _ ↦ result_answer task TaskStatus.fail "Fail" ∷ []
      ])

  abbrev pub last_settlement : AmqpTask → Outcome ReturnStatus → List Send
  last_settlement task Outcome.throws = []
  last_settlement task Outcome.undefined = []
  last_settlement task (Outcome.done ret) =
      if is_ok ret then Send.acks task.delivery_tag ∷ [] else []

  report_progress-map :
      (task : AmqpTask) (reports : List String)
      → report_progress env task reports ≡ map (result_answer task TaskStatus.progress) reports
  unfolding report_progress serialize_result send_response
  report_progress-map task [] = refl
  report_progress-map task (r ∷ rs) =
      ap (λ zs. result_answer task TaskStatus.progress r ∷ zs) (report_progress-map task rs)

  settled-reports :
      (task : AmqpTask) (reports : List String)
      → settled (map (result_answer task TaskStatus.progress) reports) ≡ []
  settled-reports task [] = refl
  settled-reports task (r ∷ rs) = settled-reports task rs

  answers-reports :
      (task : AmqpTask) (reports : List String)
      → answers (map (result_answer task TaskStatus.progress) reports)
        ≡ map (result_answer task TaskStatus.progress) reports
  answers-reports task [] = refl
  answers-reports task (r ∷ rs) =
      ap (λ zs. result_answer task TaskStatus.progress r ∷ zs) (answers-reports task rs)

  answer_image-settled :
      (task : AmqpTask) (ret : ReturnStatus)
      → (settled (answer_image env task ret).0 ≡ last_settlement task (Outcome.done ret))
        × (answers (answer_image env task ret).0 ≡ last_answer task (Outcome.done ret))
  unfolding answer_image serialize_result send_response send_ack get_error_message
  answer_image-settled task ReturnStatus.k_ok = (refl, refl)
  answer_image-settled task ReturnStatus.k_unknown = (refl, refl)
  answer_image-settled task _ = (refl, refl)

  closing :
      (task : AmqpTask) (reports : List String) (more : List Send)
      → (settled (report_progress env task reports ++ more) ≡ settled more)
        × (answers (report_progress env task reports ++ more)
            ≡ map (result_answer task TaskStatus.progress) reports ++ answers more)
  closing task reports more = rw (report_progress-map task reports) (
    settled-append (map (result_answer task TaskStatus.progress) reports) more
        ∙ ap (λ zs. zs ++ settled more) (settled-reports task reports),
    answers-append (map (result_answer task TaskStatus.progress) reports) more
        ∙ ap (λ zs. zs ++ answers more) (answers-reports task reports),
  )

  run_image-settled :
      (task : AmqpTask) (input : ImageTask) (reports : List String) (ended : Outcome ReturnStatus)
      → env.process_image input ≡ (reports, ended)
      → (settled (run_image env task input).0 ≡ last_settlement task ended)
        × (answers (run_image env task input).0
            ≡ map (result_answer task TaskStatus.progress) reports ++ last_answer task ended)
  unfolding run_image
  run_image-settled task input reports Outcome.throws e =
      let eq : (run_image env task input).0 ≡ report_progress env task reports ++ [] =
        rw (append-nil) (ground arith) in
      (ap settled eq ∙ (closing task reports []).0, ap answers eq ∙ (closing task reports []).1)
  run_image-settled task input reports Outcome.undefined e =
      let eq : (run_image env task input).0 ≡ report_progress env task reports ++ [] =
        rw (append-nil) (ground arith) in
      (ap settled eq ∙ (closing task reports []).0, ap answers eq ∙ (closing task reports []).1)
  run_image-settled task input reports (Outcome.done ret) e =
      let more = (answer_image env task ret).0 in
      let (s, a) = answer_image-settled task ret in
      let eq : (run_image env task input).0 ≡ report_progress env task reports ++ more =
        ground arith in
      (
        ap settled eq ∙ (closing task reports more).0 ∙ s,
        ap answers eq
            ∙ (closing task reports more).1
            ∙ ap (λ zs. map (result_answer task TaskStatus.progress) reports ++ zs) a,
      )

  -- A task that is parsed, for a parser that gets its memory, is answered by each progress report in
  -- order, and by `Done` if `processImage` returns kOk, or by `Fail` if it returns a status that has
  -- a message. It is acknowledged once, and not rejected, if `processImage` returns kOk; else it is
  -- neither acknowledged nor rejected.
  pub handle_process_image_lem :
      (task : AmqpTask) (input : ImageTask) (reports : List String) (ended : Outcome ReturnStatus)
      → env.allocates ≡ true
      → parse_image env.simdjson task.message.body (record { model_id = 0; image_id = "" })
        ≡ Outcome.done (input, ReturnStatus.k_ok)
      → env.process_image input ≡ (reports, ended)
      → (settled (handle_process_image env task).0 ≡ last_settlement task ended)
        × (answers (handle_process_image env task).0
            ≡ map (result_answer task TaskStatus.progress) reports ++ last_answer task ended)
  unfolding handle_process_image from_type
  handle_process_image_lem task input reports ended m p e =
      let eq : handle_process_image env task ≡ run_image env task input = ground arith in
      subst
        (λ r.
          (settled r.0 ≡ last_settlement task ended)
          × (answers r.0
              ≡ map (result_answer task TaskStatus.progress) reports ++ last_answer task ended))
        (sym eq) (run_image-settled task input reports ended e)

  -- Bytes in which simdjson finds no JSON at all: the exception leaves the handler before any call.
  pub handle_process_image-throws :
      (task : AmqpTask) (x : ℕ) (xs : Bytes)
      → env.allocates ≡ true
      → task.message.body ≡ some (x ∷ xs)
      → env.simdjson.parse (x ∷ xs) ≡ none
      → handle_process_image env task ≡ ([], Outcome.throws)
  unfolding handle_process_image from_type parse_image
  handle_process_image-throws task x xs m b p = ground arith

  abbrev pub pong : Message → Bytes
  pong message = (serialize_ping env.simdjson (record { message = "Pong" })).0

  answer_ping_lem :
      (message : Message) (tag : ℕ) (text : String) (ret : ReturnStatus)
      → ((text ≡ "Ping")
          × (ret ≡ ReturnStatus.k_ok)
          × (answer_ping env message tag (record { message = text }, ret) ≡ (
            Send.publishes message.reply_to message.correlation_id (pong message)
                ∷ Send.acks tag
                ∷ [],
            Outcome.done tt,
          )))
        ⊎ (((text ≢ "Ping") ⊎ (ret ≢ ReturnStatus.k_ok))
            × (answer_ping env message tag (record { message = text }, ret)
                ≡ (Send.rejects tag ∷ [], Outcome.done tt)))
  unfolding answer_ping serialize_ping send_response_and_ack send_reject
  answer_ping_lem message tag text ReturnStatus.k_ok = elim (Bool-cases (str_eq text "Ping")) [
    | inl e ↦ inl ((str_eq_iff text "Ping").0 e, refl, rw (e) refl)
    | inr e ↦ inr (inl (λ p. cc (e, (str_eq_iff text "Ping").1 p)), rw (e) refl)
  ]
  answer_ping_lem message tag text _ = inr (inr (λ e. cc (e)), refl)

  handle_ping_incomplete :
      (message : Message) (tag x : ℕ) (xs : Bytes) (doc : Document)
      → env.allocates ≡ true
      → message.body ≡ some (x ∷ xs)
      → env.simdjson.parse (x ∷ xs) ≡ some doc
      → doc.get_string "message" ≡ none
      → handle_ping env message tag ≡ (Send.rejects tag ∷ [], Outcome.done tt)
  unfolding handle_ping from_type parse_ping send_reject answer_ping
  handle_ping_incomplete message tag x xs doc memory e p g = ground arith

  -- Every way out of `handlePing`, for any message: it answers `Pong` and acknowledges, which needs a
  -- document whose `message` is `Ping`; or it rejects, and answers nothing; or, where simdjson finds no
  -- JSON in a body that is not empty, it throws before any call.
  pub handle_ping_lem :
      (message : Message) (tag : ℕ)
      → ((x : ℕ) × (xs : Bytes) × (doc : Document) × (message.body ≡ some (x ∷ xs))
          × (env.simdjson.parse (x ∷ xs) ≡ some doc)
          × (doc.get_string "message" ≡ some "Ping")
          × (handle_ping env message tag ≡ (
            Send.publishes message.reply_to message.correlation_id (pong message)
                ∷ Send.acks tag
                ∷ [],
            Outcome.done tt,
          )))
        ⊎ (handle_ping env message tag ≡ (Send.rejects tag ∷ [], Outcome.done tt))
        ⊎ ((x : ℕ) × (xs : Bytes) × (message.body ≡ some (x ∷ xs))
            × (env.simdjson.parse (x ∷ xs) ≡ none)
            × (handle_ping env message tag ≡ ([], Outcome.throws)))
  unfolding handle_ping from_type parse_ping send_reject
  handle_ping_lem message tag = elim (Bool-cases env.allocates) [
    | inr full ↦ inr (inl (ground arith))
    | inl memory ↦ elim (Option-cases message.body) [
      | inl e ↦ inr (inl (ground arith))
      | inr ([], e) ↦ inr (inl (ground arith))
      | inr (x ∷ xs, e) ↦ elim (Option-cases (env.simdjson.parse (x ∷ xs))) [
        | inl p ↦ inr (inr (x, xs, e, p, ground arith))
        | inr (doc, p) ↦ elim (Option-cases (doc.get_string "message")) [
          | inl g ↦ inr (inl (handle_ping_incomplete message tag x xs doc memory e p g))
          | inr (text, g) ↦
              let step : handle_ping env message tag
                  ≡ answer_ping env message tag (record { message = text }, ReturnStatus.k_ok) =
                ground arith in
              elim (answer_ping_lem message tag text ReturnStatus.k_ok) [
                | inl (t, _, a) ↦ inl (x, xs, doc, e, p, g ∙ ap some t, step ∙ a)
                | inr (_, a) ↦ inr (inl (step ∙ a))
              ]
        ]
      ]
    ]
  ]

  -- `handleGetAppInfo` answers and acknowledges, or, with no memory for a parser, rejects.
  handle_get_app_info_lem :
      (message : Message) (tag : ℕ)
      → handle_get_app_info env message tag ≡ (
        (if env.allocates
            then Send.publishes message.reply_to message.correlation_id
                (serialize_app_info env.simdjson env.app_info).0
              ∷ Send.acks tag
              ∷ []
            else Send.rejects tag ∷ []),
        Outcome.done tt,
      )
  unfolding handle_get_app_info from_type serialize_app_info send_response_and_ack send_reject
  handle_get_app_info_lem message tag = ground arith

-- With a pool whose queue holds `xs`: a message goes to the end of the queue, and nothing is sent, if
-- there is room; else it is rejected, and the queue holds what it held.
pub on_process_image_lem :
    {k : ℕ} {pool : Queue AmqpTask} {xs : List AmqpTask} (message : Message) (tag : ℕ)
    → Holds k pool xs
    → let task : AmqpTask = record { message = message; delivery_tag = tag } in
      let room = ltb (length xs) (2 ^ k) in
      (pool' : Queue AmqpTask) × (on_process_image pool message tag
        ≡ some (pool', (if room then [] else Send.rejects tag ∷ [])))
      × Holds k pool' (if room then xs ++ task ∷ [] else xs)
unfolding on_process_image send_reject offer
on_process_image_lem {k} {pool} {xs} message tag v =
    let task : AmqpTask = record { message = message; delivery_tag = tag } in
    let (pool', e, v') = push_refines task v in
    elim (Bool-cases (ltb (length xs) (2 ^ k))) [
      | inl room ↦
          let o : offer (2 ^ k) xs task ≡ (xs ++ task ∷ [], true) = rw (room) refl in
          (pool', ground arith, rw (room) (subst (λ w. Holds k pool' w.0) o v'))
      | inr full ↦
          let o : offer (2 ^ k) xs task ≡ (xs, false) = rw (full) refl in
          (pool', ground arith, rw (full) (subst (λ w. Holds k pool' w.0) o v'))
    ]
