-- ===== src/Amqp/Transport/Tests.antt =====
-- The handlers on a task, a ping, and bytes that are no JSON.
use limb_worker.Prelude.{
  ◌^◌, ◌≡◌, refl, true, some, none, [], ◌∷◌, ◌++◌, map, ltb, length, str_eq, if◌then◌else◌, Outcome,
  arith,
}
use limb_worker.Status.{ReturnStatus}
use limb_worker.ThreadPool.BoundedQueue.{Queue}
use limb_worker.ThreadPool.BoundedQueue.Window.{Holds}
use limb_worker.ThreadPool.BoundedQueue.Fifo.{start, start-Holds}
use limb_worker.Tasks.{
  Document, TaskStatus, parse_image, parse_ping, from_type, serialize_result, serialize_ping,
  serialize_app_info,
}
use limb_worker.Amqp.Transport.{
  Message, AmqpTask, Send, Environment, handle_ping, handle_get_app_info, handle_process_image,
  run_image, report_progress, answer_image, answer_ping, send_response, send_ack,
  send_response_and_ack, on_process_image,
}
use limb_worker.Amqp.Transport.Settling.{
  settled, answers, result_answer, last_answer, last_settlement, handle_process_image_lem,
  on_process_image_lem,
}

abbrev ping_document : Document
ping_document = record {
  get_string = λ key.
      if str_eq key "message"
      then some "Ping"
      else if str_eq key "imageId"
      then some "65f1"
      else none;
  get_uint64 = λ key. if str_eq key "modelId" then some 2 else none;
}

abbrev env : Environment
env = record {
  simdjson = record { parse = λ bytes. some ping_document; build = λ calls. [] };
  allocates = true;
  app_info = record { available_processors = []; total_cpu_threads = 4 };
  process_image = λ task. ("0.00" ∷ "1.00" ∷ [], Outcome.done ReturnStatus.k_ok);
}

abbrev message : Message
message = record { correlation_id = "7"; reply_to = "replies"; body = some (123 ∷ []) }

abbrev task : AmqpTask
task = record { message = message; delivery_tag = 5 }

abbrev reply : Send
reply = Send.publishes "replies" "7" []

handled :
    (handle_process_image env task ≡ (reply ∷ reply ∷ reply ∷ Send.acks 5 ∷ [], Outcome.done tt))
    × (handle_ping env message 5 ≡ (reply ∷ Send.acks 5 ∷ [], Outcome.done tt))
    × (handle_get_app_info env message 5 ≡ (reply ∷ Send.acks 5 ∷ [], Outcome.done tt))
unfolding handle_process_image handle_ping handle_get_app_info run_image report_progress
    answer_image answer_ping send_response send_ack send_response_and_ack from_type parse_image
    parse_ping serialize_result serialize_ping serialize_app_info
handled = (refl, refl, refl)

parsed :
    parse_image env.simdjson task.message.body (record { model_id = 0; image_id = "" })
    ≡ Outcome.done (record { model_id = 2; image_id = "65f1" }, ReturnStatus.k_ok)
unfolding parse_image
parsed = refl

handle_process_image_example :
    (settled (handle_process_image env task).0
      ≡ last_settlement env task (Outcome.done ReturnStatus.k_ok))
    × (answers (handle_process_image env task).0
        ≡ map (result_answer env task TaskStatus.progress) ("0.00" ∷ "1.00" ∷ [])
          ++ last_answer env task (Outcome.done ReturnStatus.k_ok))
handle_process_image_example =
    handle_process_image_lem env task (record { model_id = 2; image_id = "65f1" })
      ("0.00" ∷ "1.00" ∷ []) (Outcome.done ReturnStatus.k_ok) refl parsed refl

abbrev broken : Environment
broken = record env { simdjson = record { parse = λ bytes. none; build = λ calls. [] } }

on_process_image_example :
    let room = ltb (length {A = AmqpTask} []) (2 ^ 1) in
    (pool' : Queue AmqpTask) × (on_process_image (start AmqpTask 1) message 5
      ≡ some (pool', (if room then [] else Send.rejects 5 ∷ [])))
    × Holds 1 pool' (if room then [] ++ task ∷ [] else [])
on_process_image_example =
    on_process_image_lem message 5 (start-Holds AmqpTask 1 (omega arith) (omega arith))
