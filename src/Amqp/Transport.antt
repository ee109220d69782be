-- ===== src/Amqp/Transport.antt =====
-- src/internal/app-transport/amqp-transport.cpp: the handlers of the three queues.
pub mod Settling
mod Tests
use Prim.Native.String.{String}
use limb_worker.Prelude.{
  ℕ, Bool, true, false, ◌&&◌, Option, none, some, List, [], ◌∷◌, ◌++◌, ◌==◌, str_eq, if◌then◌else◌,
  not, map, Bytes, Outcome, ◌>>=◌,
}
use limb_worker.Status.{ReturnStatus, get_error_message}
use limb_worker.Capabilities.{AppInfoTask}
use limb_worker.Service.Process.{ImageTask, is_ok}
use limb_worker.ThreadPool.BoundedQueue.{Queue, push}
use limb_worker.Tasks.{
  Simdjson, PingTask, ImageTaskResult, TaskStatus, TaskParserType, from_type, parse_ping,
  parse_image, serialize_ping, serialize_result, serialize_app_info,
}

-- `AMQP::Message`, or the `AmqpTask` that copies it.
pub record Message : Type 0 where
  pub correlation_id : String
  pub reply_to : String
  pub body : Option Bytes

pub record AmqpTask : Type 0 where
  pub message : Message
  pub delivery_tag : ℕ

-- The calls of the channel, in order. `publishes` has the routing key, the correlation id and the
-- body. What the calls return is only printed.
pub data Send : Type 0 where
  publishes : String → String → Bytes → Send
  acks rejects : ℕ → Send

-- What the handlers use: simdjson; whether `new (std::nothrow)` gets memory; and the application.
-- `process_image` reports its progress as texts, each of which `std::format` makes of a float, and
-- then ends as a call does.
pub record Environment : Type 0 where
  pub simdjson : Simdjson
  pub allocates : Bool
  pub app_info : AppInfoTask
  pub process_image : ImageTask → List String × Outcome ReturnStatus

-- The calls made before a handler ends, and how it ends.
abbrev pub Handled : Type 0
Handled = List Send × Outcome (Unit {0})

abbrev pub returns : List Send → Handled
returns sends = (sends, Outcome.done tt)

-- `sendResponse` of a message, and `sendResponse` of an `AmqpTask`.
pub send_response_and_ack : Message → ℕ → Bytes → List Send
send_response_and_ack message tag resp =
    Send.publishes message.reply_to message.correlation_id resp ∷ Send.acks tag ∷ []

pub send_response : AmqpTask → Bytes → List Send
send_response task resp = Send.publishes task.message.reply_to task.message.correlation_id resp ∷ []

pub send_reject : ℕ → List Send
send_reject tag = Send.rejects tag ∷ []

pub send_ack : ℕ → List Send
send_ack tag = Send.acks tag ∷ []

module _ (env : Environment) where
  -- With the parsed task.
  answer_ping : Message → ℕ → PingTask × ReturnStatus → Handled
  unfolding send_response_and_ack send_reject
  answer_ping message tag (task, ret) =
      if is_ok ret && str_eq task.message "Ping"
      then (let (response, status) = serialize_ping env.simdjson (record { message = "Pong" }) in
          if is_ok status
          then returns (send_response_and_ack message tag response)
          else returns (send_reject tag))
      else returns (send_reject tag)

  pub handle_ping : Message → ℕ → Handled
  unfolding answer_ping send_reject
  handle_ping message tag = elim (from_type env.allocates TaskParserType.k_json) [
    | none ↦ returns (send_reject tag)
    | some parser ↦ elim (parse_ping env.simdjson message.body (record { message = "" })) [
      | Outcome.throws ↦ ([], Outcome.throws)
      | Outcome.undefined ↦ ([], Outcome.undefined)
      | Outcome.done parsed ↦ answer_ping message tag parsed
    ]
  ]

  pub handle_get_app_info : Message → ℕ → Handled
  unfolding send_response_and_ack send_reject
  handle_get_app_info message tag = elim (from_type env.allocates TaskParserType.k_json) [
    | none ↦ returns (send_reject tag)
    | some parser ↦
        let (response, status) = serialize_app_info env.simdjson env.app_info in
        if is_ok status
        then returns (send_response_and_ack message tag response)
        else returns (send_reject tag)
  ]

  -- `progressCb`, called with each value.
  report_progress : AmqpTask → List String → List Send
  unfolding send_response send_reject
  report_progress task [] = []
  report_progress task (progress ∷ rest) =
      let (response, status) =
        serialize_result env.simdjson
          (record { message = progress; status = TaskStatus.progress }) in
      (if is_ok status then send_response task response else send_reject task.delivery_tag)
      ++ report_progress task rest

  -- After a `processImage` that returned: the answer, then the acknowledgement only where the status
  -- is kOk. For any other status the message of the status is read first, to be printed.
  answer_image : AmqpTask → ReturnStatus → Handled
  unfolding send_response send_reject send_ack
  answer_image task ret =
      if is_ok ret
      then (let (response, status) =
            serialize_result env.simdjson (record { message = "Done"; status = TaskStatus.done }) in
          if is_ok status
          then returns (send_response task response ++ send_ack task.delivery_tag)
          else returns (send_reject task.delivery_tag))
      else (let (response, status) =
            serialize_result env.simdjson (record { message = "Fail"; status = TaskStatus.fail }) in
          elim (get_error_message ret) [
            | none ↦ ([], Outcome.undefined)
            | some _ ↦
                if is_ok status
                then returns (send_response task response)
                else returns (send_reject task.delivery_tag)
          ])

  run_image : AmqpTask → ImageTask → Handled
  unfolding report_progress answer_image
  run_image task input =
      let (reports, ended) = env.process_image input in
      let sends = report_progress task reports in
      elim ended [
        | Outcome.throws ↦ (sends, Outcome.throws)
        | Outcome.undefined ↦ (sends, Outcome.undefined)
        | Outcome.done ret ↦ let (more, how) = answer_image task ret in (sends ++ more, how)
      ]

  pub handle_process_image : AmqpTask → Handled
  unfolding run_image send_reject
  handle_process_image task = elim (from_type env.allocates TaskParserType.k_json) [
    | none ↦ returns (send_reject task.delivery_tag)
    | some parser ↦
        elim (parse_image env.simdjson task.message.body (record { model_id = 0; image_id = "" })) [
          | Outcome.throws ↦ ([], Outcome.throws)
          | Outcome.undefined ↦ ([], Outcome.undefined)
          | Outcome.done (input, ret) ↦
              if is_ok ret then run_image task input else returns (send_reject task.delivery_tag)
        ]
  ]

-- The consumer of `ProcessImage`: the task goes to the pool, or is rejected. `none` is a fault of the
-- queue.
pub on_process_image : Queue AmqpTask → Message → ℕ → Option (Queue AmqpTask × List Send)
unfolding send_reject
on_process_image pool message tag =
    elim (push pool (record { message = message; delivery_tag = tag })) [
      | none ↦ none
      | some (pool', true) ↦ some (pool', [])
      | some (pool', false) ↦ some (pool', send_reject tag)
    ]

-- What `init` asks of the channel, in order.
pub data Setup : Type 0 where
  sets_qos : ℕ → Setup
  declares_queue consumes : String → Setup

-- By the configured count, and whether the channel is usable behind `setQos`.
pub init : ℕ → Bool → List Setup × ReturnStatus
init prefetch_count usable =
    if not usable then (Setup.sets_qos prefetch_count ∷ [], ReturnStatus.k_aborted) else (
      Setup.sets_qos prefetch_count
          ∷ Setup.declares_queue "Ping"
          ∷ Setup.consumes "Ping"
          ∷ Setup.declares_queue "GetAppInfo"
          ∷ Setup.consumes "GetAppInfo"
          ∷ Setup.declares_queue "ProcessImage"
          ∷ Setup.consumes "ProcessImage"
          ∷ [],
      ReturnStatus.k_ok,
    )
