-- ===== src/Lib.antt =====
-- LimbWorker takes image tasks from a message broker, loads the image from a repository, runs one of
-- its processor modules on it, and stores the result.
--
-- The parts and their files:
-- - Status: include/utils/status.h, the return codes.
-- - ThreadPool/BoundedQueue: include/thread-pool/limb-queue.hpp. `push_step` and `pop_step` do one
--   access to shared memory each; `push` and `pop` run them for a call that nothing interrupts. A
--   call takes five steps and one to see that it returned, hence the fuel of 6. Words holds the
--   arithmetic of positions, Runs the run of one call, Window the invariant, Fifo the specification.
--   Threads lets any number of threads take these steps in any order; Views says what a thread holds
--   on to, Coherent is the invariant, Sound ties it to the queue, and Entering, Filling, Leaving,
--   Emptying and Releasing keep it; Ranks and Nearer count the steps that a call has left. A run has
--   fewer than 2 ^ 64 actions less the size, so no position wraps. Each access is taken as sequentially
--   consistent; the memory orders of the source are weaker.
-- - ThreadPool/Sizing: include/utils/bithacks.h, include/thread-pool/thread-pool-options.hpp, and the
--   options that src/main.cpp chooses.
-- - Capabilities: src/internal/capabilities-provider.cpp, the report of the available processors.
-- - Service/Storage: include/image-service/processor-storage.hpp, the map from index to container.
-- - Service/Initializer: include/image-service/processor-initializer.hpp, over the storage. Its calls
--   end in an `Outcome`: a result, an exception (`std::out_of_range`, or that of a container's `init`), or
--   undefined behaviour.
-- - Service/Process: include/image-service/image-service.hpp, `processImage`, over the initializer
--   and the codec factory; it records its outside calls in order.
-- - Image/Codec: src/internal/image/png-codec.cpp and jpg-codec.cpp, with stb_image and TurboJPEG as
--   the parameter `Libraries`.
-- - Image/Factory: src/internal/image/image-codec.cpp, the pools of codecs.
-- - App: include/limb-app.h, with `destroyContainer` of src/internal/processor-loader.cpp; the
--   loader's modules are the parameter `Modules`.
-- - Loader: src/internal/processor-loader.cpp, the loader's directories, libraries and containers; the
--   file system, the dynamic linker and the modules are the parameter `Environment`.
-- - Tasks: include/app-tasks and src/internal/app-tasks, the tasks and their JSON; simdjson is a
--   parameter, which parses bytes and builds them from the calls of its builder.
-- - Config: include/app-config.h and src/internal/app-config, the sections of the configuration file.
-- - Mongo: src/internal/media-repository/mongo-client.cpp. Client holds the connection, Download
--   `getImageById`, Upload `updateImageById`; each gives the handles it takes and frees as events.
-- - Amqp/Buffer and Amqp/Handler: src/internal/app-transport/amqp-handler.cpp, the two byte buffers and
--   the loop between the socket and the AMQP library. The loop runs over a list of rounds, each what
--   the socket gives; no fuel is needed. Amqp/Socket is its constructor, Amqp/Heartbeats the thread that
--   sends heartbeats, over the times at which it wakes; its durations are undefined where they do not
--   fit `uint16_t`. A connection that the library makes is a list of its calls before the loop.
-- - Amqp/Transport: src/internal/app-transport/amqp-transport.cpp, the handlers of the three queues as
--   the messages they send, over Tasks; `on_process_image` pushes to the queue of ThreadPool.
-- - ThreadPool/Workers: include/thread-pool/worker.hpp and thread-pool.hpp, the workers' steps between
--   those of the other threads; a call of the queue is one step of its specification.
-- - Processors/Realesrgan: processors/realesrgan/realesrgan-processor.cpp, the upscaling as the commands
--   that it gives to ncnn, and what its container and processor take and give back. `upscale` are the
--   commands for sizes in range; `process_image` is undefined where one of `int_terms` overflows.
-- - Processors/Rmbg: processors/rmbg/rmbg.cpp, its container and processor by what they take and give
--   back, and its `process_image` as commands; ONNX Runtime and ncnn are parameters, with the calls that
--   may throw. Replay is a machine that the commands run on. Processors/Loopback:
--   processors/loopback/loopback.cpp. Files: src/internal/utils/files.cpp, which rmbg has a copy of.
-- - ThreadPool/FixedFunction: include/thread-pool/fixed-function.hpp, the storage of one callable object;
--   Values is the specification, Shapes what an object can be, Moves the refinement.
-- Each part has its theorems in the modules below it, and its tests in a module Tests.
--
-- The numbers are ℕ. `size_t` and `intptr_t` in the queue have 64 bits and wrap, `uint32_t` in
-- the sizing has 32 bits and wraps; counts and indices elsewhere are small and are not wrapped. The
-- loops are structural, over lists or the number of rounds left.
--
-- Not modelled: the weaker memory orders of the queue's accesses; the start-up in main. stb_image is
-- another project's library.
pub mod Prelude
pub mod Image
pub mod App
pub mod Amqp
pub mod Config
pub mod Files
pub mod Loader
pub mod Mongo
pub mod Processors
pub mod Service
pub mod Capabilities
pub mod Status
pub mod Tasks
pub mod ThreadPool
