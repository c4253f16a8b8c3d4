-- ===== src/Lib.antt =====
-- Verification of the strimserver controller: the C sources under core/controller/c.
--
-- The controller keeps one desired and one actual state for each of the four pipeline stages, and
-- drives the actual states to the desired ones. Events and commands come in as actions of one
-- queue, which one thread runs in order (strim_controller_run). A reconcile pass fires the start
-- or stop op of each stage that is not as desired; the ops run on a pool of worker threads, and an
-- op that fails sends a clear of the stage's in-flight marker back through the queue. Shutdown is a
-- handshake: begin_shutdown suppresses new ops, wait_for_ops waits for the wait group, teardown
-- stops what runs, and close lets the queue thread return.
--
-- Files and the code that they model:
-- Prelude: the shared helpers; Boolean tests, lists and integers over the native numbers.
-- Controller/Types: the enums, structs and limits of core/controller/c/controller.h and of
--   core/controller/c/core/controller.c.
-- Controller/Names: the wire-string helpers (strim_*_from_string, strim_*_to_string).
-- Controller/Routes: route lookup, validate_and_copy_routes and strim_controller_new.
-- Controller/Handlers: strim_controller_handle_{status, path_event, control, stage_event}, the
--   listener handlers, the clear of run_action, and teardown_inner.
-- Controller/Reconcile: strim_controller_handle_reconcile with workerpool_submit, wg_add and
--   wg_done. Reconcile/Slots holds the specification, one slot for each stage on its own.
-- Controller/Queue: queue_submit, request_reconcile, close, run_action, the loop of
--   strim_controller_run, worker_main, run_stage_op and the cancel handle.
-- Controller/System: the step relation of all the threads, and reachability.
-- Controller/WellFormed: the well-formed controllers, what construction guarantees, and what
--   events and commands do to the desired states.
-- Protobuf: the wire helpers of core/controller/c/containerd/minipb.h (mpb_*). Protobuf/Varint and
--   Protobuf/Fields write and read back, Protobuf/Walk is about the readers alone.
-- Base64: strim_base64_encode and strim_base64_decode of core/controller/c/http/ws_crypto.c.
-- EnvFile: source_env_file and expand_template_file of core/controller/c/envfile.c. EnvFile/Listing
--   is about the files that are sourced, EnvFile/Template about the expansion.
-- Spec: join_path, strim_default_layout and, in Spec/Mounts, the mount lists of
--   core/controller/c/core/spec.c.
--   Spec/Argv is strim_stage_argv.
-- StageOps: stage_stop_op and stage_start_op of core/controller/c/main.c, as trees of what they ask
--   and call. StageOps/Runs runs a tree against a host; StageOps/Contract is the monitor that an op
--   has to satisfy (StageOps/Watching, Guards, Stopping and Starting are the proof),
--   StageOps/Progress and Completion are about a host whose calls do what they are for or fail, and
--   StageOps/Budget is about deadlines.
-- Hpack: HPACK of core/controller/c/containerd/h2c.c. The child modules Huffman, Table, Static,
--   Block and Encode hold the operations; Integers, Bounds, Lookup, Indices, Safety, RoundTrip,
--   Fields and Request are about them.
-- Messages: handle_data_frame and stream_feed_data of core/controller/c/containerd/h2c.c with
--   stream_abort, stream_credit_message and queue_push. Messages/Bytes is the specification, one byte at a time;
--   Messages/Rounds, Feed and Delivery are about it, Messages/Windows about flow control.
-- Frames: frame_write and frame_reader_fill of core/controller/c/containerd/h2c.c, where the socket
--   decides how much each read gives. Frames/RoundTrip is about both; its fuel is one round for each
--   byte and one more.
-- Tests: a controller as core/controller/c/main.c configures it, runs and uses of the theorems.
--
-- How state and operations correspond: the record Controller has the fields of struct
-- strim_controller. Each operation is a function from a controller to a controller with its result
-- code. The fields `effects` and `replies` record the calls out of the controller and the answers
-- to blocking submits, in order. One Step is one section that the code runs under a lock, one action
-- of the queue thread, which alone touches the paths, stages and listeners, or one stage of a
-- reconcile pass (`comes_to_stage`), so that the other threads' steps fall between two stages of a
-- pass too; this allows more interleavings than the code has. A begin_shutdown between the check of a
-- stage and its locked section is the `shutdown_races` answer of the FireEnv of that stage, which also
-- holds the clock readings and what malloc answers.
--
-- Parameters: the prerequisite callbacks by address (Prerequisites), the FireEnv and NewEnv of a
-- run, the error code that an op returns; the generated table of Huffman codes; the Host of a
-- stage op, which answers for the containerd client, CDI, the waiter thread and the cancellation
-- handle; what realloc answers to the protobuf writers; getenv, whether setenv succeeds, and the
-- answers of the file calls. Function pointers and `void *` are numbers.
--
-- The codecs are functions on lists of bytes or character codes; a reader is the bytes that it
-- has left, and `none` is the refusal. A loop on fuel that has to end has a further answer for the
-- end of the fuel (EnvFile, Hpack/Block). malloc succeeds in the HTTP/2 code. Texts are lists of
-- character codes without NUL. `|` and `<<` on disjoint bits are written as sums and products.
--
-- Bounds and fuel: `run` takes fuel, and one round more than the queued actions is enough after
-- close (Controller.System.Drain). A varint takes ten rounds, the room of `tmp`; the doubling of
-- a buffer takes the wanted size as fuel; the loops over a file take its length as fuel
-- (EnvFile). A header block takes as many rounds as it has bytes (Hpack/Safety), and so does the
-- payload of a DATA frame (Messages/Feed). Generations wrap modulo 2 ^ 64. Times are integers
-- without the overflow of int64_t, and counters of heap objects and the sizes of buffers do not
-- wrap.
--
-- Not modelled: NULL arguments, which every entry point refuses first; mutexes, condition
-- variables and thread creation, beyond the answer of pthread_create; strim_controller_destroy;
-- the default clock; log output; SHA-1; the HTTP server, the containerd client but for HPACK and
-- message reassembly, the rest of main.c, and the vendored and generated protobuf code.
pub mod Prelude
pub mod Controller
pub mod Protobuf
pub mod Base64
pub mod EnvFile
pub mod Spec
pub mod StageOps
pub mod Hpack
pub mod Messages
pub mod Frames
pub mod Tests
