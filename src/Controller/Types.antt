-- ===== src/Controller/Types.antt =====
-- The controller's data (core/controller/c/controller.h and the structs of core/controller/c/core/controller.c).
-- A C enum field is the number that it holds: the code takes any `unsigned` value and checks it.
-- A function pointer or a `void *` is a number that stands for the address, `none` for NULL.
use strimserver.Prelude.{ℕ, ◌+◌, ◌-◌, ◌%◌, ◌^◌, Bool, Option, List, ℤ}

-- enum strim_path_status
abbrev pub path_unknown : ℕ
path_unknown = 0

abbrev pub path_ready : ℕ
path_ready = 1

abbrev pub path_not_ready : ℕ
path_not_ready = 2

abbrev pub path_status_count : ℕ
path_status_count = 3

-- enum strim_stage_state
abbrev pub stage_stopped : ℕ
stage_stopped = 0

abbrev pub stage_running : ℕ
stage_running = 1

abbrev pub stage_no_target : ℕ
stage_no_target = 2

abbrev pub stage_state_count : ℕ
stage_state_count = 3

-- enum strim_path_name
abbrev pub path_ingress0 : ℕ
path_ingress0 = 0

abbrev pub path_normalized : ℕ
path_normalized = 1

abbrev pub path_name_count : ℕ
path_name_count = 2

-- enum strim_stage_name
abbrev pub stage_media_mtx : ℕ
stage_media_mtx = 0

abbrev pub stage_normalize : ℕ
stage_normalize = 1

abbrev pub stage_scale_and_egress : ℕ
stage_scale_and_egress = 2

abbrev pub stage_single_stage_egress : ℕ
stage_single_stage_egress = 3

abbrev pub stage_name_count : ℕ
stage_name_count = 4

-- enum strim_control_component and enum strim_control_action
abbrev pub component_egress : ℕ
component_egress = 0

abbrev pub component_count : ℕ
component_count = 1

abbrev pub action_start : ℕ
action_start = 0

abbrev pub action_stop : ℕ
action_stop = 1

abbrev pub action_count : ℕ
action_count = 2

-- STRIM_CTRL_MAX_LISTENERS, and STRIM_CTRL_WORKERS (one worker for each stage)
abbrev pub max_listeners : ℕ
max_listeners = 16

abbrev pub ctrl_workers : ℕ
ctrl_workers = stage_name_count

-- The result of an API call: 0 or a STRIM_CTRL_ERR_* code.
pub data Rc : Type 0 where
  ok badarg unknown prereq closed nomem : Rc

pub record StageStatus : Type 0 where
  pub desired : ℕ
  pub actual : ℕ

-- strim_controller_status: `paths` and `stages` are indexed by their enums.
pub record ControllerStatus : Type 0 where
  pub paths : List ℕ
  pub stages : List StageStatus

pub record PathEvent : Type 0 where
  pub path : ℕ
  pub status : ℕ

pub record StageEvent : Type 0 where
  pub stage : ℕ
  pub state : ℕ

pub record ControlCommand : Type 0 where
  pub component : ℕ
  pub action : ℕ

-- STRIM_ROUTE_PATH_EVENT and STRIM_ROUTE_CONTROL
abbrev pub route_path_event : ℕ
route_path_event = 0

abbrev pub route_control : ℕ
route_control = 1

-- What the strim_prerequisite_fn at an address answers, from the status that it reads and its
-- userdata; the answer is compared with 0.
abbrev pub Prerequisites : Type 0
Prerequisites = ℕ → ControllerStatus → ℕ → ℤ

pub record Route : Type 0 where
  pub path : ℕ
  pub path_status : ℕ
  pub component : ℕ
  pub action : ℕ
  pub kind : ℕ
  pub target_stage : ℕ
  pub target_state : ℕ
  pub prerequisite : Option ℕ
  pub prerequisite_userdata : ℕ

pub record StageConfig : Type 0 where
  pub name : ℕ
  pub status : StageStatus
  pub start_op : Option ℕ
  pub stop_op : Option ℕ
  pub op_ctx : ℕ

pub record Stage : Type 0 where
  pub name : ℕ
  pub status : StageStatus
  pub start_op : Option ℕ
  pub stop_op : Option ℕ
  pub op_ctx : ℕ
  pub in_flight_since : ℤ  -- int64_t, 0 when no op is in flight
  pub op_generation : ℕ  -- uint64_t

-- `op_generation++` and `op_generation--`
abbrev pub u64_mod : ℕ
u64_mod = 2 ^ 64

unfoldable pub inc64 : ℕ → ℕ
inc64 g = (g + 1) % u64_mod

unfoldable pub dec64 : ℕ → ℕ
dec64 g = (g + u64_mod - 1) % u64_mod

-- strim_stage_op_cancel: `current_generation` points into the stage that it was fired for.
pub record Cancel : Type 0 where
  pub generation : ℕ
  pub deadline_ms : ℤ
  pub current_generation : ℕ

pub record OpJob : Type 0 where
  pub stage : ℕ
  pub op : ℕ
  pub op_ctx : ℕ
  pub timeout_ms : ℤ
  pub cancel : Cancel

-- strim_listener_entry
pub record Listener : Type 0 where
  pub fn : ℕ
  pub userdata : ℕ

-- The calls that the queue thread makes out of the controller, in order.
pub data Effect : Type 0 where
  listener_called : Listener → ControllerStatus → Effect
  stop_called : (op op_ctx : ℕ) (timeout_ms : ℤ) → Effect

-- strim_action_kind with the payload of strim_action
pub data Action : Type 0 where
  path_event : PathEvent → Action
  control : ControlCommand → Action
  stage_event : StageEvent → Action
  status : Action
  add_listener : Listener → Action
  remove_listener : Listener → Action
  reconcile : Action
  clear_inflight : (clear_stage clear_generation : ℕ) → Action
  teardown : Action

-- strim_action: `submitter` is the stack frame that waits for the reply of a blocking submit.
pub record Queued : Type 0 where
  pub kind : Action
  pub self_allocated : Bool
  pub submitter : ℕ

-- `reply_result`, with what ACTION_STATUS wrote through `status_out`
pub record Reply : Type 0 where
  pub submitter : ℕ
  pub reply_result : Rc
  pub status_out : Option ControllerStatus

-- Where a worker stands in run_stage_op: in the op, before the clear, before wg_done.
pub data Phase : Type 0 where
  in_op clearing leaving : Phase

pub record Worker : Type 0 where
  pub job : OpJob
  pub phase : Phase

-- strim_workerpool: the waiting jobs, and the jobs that the threads have taken.
pub record WorkerPool : Type 0 where
  pub jobs : List OpJob
  pub taken : List Worker
  pub shutting_down : Bool

pub record Controller : Type 0 where
  pub paths : List ℕ
  pub stages : List Stage
  pub path_routes : List Route
  pub control_routes : List Route
  pub listeners : List Listener
  pub inflight_timeout_ms : ℤ
  pub actions_buffer_size : ℕ
  pub queue : List Queued
  pub q_closed : Bool
  pub reconcile_queued : Bool
  pub shutting_down : Bool
  pub ops_wg : ℕ
  pub pool : WorkerPool
  pub effects : List Effect
  pub replies : List Reply

-- A pointer to a route table with its count: a NULL pointer, or the entries.
pub data RouteTable : Type 0 where
  null_table : (count : ℕ) → RouteTable
  entries : List Route → RouteTable

pub record Config : Type 0 where
  pub initial_paths : List ℕ
  pub stages : List StageConfig
  pub path_routes : RouteTable
  pub control_routes : RouteTable
  pub inflight_timeout_ms : ℤ
  pub actions_buffer_size : ℕ
