-- ===== src/Runtime/Adapter.antt =====
-- `ProviderNodeExecutionAdapter` of src/bpg/runtime/orchestrator.py, the adapter that hands nodes to
-- providers. What it calls of the providers is a record of parameters, `Providers`; a call that raises
-- gives `none`, with the state at that point.
pub mod Tasks
mod Examples
use bpg.Common.{String, Bool, true, false, Option, none, some, List, Dict, get, put, if◌then◌else◌}
use bpg.Value.{Value, Fields, bool, str, end, field}
use bpg.Runtime.Orchestrator.{StartCall, Polled, running, completed, unsuccessful}

pub record ProviderError : Type 0 where
  pub code : String
  pub message : String
  pub retryable : Bool

-- How a call of a provider ends; another exception comes with its text.
pub data Called (A : Type 0) : Type 0 where
  returned : A → Called A
  provider_error : ProviderError → Called A
  other_error : String → Called A

pub data ExecutionStatus : Type 0 where
  still_running : ExecutionStatus
  has_completed : ExecutionStatus
  has_failed : ExecutionStatus

-- The providers, by their names, and `uuid.uuid4`.
pub record Providers (W Handle : Type 0) : Type 0 where
  pub registered : String → Bool
  pub invoke : String → StartCall → W → Called Handle × W
  pub poll : String → Handle → W → Called ExecutionStatus × W
  pub await_result : String → Handle → W → Called Fields × W
  pub cancel : String → Handle → W → Option W
  pub new_id : W → String × W

pub record AdapterState (W Handle : Type 0) : Type 0 where
  pub tasks : Dict (String × Handle)
  pub outer : W

pub error_fields : ProviderError → Fields
error_fields e =
    field "code" (str e.code)
      (field "message" (str e.message) (field "retryable" (bool e.retryable) end))

pub failed_fields : String → Fields
failed_fields message = field "code" (str "provider_failed") (field "message" (str message) end)

module _ {W Handle : Type 0} (providers : Providers W Handle) where
  -- `self._tasks[task_id] = (provider, handle)`
  pub remember :
      Dict (String × Handle) → String → Handle → String × W → Option String × AdapterState W Handle
  unfolding put
  remember tasks provider handle (id, w) =
      (some id, record { tasks = put id (provider, handle) tasks; outer = w })

  pub after_invoke :
      Dict (String × Handle) → String → Called Handle × W → Option String × AdapterState W Handle
  unfolding remember
  after_invoke tasks provider (returned handle, w) =
      remember tasks provider handle (providers.new_id w)
  after_invoke tasks provider (provider_error e, w) = (none, record { tasks = tasks; outer = w })
  after_invoke tasks provider (other_error e, w) = (none, record { tasks = tasks; outer = w })

  -- `start_node`
  pub adapter_start : StartCall → AdapterState W Handle → Option String × AdapterState W Handle
  unfolding after_invoke
  adapter_start call s =
      if providers.registered call.node_type.provider
      then after_invoke s.tasks call.node_type.provider
          (providers.invoke call.node_type.provider call s.outer)
      else (none, s)

  -- The result of a task that completed; only a `ProviderError` is caught.
  pub completed_with : Called Fields × W → Option Polled × W
  unfolding error_fields
  completed_with (returned output, w) = (some (completed (some output)), w)
  completed_with (provider_error e, w) = (some (unsuccessful (some (error_fields e))), w)
  completed_with (other_error e, w) = (none, w)

  -- The error of a task that failed; every exception is caught.
  pub failed_with : Called Fields × W → Option Polled × W
  unfolding error_fields failed_fields
  failed_with (returned output, w) =
      (some (unsuccessful (some (failed_fields "Provider reported failed status"))), w)
  failed_with (provider_error e, w) = (some (unsuccessful (some (error_fields e))), w)
  failed_with (other_error e, w) = (some (unsuccessful (some (failed_fields e))), w)

  pub after_status : String → Handle → Called ExecutionStatus × W → Option Polled × W
  unfolding completed_with failed_with
  after_status provider handle (returned still_running, w) = (some running, w)
  after_status provider handle (returned has_completed, w) =
      completed_with (providers.await_result provider handle w)
  after_status provider handle (returned has_failed, w) =
      failed_with (providers.await_result provider handle w)
  after_status provider handle (provider_error e, w) =
      (some (unsuccessful (some (error_fields e))), w)
  after_status provider handle (other_error e, w) = (none, w)

  pub poll_handle : String → Handle → W → Option Polled × W
  unfolding after_status
  poll_handle provider handle w = after_status provider handle (providers.poll provider handle w)

  -- `poll`
  pub adapter_poll : String → AdapterState W Handle → Option Polled × AdapterState W Handle
  unfolding get poll_handle
  adapter_poll task_id s = elim (get task_id s.tasks) [
    | none ↦ (none, s)
    | some task ↦
        let polled = poll_handle task.0 task.1 s.outer in
        (polled.0, record { tasks = s.tasks; outer = polled.1 })
  ]

  pub after_cancel : AdapterState W Handle → Option W → Option (AdapterState W Handle)
  after_cancel s none = none
  after_cancel s (some w) = some (record { tasks = s.tasks; outer = w })

  -- `cancel`; an unknown task is ignored.
  pub adapter_cancel : String → AdapterState W Handle → Option (AdapterState W Handle)
  unfolding get after_cancel
  adapter_cancel task_id s = elim (get task_id s.tasks) [
    | none ↦ some s
    | some task ↦ after_cancel s (providers.cancel task.0 task.1 s.outer)
  ]
