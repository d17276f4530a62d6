-- ===== src/Events/Projected.antt =====
-- The values that incident_guard/events/projection.py builds from events.
use incident_guard.Prelude.{
  ℕ, String, Bool, ◌&&◌, Option, none, some, List, [], ◌∷◌, Dict, any_of, ◌==◌, if◌then◌else◌,
  reverse,
}
use incident_guard.Json.{Items, Fields}
use incident_guard.Agents.RunModels.{RunStatus}

pub data ToolState : Type 0 where
  requested started completed failed : ToolState

pub record AgentMessage : Type 0 where
  pub role : String
  pub content : String
  pub tool_call_id : Option String
  pub name : Option String
  pub is_error : Bool
  pub tool_calls : Items

pub record ToolProjection : Type 0 where
  pub call_id : String
  pub name : String
  pub arguments : Fields
  pub effect : String
  pub turn_number : ℕ
  pub step_number : ℕ
  pub call_index : ℕ
  pub state : ToolState
  pub content : Option String
  pub is_error : Bool

pub record AssistantRecord : Type 0 where
  pub turn_number : ℕ
  pub step_number : ℕ
  pub text : String
  pub stop_reason : String
  pub tool_calls : Items
  pub input_tokens : Option ℕ
  pub output_tokens : Option ℕ

pub record InboxItemProjection : Type 0 where
  pub message_id : String
  pub kind : String
  pub target : String
  pub role : String
  pub content : String
  pub consumed : Bool

-- A step is named by its turn and its number in the turn.
abbrev pub Key : Type 0
Key = ℕ × ℕ

pub record RunProjection : Type 0 where
  pub run_id : String
  pub status : RunStatus
  pub messages : List AgentMessage
  pub tools : Dict ToolProjection
  pub assistant_records : List AssistantRecord
  pub inbox_items : List InboxItemProjection
  pub turn_number : ℕ
  pub current_step_number : Option ℕ
  pub completed_steps : List Key
  pub failure_reason : Option String
  pub last_sequence : ℕ

-- `(turn, step) in completed_steps`
abbrev pub is_completed : ℕ → ℕ → List Key → Bool
is_completed turn step = any_of (λ (item : Key). item.0 == turn && item.1 == step)

-- `open_step`
unfoldable pub open_step_of : ℕ → Option ℕ → List Key → Option Key
open_step_of turn none done = none
open_step_of turn (some step) done = if is_completed turn step done then none else some (turn, step)

unfoldable pub open_step : RunProjection → Option Key
unfolding open_step_of
open_step run = open_step_of run.turn_number run.current_step_number run.completed_steps

abbrev pub is_record_of : ℕ → ℕ → AssistantRecord → Bool
is_record_of turn step item = item.turn_number == turn && item.step_number == step

-- The last record of a step: `project` lets a step have one record only.
abbrev find_record : ℕ → ℕ → List AssistantRecord → Option AssistantRecord
find_record turn step [] = none
find_record turn step (item ∷ items) =
    if is_record_of turn step item then some item else find_record turn step items

abbrev current_assistant_of : ℕ → Option ℕ → List AssistantRecord → Option AssistantRecord
current_assistant_of turn none records = none
current_assistant_of turn (some step) records = find_record turn step (reverse records)

unfoldable pub current_assistant : RunProjection → Option AssistantRecord
current_assistant run =
    current_assistant_of run.turn_number run.current_step_number run.assistant_records
