-- ===== src/Context/Incident.antt =====
-- incident_guard/context/incident_state.py: what the events of a run say of its incident. The
-- local variables of `project` are a record, `Known`.
pub mod Handlers
pub mod Fold
pub mod Sources
pub mod Grounds
pub mod Handled
pub mod Snapshots
use incident_guard.Prelude.{
  ℕ, String, Bool, true, false, not, ◌&&◌, ◌||◌, Option, none, some, List, [], ◌∷◌, ◌++◌, Dict,
  lookup, insert, values, contains, Result, ok, err, value_error, type_error, ◌>>=◌, ◌>>◌, raise_if,
  has_text, all_of, str_eq, if◌then◌else◌,
}
use incident_guard.Json.{
  Value, Items, Fields, null, bool, str, arr, obj, nil, cons, field, end, get,
}
use incident_guard.Agents.RunModels.{RunStatus}

pub record EvidenceReference : Type 0 where
  pub evidence_id : String
  pub summary : String
  pub source_sequence : ℕ
  pub content_ref : Option String
  pub content_sha256 : Option String

pub record ConfirmedFact : Type 0 where
  pub fact_id : String
  pub statement : String
  pub source_sequence : ℕ
  pub evidence_ids : List String

pub record HypothesisState : Type 0 where
  pub statement : String
  pub source_sequence : ℕ
  pub evidence_ids : List String

pub data ActionStatus : Type 0 where
  requested started completed failed : ActionStatus

pub record ExecutedAction : Type 0 where
  pub call_id : String
  pub name : String
  pub arguments : Fields
  pub status : ActionStatus
  pub requested_sequence : ℕ
  pub terminal_sequence : Option ℕ
  pub result : Option String

pub data ApprovalStatus : Type 0 where
  pending approved rejected : ApprovalStatus

pub record ApprovalState : Type 0 where
  pub request_id : String
  pub call_id : String
  pub status : ApprovalStatus
  pub requested_sequence : ℕ
  pub decision_sequence : Option ℕ
  pub reason : String

pub record UnfinishedItem : Type 0 where
  pub item_id : String
  pub description : String
  pub source_sequence : ℕ

pub record IncidentStateSnapshot : Type 0 where
  pub run_id : String
  pub status : RunStatus
  pub confirmed_facts : List ConfirmedFact
  pub current_hypothesis : Option HypothesisState
  pub evidence : List EvidenceReference
  pub executed_actions : List ExecutedAction
  pub approvals : List ApprovalState
  pub unfinished_items : List UnfinishedItem
  pub last_sequence : ℕ

-- The local variables of `project`.
pub record Known : Type 0 where
  pub evidence : Dict EvidenceReference
  pub facts : Dict ConfirmedFact
  pub hypothesis : Option HypothesisState
  pub actions : Dict ExecutedAction
  pub approvals : Dict ApprovalState
  pub unfinished : Dict UnfinishedItem

abbrev pub nothing_known : Known
nothing_known = record {
  evidence = [];
  facts = [];
  hypothesis = none;
  actions = [];
  approvals = [];
  unfinished = [];
}

abbrev text_value : Bool → Option Value → Result String
text_value allow_empty (some (str value)) =
    if not allow_empty && not (has_text value)
    then err (value_error "{key} must be a valid string")
    else ok value
text_value allow_empty _ = err (value_error "{key} must be a valid string")

-- `_text`
unfoldable pub require_text : Fields → String → Bool → Result String
require_text payload key allow_empty = text_value allow_empty (get payload key)

abbrev optional_text_value : Option Value → Result (Option String)
optional_text_value none = ok none
optional_text_value (some null) = ok none
optional_text_value value = do ok (some (← text_value false value))

-- `_optional_text`
unfoldable pub optional_text : Fields → String → Result (Option String)
optional_text payload key = optional_text_value (get payload key)

-- `isinstance(item, str) and item.strip()` for each item
abbrev texts_of : Items → Result (List String)
texts_of nil = ok []
texts_of (cons (str s) items) = do
  raise_if (not (has_text s)) (value_error "evidence_ids must contain non-empty strings")
  rest ← texts_of items
  ok (s ∷ rest)
texts_of (cons _ items) = err (value_error "evidence_ids must contain non-empty strings")

abbrev listed_ids : Option Value → Result (List String)
listed_ids none = ok []
listed_ids (some (arr items)) = texts_of items
listed_ids (some _) = err (value_error "evidence_ids must contain non-empty strings")

-- `_evidence_ids`
unfoldable pub evidence_ids_of : Fields → Dict EvidenceReference → Result (List String)
evidence_ids_of payload evidence = do
  ids ← listed_ids (get payload "evidence_ids")
  raise_if (not (all_of (λ id. contains id evidence) ids))
      (value_error "unknown evidence ids: {missing}")
  ok ids

-- `dict(payload.get("arguments", {}))`; the projection of the run has accepted the event, with an object.
abbrev pub arguments_of : Option Value → Result Fields
arguments_of none = ok end
arguments_of (some (obj fs)) = ok fs
arguments_of (some _) = err (type_error "object is not a dict")
