-- ===== src/Tests/Runtime.antt =====
-- The event-driven runtime at a concrete run whose mutating tool has been asked for. The world is the
-- number of tools that have been executed.
use incident_guard.Prelude.{
  ℕ, zero, suc, ◌+◌, String, has_text, str_append, arith, ◌≡◌, refl, false, none, some, [], ◌∷◌,
  sym, append-nil,
}
use incident_guard.Json.{end, pos, dyadic}
use incident_guard.Agents.Effects.{Reply, gives}
use incident_guard.Agents.Provider.{ToolCall, ProviderResponse, end_turn, completed}
use incident_guard.Agents.RunModels.{ToolObservation}
use incident_guard.Agents.Runtime.{Session, Environment, nothing}
use incident_guard.Agents.Runtime.Calls.{run_tool}
use incident_guard.Agents.Runtime.Quiet.{Quiet}
use incident_guard.Agents.Runtime.Mutation.{Permitted, run_tool-Permitted}
use incident_guard.Events.Projected.{ToolProjection, requested}
use incident_guard.Events.Store.{run_event}
use incident_guard.Events.Store.Table.{IsWellFormed}
use incident_guard.Json.Canonical.{canonical_fields}
use incident_guard.Agents.Runtime.Entry.{run_session, resume, cancel}
use incident_guard.Agents.Runtime.History.{Trusted, Continues, methods-Continue}
use incident_guard.Tests.Samples.{opening, event}

abbrev observe : ToolCall → Session ℕ → Reply ToolObservation × Session ℕ
observe call s = (
  gives (record { call_id = call.id; name = call.name; content = "{}"; is_error = false }),
  record s { world = s.world + 1 },
)

abbrev ends_turn : ProviderResponse
ends_turn = record { text = "done"; stop_reason = end_turn; tool_calls = []; usage = none }

abbrev numbered : ℕ → String
numbered zero = "n"
numbered (suc n) = str_append "n" (numbered n)

abbrev env : Environment ℕ
env = record {
  stream = λ context s. ((λ t. (gives (some (completed ends_turn)), t)) ∷ [], s);
  execute = observe;
  preflight = λ call s. (gives nothing, s);
  registered_effect = λ name. some "mutate";
  limits = record {
    max_steps = 4;
    timeout_seconds = dyadic (pos 30) (pos 0);
    max_tool_calls = 32;
    max_tokens = 100000;
  };
  fault_injector = λ event s. (gives tt, s);
  emit = λ run_id kind payload s. (gives tt, s);
  close_run = λ run_id s. (gives tt, s);
  tool_result_store = none;
  context_token_budget = none;
  estimator = record { bytes_per_token = 4; message_overhead = 4; conversation_overhead = 2 };
  stamps = λ n. record { event_id = numbered n; occurred_at = dyadic (pos 0) (pos 0) };
  dumps = λ fields. "{}";
  loads = λ content. none;
}

abbrev session : Session ℕ
session = record { store = record { rows = opening; closed = false }; drawn = 0; world = 0 }

abbrev restart : ToolProjection
restart = record {
  call_id = "c1";
  name = "restart_service";
  arguments = end;
  effect = "mutate";
  turn_number = 1;
  step_number = 1;
  call_index = 0;
  state = requested;
  content = none;
  is_error = false;
}

abbrev IsUntouched : Session ℕ → Type 0
IsUntouched s = s.world ≡ 0

quiet : Quiet IsUntouched env
quiet = record {
  draws = λ n s p. p;
  appends = λ run_id events new s p. p;
  preflight = λ call. record { at = λ s p. p };
  fault_injector = λ event. record { at = λ s p. p };
  emit = λ run_id kind payload. record { at = λ s p. p };
  tool_result_store = λ store e content. cc;
}

run_tool-Permitted_example :
    Permitted IsUntouched env quiet "run-1" restart session (run_tool env "run-1" restart session).1
run_tool-Permitted_example =
    run_tool-Permitted IsUntouched env quiet "run-1" restart session refl refl

abbrev begun : Session ℕ
begun = record {
  store = record { rows = event 1 "e1" "run.started" end ∷ []; closed = false };
  drawn = 0;
  world = 0;
}

begun-IsWellFormed : IsWellFormed begun.store.rows
unfolding run_event canonical_fields has_text
begun-IsWellFormed = record {
  numbered = λ run_id. ground arith;
  distinct = (refl, tt);
  events = (refl, tt);
}

stays : (s : Session ℕ) → IsWellFormed s.store.rows → Continues s s
stays s w = record { well_formed = w; newer = []; grown = sym (append-nil s.store.rows) }

trusted : Trusted env
trusted = record {
  stream = λ context s w. stays s w;
  pulls = λ context s. (record { at = stays }, tt);
  execute = λ call. record {
    at = λ s w. record { well_formed = w; newer = []; grown = sym (append-nil s.store.rows) };
  };
  preflight = λ call. record { at = stays };
  fault_injector = λ event. record { at = stays };
  emit = λ run_id kind payload. record { at = stays };
  close_run = λ run_id. record { at = stays };
  tool_result_store = λ store e content. cc;
}

methods-Continue_example :
    Continues begun (run_session env "run-1" 4 [] begun).1
    × Continues begun (resume env "run-1" 4 begun).1
    × Continues begun (cancel env "run-1" begun).1
methods-Continue_example = methods-Continue env "run-1" 4 [] begun trusted begun-IsWellFormed
