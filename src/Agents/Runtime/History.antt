-- ===== src/Agents/Runtime/History.antt =====
-- What incident_guard/agents/event_runtime.py does to the history in the store.
use incident_guard.Prelude.{
  All, All-map, ℕ, String, ◌≡◌, sym, ap, ◌∙◌, Option, some, List, [], ◌++◌, Result, ok, err,
  append_assoc, append-nil,
}
use incident_guard.Json.{Fields}
use incident_guard.Agents.Effects.{Act}
use incident_guard.Agents.Provider.{ToolCall, ProviderEvent}
use incident_guard.Agents.Runtime.{Session, Environment, StoredToolResult}
use incident_guard.Agents.Runtime.Entry.{run_session, resume, cancel}
use incident_guard.Agents.Runtime.Quiet.{Keeps, Quiet}
use incident_guard.Agents.Runtime.Steady.{Steady}
use incident_guard.Agents.Runtime.Public.{run_session-Keeps, resume-Keeps, cancel-Keeps}
use incident_guard.Events.Store.{RunEvent, NewRunEvent, Store}
use incident_guard.Events.Store.Commit.{Outcome, append_batch_atomic}
use incident_guard.Events.Store.Table.{IsWellFormed}

-- The table of a session is well formed, and holds the rows of another behind which rows may stand.
pub record Continues {W : Type 0} (s s' : Session W) : Type 0 where
  pub well_formed : IsWellFormed s'.store.rows
  pub newer : List RunEvent
  pub grown : s'.store.rows ≡ s.store.rows ++ newer

-- An action only adds rows to a well-formed table, which stays well formed.
pub record OnlyAdds {A W : Type 0} (m : Act (Session W) A) : Type 0 where
  pub at : (s : Session W) → IsWellFormed s.store.rows → Continues s (m s).1

-- All that the runtime calls only adds rows.
pub record Trusted {W : Type 0} (env : Environment W) : Type 0 where
  pub stream :
      (context : List Fields) (s : Session W)
      → IsWellFormed s.store.rows
      → Continues s (env.stream context s).1
  pub pulls :
      (context : List Fields) (s : Session W)
      → All
          (λ (pull : Act (Session W) (Option ProviderEvent)). OnlyAdds pull)
          (env.stream context s).0
  pub execute : (call : ToolCall) → OnlyAdds (env.execute call)
  pub preflight : (call : ToolCall) → OnlyAdds (env.preflight call)
  pub fault_injector : (event : RunEvent) → OnlyAdds (env.fault_injector event)
  pub emit : (run_id kind : String) (payload : Fields) → OnlyAdds (env.emit run_id kind payload)
  pub close_run : (run_id : String) → OnlyAdds (env.close_run run_id)
  pub tool_result_store :
      (store : String → Act (Session W) StoredToolResult)
      → env.tool_result_store ≡ some store
      → (content : String) → OnlyAdds (store content)

Continues-trans :
    {W : Type 0} (s s' s'' : Session W) → Continues s s' → Continues s' s'' → Continues s s''
Continues-trans s s' s'' c d = record {
  well_formed = d.well_formed;
  newer = c.newer ++ d.newer;
  grown =
      d.grown ∙ ap (λ rows. rows ++ d.newer) c.grown ∙ append_assoc s.store.rows c.newer d.newer;
}

Outcome-Continues :
    {W : Type 0} (run_id : String) (events : List NewRunEvent) (s : Session W)
    (r : Result (List RunEvent) × Store)
    → IsWellFormed s.store.rows
    → Outcome run_id events s.store r
    → Continues s (record s { store = r.1 })
Outcome-Continues run_id events s (err e, store') w o = record {
  well_formed = rw o w;
  newer = [];
  grown = ap (λ (t : Store). t.rows) o ∙ sym (append-nil s.store.rows);
}
Outcome-Continues run_id events s (ok stored, store') w o = record {
  well_formed = o.2;
  newer = stored;
  grown = ap (λ (t : Store). t.rows) (o.1);
}

module _ {W : Type 0} (env : Environment W) (trusted : Trusted env) (origin : Session W) where
  OnlyAdds-Keeps : {A : Type 0} (m : Act (Session W) A) → OnlyAdds m → Keeps (Continues origin) m
  OnlyAdds-Keeps m adds = record {
    at = λ s c. Continues-trans origin s (m s).1 c (adds.at s c.well_formed);
  }

  Continues-Quiet : Quiet (Continues origin) env
  Continues-Quiet = record {
    draws = λ n s c. record { well_formed = c.well_formed; newer = c.newer; grown = c.grown };
    appends = λ run_id events new s c. Continues-trans origin s _ c (
        Outcome-Continues run_id events s _ c.well_formed
          (append_batch_atomic run_id events s.store new c.well_formed));
    preflight = λ call. OnlyAdds-Keeps _ (trusted.preflight call);
    fault_injector = λ event. OnlyAdds-Keeps _ (trusted.fault_injector event);
    emit = λ run_id kind payload. OnlyAdds-Keeps _ (trusted.emit run_id kind payload);
    tool_result_store =
        λ store e content. OnlyAdds-Keeps _ (trusted.tool_result_store store e content);
  }

  Continues-Steady : Steady (Continues origin) env
  Continues-Steady = record {
    quiet = Continues-Quiet;
    pulls = λ context s.
        All-map (λ (pull : Act (Session W) (Option ProviderEvent)). OnlyAdds pull) _
          (env.stream context s).0 OnlyAdds-Keeps (trusted.pulls context s);
    stream = λ context s c. Continues-trans origin s _ c (trusted.stream context s c.well_formed);
    execute = λ call. OnlyAdds-Keeps _ (trusted.execute call);
    close_run = λ run_id. OnlyAdds-Keeps _ (trusted.close_run run_id);
  }

-- Let the provider, the tools, the live events, the fault injector and the result store only add rows
-- to a well-formed table, as operators do that act while the runtime waits. Then `run`, `resume` and
-- `cancel` on a well-formed store, on any number of rounds and however they end, leave a well-formed
-- store in which all the rows from before stand unchanged and in front.
pub methods-Continue :
    {W : Type 0} (env : Environment W) (run_id : String) (fuel : ℕ) (messages : List Fields)
    (s : Session W)
    → Trusted env
    → IsWellFormed s.store.rows
    → Continues s (run_session env run_id fuel messages s).1
      × Continues s (resume env run_id fuel s).1
      × Continues s (cancel env run_id s).1
methods-Continue env run_id fuel messages s trusted w = (
  (run_session-Keeps (Continues s) env steady run_id fuel messages).at s start,
  (resume-Keeps (Continues s) env steady run_id fuel).at s start,
  (cancel-Keeps (Continues s) env steady run_id).at s start,
)
  where
    steady : Steady (Continues s) env
    steady = Continues-Steady env trusted s

    start : Continues s s
    start = record { well_formed = w; newer = []; grown = sym (append-nil s.store.rows) }
