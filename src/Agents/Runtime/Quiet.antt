-- ===== src/Agents/Runtime/Quiet.antt =====
-- What the methods of incident_guard/agents/event_runtime.py that execute no tool leave as it is.
use incident_guard.Prelude.{
  ℕ, ◌+◌, String, ◌≡◌, refl, All, Bool, true, false, Option, none, some, List, [], ◌∷◌, Result, ok,
  err, if◌then◌else◌,
}
use incident_guard.Json.{Fields}
use incident_guard.Agents.Effects.{
  Failure, Reply, gives, throws, Act, give, throw, lift, next, ◌>>=◌, ◌>>◌, Ends,
}
use incident_guard.Agents.Provider.{ToolCall}
use incident_guard.Agents.RunModels.{ToolObservation, is_terminal}
use incident_guard.Agents.Runtime.{Session, Environment, uncertain_mutation, StoredToolResult}
use incident_guard.Agents.Runtime.Log.{
  on_store, stored_events, project_run, draw_event, append_event, fail_uncertain,
  cancel_unless_uncertain, finish_cancellation, append_failure, fail_or_cancel, fail_session,
  payload_by, tool_result_payload,
}
use incident_guard.Events.Inbox.{stamped, projection_of}
use incident_guard.Events.Inbox.Atomicity.{stamped-IsNewEvent}
use incident_guard.Events.Store.Append.{IsNewEvent}
use incident_guard.Events.Locals.{is_cancelling}
use incident_guard.Events.Store.{
  Store, RunEvent, NewRunEvent, append_batch, append, replay, first_of_batch,
}
use incident_guard.Events.Projected.{ToolProjection, RunProjection}

-- An action keeps a property of the session, whether it returns or raises.
pub record Keeps {A W : Type 0} (P : Session W → Type 0) (m : Act (Session W) A) : Type 0 where
  pub at : (s : Session W) → P s → P (m s).1

-- It keeps the property, and what it returns has another.
pub record Makes {A W : Type 0} (P : Session W → Type 0) (Q : A → Type 0) (m : Act (Session W) A)
    : Type 0 where
  pub at : (s : Session W) → P s → Ends (λ a s'. Q a × P s') P (m s)

module _ {W : Type 0} (P : Session W → Type 0) where
  pub Keeps-bind :
      {A B : Type 0} (m : Act (Session W) A) (f : A → Act (Session W) B)
      → Keeps P m
      → ((a : A) → Keeps P (f a))
      → Keeps P (m >>= f)
  Keeps-bind {A = A} {B = B} m f km kf = record { at = λ s p. after (m s) (km.at s p) }
    where
      after : (r : Reply A × Session W) → P r.1 → P (next f r).1
      after (gives a, s') q = (kf a).at s' q
      after (throws x, s') q = q

  pub Makes-Keeps :
      {A B : Type 0} (Q : A → Type 0) (m : Act (Session W) A) (f : A → Act (Session W) B)
      → Makes P Q m
      → ((a : A) → Q a → Keeps P (f a))
      → Keeps P (m >>= f)
  Makes-Keeps {A = A} {B = B} Q m f km kf = record { at = λ s p. after (m s) (km.at s p) }
    where
      after : (r : Reply A × Session W) → Ends (λ a s'. Q a × P s') P r → P (next f r).1
      after (gives a, s') q = (kf a q.0).at s' q.1
      after (throws x, s') q = q

  pub Makes-bind :
      {A B : Type 0} (Q : A → Type 0) (R : B → Type 0) (m : Act (Session W) A)
      (f : A → Act (Session W) B)
      → Makes P Q m
      → ((a : A) → Q a → Makes P R (f a))
      → Makes P R (m >>= f)
  Makes-bind {A = A} {B = B} Q R m f km kf = record { at = λ s p. after (m s) (km.at s p) }
    where
      after :
          (r : Reply A × Session W)
          → Ends (λ a s'. Q a × P s') P r
          → Ends (λ b s'. R b × P s') P (next f r)
      after (gives a, s') q = (kf a q.0).at s' q.1
      after (throws x, s') q = q

  pub Makes-lift :
      {A : Type 0} (Q : A → Type 0) (r : Result A)
      → ((a : A) → r ≡ ok a → Q a)
      → Makes P Q (lift {S = Session W} r)
  Makes-lift Q (ok a) k = record { at = λ s p. (k a refl, p) }
  Makes-lift Q (err e) k = record { at = λ s p. p }

  pub Makes-give : {A : Type 0} (Q : A → Type 0) (a : A) → Q a → Makes P Q (give {S = Session W} a)
  Makes-give Q a q = record { at = λ s p. (q, p) }

  pub Keeps-lift : {A : Type 0} (r : Result A) → Keeps P (lift {S = Session W} r)
  Keeps-lift (ok a) = record { at = λ s p. p }
  Keeps-lift (err e) = record { at = λ s p. p }

  pub Keeps-give : {A : Type 0} (a : A) → Keeps P (give {S = Session W} a)
  Keeps-give a = record { at = λ s p. p }

  pub Keeps-throw : {A : Type 0} (f : Failure) → Keeps P (throw {S = Session W} {A = A} f)
  Keeps-throw f = record { at = λ s p. p }

  pub Keeps-if :
      {A : Type 0} (b : Bool) (m n : Act (Session W) A)
      → Keeps P m
      → Keeps P n
      → Keeps P (if b then m else n)
  Keeps-if true m n km kn = km
  Keeps-if false m n km kn = kn

-- Appends of new events, and what the runtime calls while no tool is executed, keep the property.
pub record Quiet {W : Type 0} (P : Session W → Type 0) (env : Environment W) : Type 0 where
  pub draws : (n : ℕ) (s : Session W) → P s → P (record s { drawn = n })
  pub appends :
      (run_id : String) (events : List NewRunEvent)
      → All IsNewEvent events
      → (s : Session W) → P s
      → P (record s { store = (append_batch run_id events s.store).1 })
  pub preflight : (call : ToolCall) → Keeps P (env.preflight call)
  pub fault_injector : (event : RunEvent) → Keeps P (env.fault_injector event)
  pub emit : (run_id kind : String) (payload : Fields) → Keeps P (env.emit run_id kind payload)
  pub tool_result_store :
      (store : String → Act (Session W) StoredToolResult)
      → env.tool_result_store ≡ some store
      → (content : String) → Keeps P (store content)

first_of_batch-store : (r : Result (List RunEvent) × Store) → (first_of_batch r).1 ≡ r.1
first_of_batch-store (ok [], store) = refl
first_of_batch-store (ok (e ∷ es), store) = refl
first_of_batch-store (err e, store) = refl

module _ {W : Type 0} (P : Session W → Type 0) (env : Environment W) (quiet : Quiet P env) where
  pub on_store-Keeps :
      {A : Type 0} (f : Store → Result A × Store)
      → ((s : Session W) → P s → P (record s { store = (f s.store).1 }))
      → Keeps P (on_store env f)
  on_store-Keeps f k = record {
    at = λ s p. (Keeps-lift P (f s.store).0).at (record s { store = (f s.store).1 }) (k s p);
  }

  append-Keeps :
      (run_id : String) (event : NewRunEvent)
      → IsNewEvent event
      → Keeps P (on_store env (append run_id event))
  unfolding append
  append-Keeps run_id event new = on_store-Keeps _ (λ s p.
      rw (first_of_batch-store (append_batch run_id (event ∷ []) s.store))
        (quiet.appends run_id (event ∷ []) (new, tt) s p))

  pub stored_events-Keeps : (run_id : String) → Keeps P (stored_events env run_id)
  unfolding stored_events
  stored_events-Keeps run_id = record {
    at = λ s p. (Keeps-lift P (replay run_id 0 s.store)).at s p;
  }

  pub project_run-Keeps : (run_id : String) → Keeps P (project_run env run_id)
  unfolding project_run
  project_run-Keeps run_id = record {
    at = λ s p. (Keeps-lift P (projection_of run_id s.store)).at s p;
  }

  pub draw_event-Makes :
      (event_type : String) (payload : Fields)
      → Makes P IsNewEvent (draw_event env event_type payload)
  unfolding draw_event
  draw_event-Makes event_type payload = record {
    at = λ s p.
        (Makes-lift P IsNewEvent (stamped event_type payload (env.stamps s.drawn))
            (stamped-IsNewEvent event_type payload (env.stamps s.drawn))).at
          (record s { drawn = s.drawn + 1 }) (quiet.draws (s.drawn + 1) s p);
  }

  pub append_event-Keeps :
      (run_id event_type : String) (payload : Fields)
      → Keeps P (append_event env run_id event_type payload)
  unfolding append_event
  append_event-Keeps run_id event_type payload =
      Keeps-bind P _ _ (project_run-Keeps run_id) (λ (before : RunProjection).
        Keeps-bind P _ _
          (Keeps-if P (is_terminal before.status) _ _ (Keeps-throw P _) (Keeps-give P tt))
          (λ u. Makes-Keeps P _ _ _ (draw_event-Makes event_type payload) (λ made new.
            Keeps-bind P _ _ (append-Keeps run_id made new) (λ event.
              Keeps-bind P _ _ (project_run-Keeps run_id) (λ after.
                Keeps-bind P _ _ (quiet.fault_injector event) (λ v. Keeps-give P event))))))

  -- An event, then a live event, then the projection.
  report-Keeps :
      (run_id event_type kind : String) (payload live : Fields)
      → Keeps P (
          append_event env run_id event_type payload >>= λ event.
          env.emit run_id kind live >> project_run env run_id)
  report-Keeps run_id event_type kind payload live =
      Keeps-bind P _ _ (append_event-Keeps run_id event_type payload)
        (λ event. Keeps-bind P _ _ (quiet.emit run_id kind live) (λ u. project_run-Keeps run_id))

  pub fail_uncertain-Keeps : (run_id call_id : String) → Keeps P (fail_uncertain env run_id call_id)
  unfolding fail_uncertain
  fail_uncertain-Keeps run_id call_id = report-Keeps run_id _ _ _ _

  pub finish_cancellation-Keeps :
      (run_id : String) (p : RunProjection) → Keeps P (finish_cancellation env run_id p)
  unfolding finish_cancellation cancel_unless_uncertain
  finish_cancellation-Keeps run_id p = either (uncertain_mutation p)
    where
      either : (tool : Option ToolProjection) → Keeps P (cancel_unless_uncertain env run_id tool)
      either none = report-Keeps run_id _ _ _ _
      either (some tool) = fail_uncertain-Keeps run_id tool.call_id

  pub fail_session-Keeps : (run_id reason : String) → Keeps P (fail_session env run_id reason)
  unfolding fail_session fail_or_cancel append_failure
  fail_session-Keeps run_id reason = Keeps-bind P _ _ (project_run-Keeps run_id) (λ p.
      Keeps-if P (is_cancelling p.status) _ _ (finish_cancellation-Keeps run_id p)
        (report-Keeps run_id _ _ _ _))

  pub tool_result_payload-Keeps : (o : ToolObservation) → Keeps P (tool_result_payload env o)
  unfolding tool_result_payload payload_by
  tool_result_payload-Keeps o = either env.tool_result_store refl
    where
      either :
          (store : Option (String → Act (Session W) StoredToolResult))
          → env.tool_result_store ≡ store
          → Keeps P (payload_by env store o)
      either none e = Keeps-give P _
      either (some store) e =
          Keeps-bind P _ _ (quiet.tool_result_store store e o.content) (λ stored. Keeps-give P _)
