-- ===== src/Agents/Runtime/Public.antt =====
-- What `_drive`, `run`, `resume` and `cancel` of incident_guard/agents/event_runtime.py keep when every
-- call that they make keeps it.
use incident_guard.Prelude.{ℕ, String, Option, none, some, List, [], ◌∷◌, ◌++◌, All, All-append}
use incident_guard.Json.{Fields}
use incident_guard.Agents.Effects.{timed_out, failed_with, crashed, Reply, gives, throws}
use incident_guard.Agents.Runtime.{Session, Environment, uncertain_mutation}
use incident_guard.Agents.Runtime.Log.{project_run}
use incident_guard.Agents.Runtime.Drive.{drive_rounds}
use incident_guard.Agents.Runtime.Entry.{
  fail_unless_uncertain, give_up, drive_caught, drive, close_if_terminal, close_after,
  drive_and_close, draw_messages, inject_each, start_fresh, run_session, resume_from,
  require_stored, resume, cancel,
}
use incident_guard.Agents.Runtime.Quiet.{
  Keeps, Makes, Makes-Keeps, Makes-bind, Makes-lift, Makes-give, Keeps-bind, Keeps-give,
  Keeps-throw, Keeps-if, on_store-Keeps, stored_events-Keeps, project_run-Keeps, draw_event-Makes,
  append_event-Keeps, fail_uncertain-Keeps, fail_session-Keeps,
}
use incident_guard.Agents.Runtime.Steady.{Steady}
use incident_guard.Agents.Runtime.Whole.{drive_rounds-Keeps}
use incident_guard.Events.Projected.{ToolProjection, RunProjection}
use incident_guard.Events.Store.{RunEvent, append_batch}
use incident_guard.Events.Store.Append.{IsNewEvent}

module _ {W : Type 0} (P : Session W → Type 0) (env : Environment W) (steady : Steady P env)
    (run_id : String) where
  projected-Keeps : Keeps P (project_run env run_id)
  projected-Keeps = project_run-Keeps P env steady.quiet run_id

  fail_unless_uncertain-Keeps :
      (reason : String) (tool : Option ToolProjection)
      → Keeps P (fail_unless_uncertain env run_id reason tool)
  fail_unless_uncertain-Keeps reason (some tool) =
      fail_uncertain-Keeps P env steady.quiet run_id tool.call_id
  fail_unless_uncertain-Keeps reason none = fail_session-Keeps P env steady.quiet run_id reason

  give_up-Keeps : (reason : String) → Keeps P (give_up env run_id reason)
  unfolding give_up
  give_up-Keeps reason = Keeps-bind P _ _ projected-Keeps (λ (p : RunProjection).
      Keeps-bind P _ _ (fail_unless_uncertain-Keeps reason (uncertain_mutation p))
        (λ ended. Keeps-give P (some ended)))

  drive_caught-holds :
      (r : Reply (Option RunProjection) × Session W) → P r.1 → P (drive_caught env run_id r).1
  unfolding drive_caught
  drive_caught-holds (gives p, s) q = q
  drive_caught-holds (throws (crashed message), s) q = q
  drive_caught-holds (throws timed_out, s) q = (give_up-Keeps _).at s q
  drive_caught-holds (throws (failed_with message), s) q = (give_up-Keeps _).at s q

  drive-Keeps : (fuel : ℕ) → Keeps P (drive env run_id fuel)
  unfolding drive
  drive-Keeps fuel = record {
    at = λ s p.
        drive_caught-holds (drive_rounds env run_id fuel s)
          ((drive_rounds-Keeps P env steady run_id fuel).at s p);
  }

  close_if_terminal-Keeps : (p : Option RunProjection) → Keeps P (close_if_terminal env run_id p)
  close_if_terminal-Keeps none = Keeps-give P tt
  close_if_terminal-Keeps (some p) = Keeps-if P _ _ _ (steady.close_run run_id) (Keeps-give P tt)

  close_after-holds :
      (r : Reply (Option RunProjection) × Session W) → P r.1 → P (close_after env run_id r).1
  unfolding close_after
  close_after-holds (gives p, s) q =
      (Keeps-bind P (close_if_terminal env run_id p) _ (close_if_terminal-Keeps p)
          (λ u. Keeps-give P p)).at
        s q
  close_after-holds (throws (crashed message), s) q =
      (Keeps-bind P (env.close_run run_id) _ (steady.close_run run_id)
          (λ u. Keeps-throw P {A = Option RunProjection} (crashed message))).at
        s q
  close_after-holds (throws timed_out, s) q = q
  close_after-holds (throws (failed_with message), s) q = q

  drive_and_close-Keeps : (fuel : ℕ) → Keeps P (drive_and_close env run_id fuel)
  unfolding drive_and_close
  drive_and_close-Keeps fuel = record {
    at = λ s p. close_after-holds (drive env run_id fuel s) ((drive-Keeps fuel).at s p);
  }

  draw_messages-Makes :
      (messages : List Fields) → Makes P (All IsNewEvent) (draw_messages env run_id messages)
  unfolding draw_messages
  draw_messages-Makes [] = Makes-give P _ [] tt
  draw_messages-Makes (m ∷ ms) =
      Makes-bind P (λ _. Unit {0}) _ _ _ (Makes-lift P _ _ (λ payload e. tt))
        (λ payload u.
          Makes-bind P _ _ _ _ (draw_event-Makes P env steady.quiet "operator.message" payload)
            (λ event new.
              Makes-bind P _ _ _ _ (draw_messages-Makes ms)
                (λ events news. Makes-give P _ (event ∷ events) (new, news))))

  inject_each-Keeps : (events : List RunEvent) → Keeps P (inject_each env run_id events)
  unfolding inject_each
  inject_each-Keeps [] = Keeps-give P tt
  inject_each-Keeps (e ∷ es) =
      Keeps-bind P _ _ (steady.quiet.fault_injector e) (λ u. inject_each-Keeps es)

  start_fresh-Keeps :
      (fuel : ℕ) (messages : List Fields) (stored : List RunEvent)
      → Keeps P (start_fresh env run_id fuel messages stored)
  start_fresh-Keeps fuel messages (e ∷ es) = Keeps-throw P _
  start_fresh-Keeps fuel messages [] =
      Makes-Keeps P _ _ _ (draw_event-Makes P env steady.quiet _ _) (λ first new.
        Makes-Keeps P _ _ _ (draw_messages-Makes messages) (λ asked news.
          Makes-Keeps P _ _ _ (draw_event-Makes P env steady.quiet _ _) (λ turn last.
            Keeps-bind P _ _
              (on_store-Keeps P env steady.quiet
                (append_batch run_id ((first ∷ asked) ++ turn ∷ []))
                (λ s p.
                  steady.quiet.appends run_id ((first ∷ asked) ++ turn ∷ [])
                    (All-append IsNewEvent (first ∷ asked) (turn ∷ []) (last, tt) (new, news)) s p))
              (λ stored. Keeps-bind P _ _ (inject_each-Keeps stored) (λ u.
                Keeps-bind P _ _ (steady.quiet.emit run_id _ _)
                  (λ v. drive_and_close-Keeps fuel))))))

  pub run_session-Keeps :
      (fuel : ℕ) (messages : List Fields) → Keeps P (run_session env run_id fuel messages)
  unfolding run_session
  run_session-Keeps fuel messages =
      Keeps-bind P _ _ (stored_events-Keeps P env steady.quiet run_id)
        (λ stored. start_fresh-Keeps fuel messages stored)

  resume_from-Keeps : (fuel : ℕ) (p : RunProjection) → Keeps P (resume_from env run_id fuel p)
  resume_from-Keeps fuel p =
      Keeps-if P _ _ _ (Keeps-give P (some p))
        (Keeps-bind P _ _ (steady.quiet.emit run_id _ _) (λ u. drive_and_close-Keeps fuel))

  require_stored-Keeps : (events : List RunEvent) → Keeps P (require_stored env run_id events)
  require_stored-Keeps [] = Keeps-throw P _
  require_stored-Keeps (e ∷ es) = Keeps-give P tt

  pub resume-Keeps : (fuel : ℕ) → Keeps P (resume env run_id fuel)
  unfolding resume
  resume-Keeps fuel = Keeps-bind P _ _ (stored_events-Keeps P env steady.quiet run_id) (λ stored.
      Keeps-bind P _ _ (require_stored-Keeps stored)
        (λ u. Keeps-bind P _ _ projected-Keeps (λ p. resume_from-Keeps fuel p)))

  pub cancel-Keeps : Keeps P (cancel env run_id)
  unfolding cancel
  cancel-Keeps = Keeps-bind P _ _ (stored_events-Keeps P env steady.quiet run_id) (λ stored.
      Keeps-bind P _ _ (require_stored-Keeps stored) (λ u.
        Keeps-bind P _ _ projected-Keeps (λ (p : RunProjection). Keeps-if P _ _ _ (Keeps-give P p) (
          Keeps-bind P _ _ (append_event-Keeps P env steady.quiet run_id _ _)
            (λ event. projected-Keeps)))))
