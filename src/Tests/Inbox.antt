-- ===== src/Tests/Inbox.antt =====
-- The inbox of a run at a concrete store, in which a message waits for the next step.
use incident_guard.Prelude.{ℕ, refl, false, [], ◌∷◌, has_text, arith}
use incident_guard.Json.{str, end, field, pos, dyadic}
use incident_guard.Json.Canonical.{canonical_fields, insert_field, text_le}
use incident_guard.Events.Store.{Store, run_event}
use incident_guard.Events.Store.Table.{IsWellFormed}
use incident_guard.Events.Inbox.{next_step, Stamp, consume}
use incident_guard.Events.Inbox.Atomicity.{ConsumeOutcome, consume_atomic}
use incident_guard.Tests.Samples.{event}

abbrev waiting : Store
waiting = record {
  rows =
      event 1 "e1" "run.started" end
      ∷ event 2 "e2" "inbox.message" (
          field "content" (str "look at the logs") (
            field "kind" (str "steering") (
              field "message_id" (str "m1")
                (field "role" (str "system") (field "target" (str "next_step") end)))))
      ∷ [];
  closed = false;
}

waiting-IsWellFormed : IsWellFormed waiting.rows
unfolding run_event canonical_fields insert_field text_le has_text
waiting-IsWellFormed = record {
  numbered = λ run_id. ground arith;
  distinct = (refl, (refl, tt));
  events = (refl, (refl, tt));
}

abbrev stamps : ℕ → Stamp
stamps n = record { event_id = "n1"; occurred_at = dyadic (pos 0) (pos 0) }

consume_atomic_example :
    ConsumeOutcome "run-1" next_step stamps waiting (consume "run-1" next_step stamps waiting)
consume_atomic_example = consume_atomic "run-1" next_step stamps waiting waiting-IsWellFormed
