-- ===== src/Agents/React/Closing.antt =====
-- How a run is closed in incident_guard/agents/react_runtime.py: the turn, the failure and the end.
use incident_guard.Prelude.{
  ℕ, ◌+◌, ◌≤◌, String, ◌≡◌, refl, true, Option, some, List, [], ◌∷◌, ◌++◌, ok, arith, length,
  has_text,
}
use incident_guard.Agents.Effects.{gives}
use incident_guard.Agents.RunModels.{
  RunStatus, running, failed, is_terminal, allowed_transition, StepResult, TurnResult,
  new_turn_result, AgentRun, transition, append_turn,
}
use incident_guard.Agents.RunModels.Transitions.{ReasonFits, transition_iff}
use incident_guard.Agents.RunModels.Turns.{
  IsWellFormed, here, transitioned, appended, Reaches-IsWellFormed, append_turn_iff,
}
use incident_guard.Agents.React.{RunLimits, Agent, Loop, fail_run}
use incident_guard.Agents.React.Rounds.{close_turn, finish}

-- The steps of all turns.
abbrev pub steps_of : List TurnResult → ℕ
steps_of [] = 0
steps_of (t ∷ ts) = length t.steps + steps_of ts

steps_of-append :
    (ts : List TurnResult) (t : TurnResult) → steps_of (ts ++ t ∷ []) ≡ steps_of ts + length t.steps
steps_of-append [] t = omega arith
steps_of-append (u ∷ ts) t = omega (arith, steps_of-append ts t)

-- The turn that closes a run with the steps at hand, and the run with it.
abbrev pub turn_of : AgentRun → List StepResult → TurnResult
turn_of run steps = record { turn_number = length run.turns + 1; steps = steps }

abbrev pub closed : AgentRun → List StepResult → AgentRun
closed run steps = record run { turns = run.turns ++ turn_of run steps ∷ [] }

abbrev pub ended : AgentRun → List StepResult → RunStatus → Option String → AgentRun
ended run steps status reason = record (closed run steps) {
  status = status;
  failure_reason = reason;
}

-- A run that goes on with the given steps, which have room for `n` more.
pub record Going (limit n : ℕ) (run : AgentRun) (steps : List StepResult) : Type 0 where
  pub formed : IsWellFormed run
  pub going : run.status ≡ running
  pub room : steps_of run.turns + length steps + n ≤ limit

-- What the runtime returns.
pub record Ended (limit : ℕ) (run : AgentRun) : Type 0 where
  pub formed : IsWellFormed run
  pub final : is_terminal run.status ≡ true
  pub few : steps_of run.turns ≤ limit

pub new_turn_result-of :
    (n : ℕ) (steps : List StepResult)
    → new_turn_result (n + 1) steps ≡ ok (record { turn_number = n + 1; steps = steps })
unfolding new_turn_result
new_turn_result-of n steps = ground arith

pub append_turn-closed :
    (run : AgentRun) (steps : List StepResult)
    → IsWellFormed run
    → run.status ≡ running
    → append_turn run (turn_of run steps) ≡ ok (closed run steps)
append_turn-closed run steps w r =
    (append_turn_iff run (closed run steps) (turn_of run steps) w.valid).1 (r, refl, refl)

pub closed-Going :
    (limit n : ℕ) (run : AgentRun) (steps : List StepResult)
    → Going limit n run steps
    → Going limit n (closed run steps) []
closed-Going limit n run steps g = record {
  formed =
      Reaches-IsWellFormed
        (appended (turn_of run steps) here (append_turn-closed run steps g.formed g.going))
        g.formed;
  going = g.going;
  room = omega (arith, g.room, steps_of-append run.turns (turn_of run steps));
}

-- A move from a running run to its end.
pub transition-Ended :
    (limit n : ℕ) (run : AgentRun) (status : RunStatus) (reason : Option String)
    → Going limit n run []
    → allowed_transition running status ≡ true
    → is_terminal status ≡ true
    → ReasonFits status reason
    → (transition run status reason ≡ ok (record run { status = status; failure_reason = reason }))
      × Ended limit (record run { status = status; failure_reason = reason })
transition-Ended limit n run status reason g allowed final fits = (
  moves,
  record {
    formed = Reaches-IsWellFormed (transitioned status reason here moves) g.formed;
    final = final;
    few = omega (arith, g.room);
  },
)
  where
    moves :
        transition run status reason ≡ ok (record run { status = status; failure_reason = reason })
    moves =
        (transition_iff run (record run { status = status; failure_reason = reason }) status reason
            g.formed.valid).1
          (rw (g.going) allowed, fits, refl)

-- A failure of a run that goes on is never refused, and it ends the run.
pub fail_run-Ended :
    (limit n : ℕ) (run : AgentRun) (steps : List StepResult) (reason : String)
    → Going limit n run steps
    → has_text reason ≡ true
    → (r : AgentRun) × (fail_run run steps reason ≡ ok r) × (r.status ≡ failed) × Ended limit r
unfolding fail_run
fail_run-Ended limit n run [] reason g h =
    let e = transition-Ended limit n run failed (some reason) g refl refl (refl, h) in
    (_, e.0, refl, e.1)
fail_run-Ended limit n run (s ∷ ss) reason g h =
    let e =
      transition-Ended limit n (closed run (s ∷ ss)) failed (some reason)
        (closed-Going limit n run (s ∷ ss) g) refl refl (refl, h) in
    (ended run (s ∷ ss) failed (some reason), fails e.0, refl, e.1)
  where
    fails :
        transition (closed run (s ∷ ss)) failed (some reason)
          ≡ ok (ended run (s ∷ ss) failed (some reason))
        → fail_run run (s ∷ ss) reason ≡ ok (ended run (s ∷ ss) failed (some reason))
    fails e =
        rw
          (
            fail_run,
            new_turn_result-of (length run.turns) (s ∷ ss),
            append_turn-closed run (s ∷ ss) g.formed g.going,
          )
          e

module _ {W : Type 0} (agent : Agent W) (limits : RunLimits) where
  pub close_turn-closed :
      (s : Loop W)
      → IsWellFormed s.run
      → s.run.status ≡ running
      → close_turn agent limits s ≡ (gives tt, record s { run = closed s.run s.steps })
  unfolding close_turn
  close_turn-closed s w r =
      rw (new_turn_result-of (length s.run.turns) s.steps, append_turn-closed s.run s.steps w r)
        refl

  -- The end of a run that goes on is never refused.
  pub finish-Ended :
      (limit n : ℕ) (s : Loop W) (status : RunStatus) (reason : Option String)
      → Going limit n s.run s.steps
      → allowed_transition running status ≡ true
      → is_terminal status ≡ true
      → ReasonFits status reason
      → (finish agent limits status reason s ≡ (
        gives (some (ended s.run s.steps status reason)),
        record s { run = closed s.run s.steps },
      ))
        × Ended limit (ended s.run s.steps status reason)
  unfolding finish
  finish-Ended limit n s status reason g allowed final fits =
      let e =
        transition-Ended limit n (closed s.run s.steps) status reason
          (closed-Going limit n s.run s.steps g) allowed final fits in
      (rw (close_turn-closed s g.formed g.going, e.0) refl, e.1)
