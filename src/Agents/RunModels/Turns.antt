-- ===== src/Agents/RunModels/Turns.antt =====
-- What a run keeps while operations of incident_guard/agents/run_models.py act on it.
use incident_guard.Prelude.{
  ℕ, suc, ◌+◌, String, ◌≡◌, refl, sym, ap, ◌∙◌, ◌↔◌, Option, none, some, List, [], ◌∷◌, ◌++◌, ok,
  arith, length,
}
use incident_guard.Agents.RunModels.{
  RunStatus, running, AgentRun, TurnResult, transition, append_turn,
}
use incident_guard.Agents.RunModels.Transitions.{
  IsValid, ReasonFits, transition_iff, transition-IsValid,
}

-- The turns are numbered from `n` on.
abbrev pub NumberedFrom : ℕ → List TurnResult → Type 0
NumberedFrom n [] = Unit
NumberedFrom n (t ∷ ts) = (t.turn_number ≡ n) × NumberedFrom (suc n) ts

append_turn-from :
    (run run' : AgentRun) (turn : TurnResult)
    → append_turn run turn ≡ ok run'
    → (run.status ≡ running)
      × (turn.turn_number ≡ length run.turns + 1)
      × (run' ≡ record run { turns = run.turns ++ turn ∷ [] })
unfolding append_turn
append_turn-from run run' turn h = ground arith

ReasonFits-running :
    (status : RunStatus) (reason : Option String)
    → ReasonFits status reason
    → status ≡ running
    → reason ≡ none
ReasonFits-running status none h e = refl
ReasonFits-running status (some r) h e = ground arith

append_turn-to :
    (run : AgentRun) (turn : TurnResult)
    → IsValid run
    → run.status ≡ running
    → turn.turn_number ≡ length run.turns + 1
    → append_turn run turn ≡ ok (record run { turns = run.turns ++ turn ∷ [] })
unfolding append_turn
append_turn-to run turn v s n =
    ground (arith, ReasonFits-running run.status run.failure_reason v.reason s)

-- On a valid run `append_turn` succeeds exactly when the run is running and the turn has the next
-- number; the result has the turn at its end, and all else as before.
pub append_turn_iff :
    (run run' : AgentRun) (turn : TurnResult)
    → IsValid run
    → (append_turn run turn ≡ ok run') ↔ (
        (run.status ≡ running)
        × (turn.turn_number ≡ length run.turns + 1)
        × (run' ≡ record run { turns = run.turns ++ turn ∷ [] }))
append_turn_iff run run' turn v =
    (append_turn-from run run' turn, λ h. append_turn-to run turn v h.0 h.1 ∙ ap ok (sym h.2))

-- The operations of a run, and what any sequence of them reaches.
pub data Reaches (run : AgentRun) : AgentRun → Type 0 where
  here : Reaches run run
  transitioned :
      {mid end : AgentRun} (target : RunStatus) (reason : Option String)
      → Reaches run mid
      → transition mid target reason ≡ ok end
      → Reaches run end
  appended :
      {mid end : AgentRun} (turn : TurnResult)
      → Reaches run mid
      → append_turn mid turn ≡ ok end
      → Reaches run end

NumberedFrom-append :
    (n : ℕ) (ts : List TurnResult) (t : TurnResult)
    → NumberedFrom n ts
    → t.turn_number ≡ length ts + n
    → NumberedFrom n (ts ++ t ∷ [])
NumberedFrom-append n [] t h e = (omega arith, tt)
NumberedFrom-append n (u ∷ ts) t h e = (h.0, NumberedFrom-append (suc n) ts t h.1 (omega arith))

pub record IsWellFormed (run : AgentRun) : Type 0 where
  pub valid : IsValid run
  pub numbered : NumberedFrom 1 run.turns

-- Every sequence of operations on a well-formed run leaves it well formed: its reason fits its status,
-- and its turns are numbered 1, 2, 3 and so on.
pub Reaches-IsWellFormed :
    {run end : AgentRun} → Reaches run end → IsWellFormed run → IsWellFormed end
Reaches-IsWellFormed here w = w
Reaches-IsWellFormed (transitioned {mid = mid} {end = end} target reason r e) w =
    let m = Reaches-IsWellFormed r w in
    let facts = (transition_iff mid end target reason m.valid).0 e in
    record {
      valid = transition-IsValid mid end target reason m.valid e;
      numbered = rw (facts.2) m.numbered;
    }
Reaches-IsWellFormed (appended {mid = mid} {end = end} turn r e) w =
    let m = Reaches-IsWellFormed r w in
    let facts = append_turn-from mid end turn e in
    rw (facts.2) (record {
      valid = record { named = m.valid.named; reason = m.valid.reason };
      numbered = NumberedFrom-append 1 mid.turns turn m.numbered (omega arith);
    })
