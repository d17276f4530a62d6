-- ===== src/Context/Incident/Grounds.antt =====
-- The invariant of the local variables of `project` in incident_guard/context/incident_state.py.
use incident_guard.Prelude.{
  String, ◌≡◌, refl, ap, ◌∙◌, Bool, true, false, not, Option, none, some, List, [], ◌∷◌, ◌++◌, Dict,
  lookup, insert, insert-new, values, contains, All, All-append, All-insert,
}
use incident_guard.Context.Incident.{
  EvidenceReference, ConfirmedFact, ExecutedAction, ApprovalStatus, pending, approved, rejected,
  ApprovalState, UnfinishedItem, Known,
}
use incident_guard.Context.Incident.Handlers.{is_decided}
use incident_guard.Context.Incident.Sources.{cites, cited_by, IsKeyed, cites-more}

abbrev pub is_pending : ApprovalStatus → Bool
is_pending pending = true
is_pending approved = false
is_pending rejected = false

-- An approval has the event of its decision exactly when it is not pending.
abbrev pub IsConsistent : ApprovalState → Type 0
IsConsistent approval = is_decided approval ≡ not (is_pending approval.status)

pub record Grounded (k : Known) : Type 0 where
  pub keyed : IsKeyed k.evidence
  pub facts :
      All
        (λ (fact : ConfirmedFact). cites (values k.evidence) fact.evidence_ids ≡ true)
        (values k.facts)
  pub hypothesis : cites (values k.evidence) (cited_by k.hypothesis) ≡ true
  pub approvals : All IsConsistent (values k.approvals)

values-append_one :
    (d : Dict EvidenceReference) (id : String) (reference : EvidenceReference)
    → values (d ++ (id, reference) ∷ []) ≡ values d ++ reference ∷ []
values-append_one [] id reference = refl
values-append_one (entry ∷ d) id reference =
    ap (λ t. entry.1 ∷ t) (values-append_one d id reference)

facts-more :
    (evidence : List EvidenceReference) (reference : EvidenceReference) (facts : List ConfirmedFact)
    → All (λ (fact : ConfirmedFact). cites evidence fact.evidence_ids ≡ true) facts
    → All
        (λ (fact : ConfirmedFact). cites (evidence ++ reference ∷ []) fact.evidence_ids ≡ true)
        facts
facts-more evidence reference [] h = tt
facts-more evidence reference (fact ∷ facts) h =
    (cites-more evidence reference fact.evidence_ids h.0, facts-more evidence reference facts h.1)

contains-none :
    {A : Type 0} (key : String) (d : Dict A) → contains key d ≡ false → lookup key d ≡ none
contains-none {A} key d h = by_entry (lookup key d) h
  where
    by_entry :
        (found : Option A) → (elim found [ none ↦ false | some _ ↦ true ]) ≡ false → found ≡ none
    by_entry none e = refl
    by_entry (some v) e = cc

-- A new reference behind the others.
pub with_evidence-Grounded :
    (k : Known) (id : String) (reference : EvidenceReference)
    → reference.evidence_id ≡ id
    → contains id k.evidence ≡ false
    → Grounded k
    → Grounded (record k { evidence = insert id reference k.evidence })
with_evidence-Grounded k id reference e fresh g =
    let place = insert-new id reference k.evidence (contains-none id k.evidence fresh) in
    let listed = ap values place ∙ values-append_one k.evidence id reference in
    record {
      keyed = rw place (All-append _ k.evidence _ (e, tt) g.keyed);
      facts = rw listed (facts-more (values k.evidence) reference (values k.facts) g.facts);
      hypothesis =
          rw listed (cites-more (values k.evidence) reference (cited_by k.hypothesis) g.hypothesis);
      approvals = g.approvals;
    }

-- The handlers of actions and of work items leave what the predicate reads.
pub with_actions-Grounded :
    (k : Known) (actions : Dict ExecutedAction)
    → Grounded k
    → Grounded (record k { actions = actions })
with_actions-Grounded k actions g = record {
  keyed = g.keyed;
  facts = g.facts;
  hypothesis = g.hypothesis;
  approvals = g.approvals;
}

pub with_approval-Grounded :
    (k : Known) (request_id : String) (approval : ApprovalState)
    → IsConsistent approval
    → Grounded k
    → Grounded (record k { approvals = insert request_id approval k.approvals })
with_approval-Grounded k request_id approval c g = record {
  keyed = g.keyed;
  facts = g.facts;
  hypothesis = g.hypothesis;
  approvals = All-insert IsConsistent request_id approval k.approvals c g.approvals;
}

pub with_items-Grounded :
    (k : Known) (items : Dict UnfinishedItem)
    → Grounded k
    → Grounded (record k { unfinished = items })
with_items-Grounded k items g = record {
  keyed = g.keyed;
  facts = g.facts;
  hypothesis = g.hypothesis;
  approvals = g.approvals;
}
