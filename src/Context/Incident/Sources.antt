-- ===== src/Context/Incident/Sources.antt =====
-- The evidence that incident_guard/context/incident_state.py lets a fact or the hypothesis cite.
use incident_guard.Prelude.{
  String, ◌≡◌, refl, Bool, true, Option, none, some, List, [], ◌∷◌, ◌++◌, Dict, lookup, values,
  contains, ok, All, any_of, all_of, str_eq, arith,
}
use incident_guard.Json.{Fields}
use incident_guard.Context.Incident.{EvidenceReference, HypothesisState, evidence_ids_of}

abbrev pub has_id : String → EvidenceReference → Bool
has_id id reference = str_eq reference.evidence_id id

-- Each id is the id of one of the references.
abbrev pub cites : List EvidenceReference → List String → Bool
cites evidence ids = all_of (λ id. any_of (has_id id) evidence) ids

abbrev pub cited_by : Option HypothesisState → List String
cited_by none = []
cited_by (some hypothesis) = hypothesis.evidence_ids

-- Each reference stands under its own id.
abbrev pub IsKeyed : Dict EvidenceReference → Type 0
IsKeyed d = All (λ (entry : String × EvidenceReference). entry.1.evidence_id ≡ entry.0) d

any_of-more :
    (p : EvidenceReference → Bool) (xs : List EvidenceReference) (x : EvidenceReference)
    → any_of p xs ≡ true
    → any_of p (xs ++ x ∷ []) ≡ true
any_of-more p [] x h = cc
any_of-more p (y ∷ ys) x h = ground (arith, any_of-more p ys x)

pub cites-more :
    (evidence : List EvidenceReference) (reference : EvidenceReference) (ids : List String)
    → cites evidence ids ≡ true
    → cites (evidence ++ reference ∷ []) ids ≡ true
cites-more evidence reference [] h = refl
cites-more evidence reference (id ∷ ids) h =
    ground (arith, any_of-more (has_id id) evidence reference, cites-more evidence reference ids)

contains-any_of :
    (id : String) (d : Dict EvidenceReference)
    → IsKeyed d
    → contains id d ≡ true
    → any_of (has_id id) (values d) ≡ true
unfolding lookup
contains-any_of id [] keyed h = cc
contains-any_of id ((k, reference) ∷ d) keyed h =
    ground (arith, keyed.0, contains-any_of id d keyed.1)

contains-cites :
    (ids : List String) (d : Dict EvidenceReference)
    → IsKeyed d
    → all_of (λ id. contains id d) ids ≡ true
    → cites (values d) ids ≡ true
contains-cites [] d keyed h = refl
contains-cites (id ∷ ids) d keyed h =
    ground (arith, contains-any_of id d keyed, contains-cites ids d keyed)

pub evidence_ids_of-cites :
    (payload : Fields) (d : Dict EvidenceReference) (ids : List String)
    → IsKeyed d
    → evidence_ids_of payload d ≡ ok ids
    → cites (values d) ids ≡ true
unfolding evidence_ids_of
evidence_ids_of-cites payload d ids keyed h = ground (arith, contains-cites ids d keyed)
