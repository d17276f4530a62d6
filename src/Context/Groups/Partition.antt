-- ===== src/Context/Groups/Partition.antt =====
-- The groups of incident_guard/context/context_engine.py take the messages apart.
use incident_guard.Prelude.{
  ℕ, suc, ◌≡◌, refl, sym, ap, ◌∙◌, subst, ◌>>=◌, if◌then◌else◌, String, Bool, true, false, Option,
  none, some, List, [], ◌∷◌, ◌++◌, Result, ok, err, arith, append_assoc, append-nil, >>=-eq-ok,
  ok-injective,
}
use incident_guard.Json.{Fields, Items, get}
use incident_guard.Context.Groups.{
  MessageGroup, OpenGroup, Grouped, after_closing, start_assistant, start_group, restart,
  extend_group, group_message, group_from, group_messages, expected_call, has_string, calls_of,
}

-- The indexes of the groups, one after the other.
abbrev pub indexes_of : List MessageGroup → List ℕ
indexes_of [] = []
indexes_of (g ∷ gs) = g.indexes ++ indexes_of gs

abbrev pub members_of : Option OpenGroup → List ℕ
members_of none = []
members_of (some g) = g.members

-- `range(index, index + n)`
abbrev pub count_up {ℓ} : {A : Type ℓ} → ℕ → List A → List ℕ
count_up index [] = []
count_up index (x ∷ xs) = index ∷ count_up (suc index) xs

indexes_of-append :
    (gs hs : List MessageGroup) → indexes_of (gs ++ hs) ≡ indexes_of gs ++ indexes_of hs
indexes_of-append [] hs = refl
indexes_of-append (g ∷ gs) hs =
    ap (λ (t : List ℕ). g.indexes ++ t) (indexes_of-append gs hs)
    ∙ sym (append_assoc g.indexes (indexes_of gs) (indexes_of hs))

-- What a message adds to the groups it ends and the one that it leaves open.
abbrev pub Takes : Option OpenGroup → ℕ → Grouped → Type 0
Takes opened index grouped =
    indexes_of grouped.0 ++ members_of grouped.1 ≡ members_of opened ++ index ∷ []

start_assistant-Takes :
    (calls : Option Items) (index : ℕ) → Takes none index (start_assistant calls index)
start_assistant-Takes none index = refl
start_assistant-Takes (some calls) index = refl

start_group-Takes :
    (index : ℕ) (m : Fields) (grouped : Grouped)
    → start_group index m ≡ ok grouped
    → Takes none index grouped
unfolding start_group
start_group-Takes index m grouped h = grind (
  arith,
  start_assistant-Takes (calls_of (get m "tool_calls")) index,
  start_assistant-Takes none index,
)

after_closing-Takes :
    (g : OpenGroup) (index : ℕ) (grouped : Grouped)
    → Takes none index grouped
    → Takes (some g) index (after_closing (some g) grouped)
after_closing-Takes g index grouped h =
    append_assoc g.members (indexes_of grouped.0) (members_of grouped.1)
    ∙ ap (λ (t : List ℕ). g.members ++ t) h

restart-Takes :
    (g : OpenGroup) (index : ℕ) (started : Result Grouped) (grouped : Grouped)
    → ((first : Grouped) → started ≡ ok first → Takes none index first)
    → restart g started ≡ ok grouped
    → Takes (some g) index grouped
restart-Takes g index (err e) grouped k h = cc
restart-Takes g index (ok first) grouped k h =
    subst (Takes (some g) index) (ok-injective h) (after_closing-Takes g index first (k first refl))

extend_group-Takes :
    (g : OpenGroup) (found : Option String) (index : ℕ) (m : Fields) (grouped : Grouped)
    → extend_group g found index m ≡ ok grouped
    → Takes (some g) index grouped
extend_group-Takes g none index m grouped h =
    restart-Takes g index (start_group index m) grouped (start_group-Takes index m) h
extend_group-Takes g (some call_id) index m grouped h = ground arith

group_message-Takes :
    (opened : Option OpenGroup) (index : ℕ) (m : Fields) (grouped : Grouped)
    → group_message opened index m ≡ ok grouped
    → Takes opened index grouped
unfolding group_message
group_message-Takes none index m grouped h = start_group-Takes index m grouped h
group_message-Takes (some g) index m grouped h =
    read (has_string m "role" "tool") (expected_call g.expected (get m "tool_call_id")) h
  where
    read :
        (tool : Bool) (found : Result (Option String))
        → (if tool
            then (found >>= λ (call : Option String). extend_group g call index m)
            else restart g (start_group index m))
          ≡ ok grouped
        → Takes (some g) index grouped
    read false found e =
        restart-Takes g index (start_group index m) grouped (start_group-Takes index m) e
    read true (err x) e = cc
    read true (ok found) e = extend_group-Takes g found index m grouped e

group_from-Takes :
    (opened : Option OpenGroup) (index : ℕ) (messages : List Fields) (groups : List MessageGroup)
    → group_from opened index messages ≡ ok groups
    → indexes_of groups ≡ members_of opened ++ count_up index messages
unfolding group_from
group_from-Takes none index [] groups h = rw (← ok-injective h) refl
group_from-Takes (some g) index [] groups h =
    rw (← ok-injective h) (append-nil (g.members) ∙ sym (append-nil (g.members)))
group_from-Takes opened index (m ∷ ms) groups h =
    let first = >>=-eq-ok (group_message opened index m) _ h in
    let rest = >>=-eq-ok (group_from first.0.1 (suc index) ms) _ first.2 in
    joined first.0 rest.0 (group_message-Takes opened index m first.0 first.1)
      (group_from-Takes first.0.1 (suc index) ms rest.0 rest.1) rest.2
  where
    joined :
        (grouped : Grouped) (gs : List MessageGroup)
        → Takes opened index grouped
        → indexes_of gs ≡ members_of grouped.1 ++ count_up (suc index) ms
        → ok (grouped.0 ++ gs) ≡ ok groups
        → indexes_of groups ≡ members_of opened ++ index ∷ count_up (suc index) ms
    joined grouped gs t r e =
        sym (ap indexes_of (ok-injective e))
        ∙ indexes_of-append grouped.0 gs
        ∙ ap (λ (l : List ℕ). indexes_of grouped.0 ++ l) r
        ∙ sym (append_assoc (indexes_of grouped.0) (members_of grouped.1) (count_up (suc index) ms))
        ∙ ap (λ (l : List ℕ). l ++ count_up (suc index) ms) t
        ∙ append_assoc (members_of opened) (index ∷ []) (count_up (suc index) ms)

-- `group_messages` takes the messages apart: the indexes of the groups, one group after the other, are
-- those of the messages in their order, each once.
pub group_messages-partition :
    (messages : List Fields) (groups : List MessageGroup)
    → group_messages messages ≡ ok groups
    → indexes_of groups ≡ count_up 0 messages
unfolding group_messages
group_messages-partition messages groups h = group_from-Takes none 0 messages groups h
