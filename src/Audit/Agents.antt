-- ===== src/Audit/Agents.antt =====
-- The agents of an audit record against the turns of the trace.
use dogpile.Base.{
  ℕ, suc, ◌+◌, ◌≤◌, max, min, Bool, true, false, String, List, [], ◌∷◌, Js, str_eq, str_eq_iff,
  length, if◌then◌else◌, ◌≡◌, refl, sym, ◌∙◌, ap, arith, Bool-cases, inl, inr,
}
use dogpile.Data.Event.{TurnEvent}
use dogpile.Data.Trace.{Trace, events_of}
use dogpile.Audit.{
  AuditAgentRecord, create_audit_record, turns_of, count_turn, count_turns, sort_by, insert_by,
}

abbrev pub one_if : Bool → ℕ
one_if b = if b then 1 else 0

-- The turns that the records whose id passes a test count together.
abbrev pub counted : (String → Bool) → List AuditAgentRecord → ℕ
counted p [] = 0
counted p (a ∷ rs) = (if p a.id then a.turn_count else 0) + counted p rs

-- How many records there are for an id.
abbrev pub records : String → List AuditAgentRecord → ℕ
records id [] = 0
records id (a ∷ rs) = one_if (str_eq a.id id) + records id rs

counted-insert_by :
    (p : String → Bool) (le : String → String → Bool) (a : AuditAgentRecord)
    (rs : List AuditAgentRecord)
    → counted p (insert_by le a rs) ≡ counted p (a ∷ rs)
unfolding insert_by
counted-insert_by p le a [] = refl
counted-insert_by p le a (b ∷ bs) = elim (Bool-cases (le a.id b.id)) [
  | inl e ↦ rw e refl
  | inr e ↦ rw e (omega (arith, counted-insert_by p le a bs))
]

counted-sort_by :
    (p : String → Bool) (le : String → String → Bool) (rs : List AuditAgentRecord)
    → counted p (sort_by le rs) ≡ counted p rs
unfolding sort_by
counted-sort_by p le [] = refl
counted-sort_by p le (a ∷ rs) =
    omega (arith, counted-insert_by p le a (sort_by le rs), counted-sort_by p le rs)

records-insert_by :
    (id : String) (le : String → String → Bool) (a : AuditAgentRecord) (rs : List AuditAgentRecord)
    → records id (insert_by le a rs) ≡ records id (a ∷ rs)
unfolding insert_by
records-insert_by id le a [] = refl
records-insert_by id le a (b ∷ bs) = elim (Bool-cases (le a.id b.id)) [
  | inl e ↦ rw e refl
  | inr e ↦ rw e (omega (arith, records-insert_by id le a bs))
]

records-sort_by :
    (id : String) (le : String → String → Bool) (rs : List AuditAgentRecord)
    → records id (sort_by le rs) ≡ records id rs
unfolding sort_by
records-sort_by id le [] = refl
records-sort_by id le (a ∷ rs) =
    omega (arith, records-insert_by id le a (sort_by le rs), records-sort_by id le rs)

length-insert_by :
    (le : String → String → Bool) (a : AuditAgentRecord) (rs : List AuditAgentRecord)
    → length (insert_by le a rs) ≡ suc (length rs)
unfolding insert_by
length-insert_by le a [] = refl
length-insert_by le a (b ∷ bs) = elim (Bool-cases (le a.id b.id)) [
  | inl e ↦ rw e refl
  | inr e ↦ rw e (omega (arith, length-insert_by le a bs))
]

length-sort_by :
    (le : String → String → Bool) (rs : List AuditAgentRecord) → length (sort_by le rs) ≡ length rs
unfolding sort_by
length-sort_by le [] = refl
length-sort_by le (a ∷ rs) =
    omega (arith, length-insert_by le a (sort_by le rs), length-sort_by le rs)

counts_more :
    (b c : Bool) (n m : ℕ)
    → b ≡ c
    → (if b then suc n else 0) + m ≡ one_if c + ((if b then n else 0) + m)
counts_more true c n m e = rw (sym e) (omega arith)
counts_more false c n m e = rw (sym e) (omega arith)

one_if-le : (b : Bool) → one_if b ≤ 1
one_if-le true = omega arith
one_if-le false = omega arith

at_most_once : (b c : Bool) (n : ℕ) → b ≡ c → one_if b + n ≡ max (one_if b + n) (one_if c)
at_most_once true c n e = rw (sym e) (omega arith)
at_most_once false c n e = rw (sym e) (omega arith)

false_ne_true : false ≡ true → ⊥
false_ne_true h = cc

-- A record of another agent than that of the turn.
other_record :
    (a t : Bool) (n m : ℕ)
    → (a ≡ true → t ≡ true → ⊥)
    → m ≡ max n (one_if t)
    → one_if a + m ≡ max (one_if a + n) (one_if t)
other_record true true n m x h = absurd (x refl refl)
other_record true false n m x h = omega (arith, h)
other_record false t n m x h = omega (arith, h)

module _ {F : Type 0} where
  -- The turns by agents whose id passes a test.
  abbrev pub turns_by : (String → Bool) → List (TurnEvent F) → ℕ
  turns_by p [] = 0
  turns_by p (t ∷ ts) = one_if (p t.agent_id) + turns_by p ts

  counted-count_turn :
      (p : String → Bool) (t : TurnEvent F) (rs : List AuditAgentRecord)
      → counted p (count_turn t rs) ≡ one_if (p t.agent_id) + counted p rs
  unfolding count_turn
  counted-count_turn p t [] = refl
  counted-count_turn p t (a ∷ rs) = elim (Bool-cases (str_eq a.id t.agent_id)) [
    | inl e ↦ rw e (
        counts_more (p a.id) (p t.agent_id) a.turn_count (counted p rs)
          (ap p ((str_eq_iff a.id t.agent_id).0 e)))
    | inr e ↦ rw e (omega (arith, counted-count_turn p t rs))
  ]

  counted-count_turns :
      (p : String → Bool) (ts : List (TurnEvent F)) (rs : List AuditAgentRecord)
      → counted p (count_turns ts rs) ≡ turns_by p ts + counted p rs
  unfolding count_turns
  counted-count_turns p [] rs = omega arith
  counted-count_turns p (t ∷ ts) rs =
      omega (arith, counted-count_turns p ts (count_turn t rs), counted-count_turn p t rs)

  records-count_turn :
      (id : String) (t : TurnEvent F) (rs : List AuditAgentRecord)
      → records id (count_turn t rs) ≡ max (records id rs) (one_if (str_eq t.agent_id id))
  unfolding count_turn
  records-count_turn id t [] = omega arith
  records-count_turn id t (a ∷ rs) = elim (Bool-cases (str_eq a.id t.agent_id)) [
    | inl e ↦ rw e (
        at_most_once (str_eq a.id id) (str_eq t.agent_id id) (records id rs)
          (ap (λ x. str_eq x id) ((str_eq_iff a.id t.agent_id).0 e)))
    | inr e ↦ rw e (
        other_record (str_eq a.id id) (str_eq t.agent_id id) (records id rs) _
          (λ p q. absurd (
            false_ne_true (
              sym e
              ∙ (str_eq_iff a.id t.agent_id).1
                  ((str_eq_iff a.id id).0 p ∙ sym ((str_eq_iff t.agent_id id).0 q)))))
          (records-count_turn id t rs))
  ]

  records-count_turns :
      (id : String) (ts : List (TurnEvent F)) (rs : List AuditAgentRecord)
      → records id (count_turns ts rs)
        ≡ max (records id rs) (min 1 (turns_by (λ a. str_eq a id) ts))
  unfolding count_turns
  records-count_turns id [] rs = omega arith
  records-count_turns id (t ∷ ts) rs = omega (
    arith,
    records-count_turns id ts (count_turn t rs),
    records-count_turn id t rs,
    one_if-le (str_eq t.agent_id id),
  )

  length-turns_by : (ts : List (TurnEvent F)) → length ts ≡ turns_by (λ a. true) ts
  length-turns_by [] = refl
  length-turns_by (t ∷ ts) = omega (arith, length-turns_by ts)

module _ {F : Type 0} ⦃js : Js F⦄ where
  -- The turns of a trace.
  abbrev pub trace_turns : Trace F → List (TurnEvent F)
  trace_turns t = turns_of (events_of t)

  -- The agents of an audit record have the turns of the trace: for every set of ids, the counts of the
  -- records with these ids add up to the turns by these agents; an id has one record if it has a turn
  -- and none otherwise; and the totals are the number of turns and of records.
  pub create_audit_record-agents :
      (t : Trace F) (among : String → Bool) (id : String)
      → let r = create_audit_record t in
        (counted among r.agents ≡ turns_by among (trace_turns t))
        × (records id r.agents ≡ min 1 (turns_by (λ a. str_eq a id) (trace_turns t)))
        × (r.turn_count ≡ counted (λ a. true) r.agents)
        × (r.agent_count ≡ length r.agents)
  unfolding create_audit_record
  create_audit_record-agents t among id =
      let ts = trace_turns t in
      let map_of = count_turns ts [] in
      (
        omega (arith, counted-sort_by among js.locale_le map_of, counted-count_turns among ts []),
        omega (arith, records-sort_by id js.locale_le map_of, records-count_turns id ts []),
        omega (
          arith,
          counted-sort_by (λ a. true) js.locale_le map_of,
          counted-count_turns (λ a. true) ts [],
          length-turns_by ts,
        ),
        sym (length-sort_by js.locale_le map_of),
      )
