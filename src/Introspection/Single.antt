-- ===== src/Introspection/Single.antt =====
-- The chained filters against one pass over the events that counts the turns.
use dogpile.Base.{
  ℕ, suc, ◌≤◌, ◌<◌, Bool, true, false, ◌&&◌, ◌||◌, Option, none, some, List, [], ◌∷◌, map, filter,
  Js, ◌==◌, if◌then◌else◌, ◌≡◌, refl, ◌∙◌, sym, ap, ap₂, arith, Bool-cases, inl, inr,
}
use dogpile.Data.Trace.{RunEvent, type_of}
use dogpile.Introspection.{
  Range, EventQueryFilter, same_type, by_agent, is_turn, numbered, refine, has, in_range,
  within_cost, turns_in_range, refine_turns, query_events,
}

-- A test that holds where nothing is asked for.
abbrev pub asks : {A X : Type 0} → Option X → (X → A → Bool) → A → Bool
asks none p a = true
asks (some x) p a = p x a

-- A filter by two tests is two filters.
filter-filter :
    {A : Type 0} (p q : A → Bool) (xs : List A)
    → filter p (filter q xs) ≡ filter (λ a. q a && p a) xs
filter-filter p q [] = refl
filter-filter p q (x ∷ xs) = elim (Bool-cases (q x)) [
  | inl e ↦ elim (Bool-cases (p x)) [
    | inl f ↦ rw (e, f) (ap (λ ys. x ∷ ys) (filter-filter p q xs))
    | inr f ↦ rw (e, f) (filter-filter p q xs)
  ]
  | inr e ↦ rw e (filter-filter p q xs)
]

filter-true : {A : Type 0} (xs : List A) → filter (λ a. true) xs ≡ xs
filter-true [] = refl
filter-true (x ∷ xs) = ap (λ ys. x ∷ ys) (filter-true xs)

refine-filter :
    {A X : Type 0} (o : Option X) (p : X → A → Bool) (xs : List A)
    → refine o p xs ≡ filter (asks o p) xs
unfolding refine
refine-filter none p xs = sym (filter-true xs)
refine-filter (some x) p xs = refl

-- The same for a test of the event of a pair.
refine-filter_event :
    {A X : Type 0} (o : Option X) (p : X → A → Bool) (xs : List (ℕ × A))
    → refine o (λ t x. p t x.1) xs ≡ filter (λ x. asks o p x.1) xs
unfolding refine
refine-filter_event none p xs = sym (filter-true xs)
refine-filter_event (some x) p xs = refl

module _ {F : Type 0} where
  -- The number of turns up to and with an event.
  abbrev pub count_turn : ℕ → RunEvent F → ℕ
  count_turn turns e = if is_turn e then suc turns else turns

  -- One pass, whose test sees the number of turns up to and with the event.
  pub one_pass : (ℕ → RunEvent F → Bool) → ℕ → List (RunEvent F) → List (RunEvent F)
  one_pass keep turns [] = []
  one_pass keep turns (e ∷ es) =
      let rest = one_pass keep (count_turn turns e) es in
      if keep (count_turn turns e) e then e ∷ rest else rest

  -- A test by index and a test by the number of turns agree on the events.
  Agree : (ℕ × RunEvent F → Bool) → (ℕ → RunEvent F → Bool) → ℕ → ℕ → List (RunEvent F) → Type 0
  Agree by_index keep turns i [] = Unit
  Agree by_index keep turns i (e ∷ es) =
      (by_index (i, e) ≡ keep (count_turn turns e) e)
      × Agree by_index keep (count_turn turns e) (suc i) es

  agreeing :
      (by_index : ℕ × RunEvent F → Bool) (keep : ℕ → RunEvent F → Bool) (turns i : ℕ)
      (es : List (RunEvent F))
      → Agree by_index keep turns i es
      → map (λ x. x.1) (filter by_index (numbered i es)) ≡ one_pass keep turns es
  unfolding Agree one_pass numbered
  agreeing by_index keep turns i [] a = refl
  agreeing by_index keep turns i (e ∷ es) (h, a) =
      let rest = agreeing by_index keep (count_turn turns e) (suc i) es a in
      elim (Bool-cases (keep (count_turn turns e) e)) [
        | inl t ↦ rw (h ∙ t, t) (ap (λ ys. e ∷ ys) rest)
        | inr t ↦ rw (h ∙ t, t) rest
      ]

  Agree-and :
      (p q : RunEvent F → Bool) (by_index : ℕ × RunEvent F → Bool) (keep : ℕ → RunEvent F → Bool)
      (turns i : ℕ) (es : List (RunEvent F))
      → Agree by_index keep turns i es
      → Agree (λ x. (p x.1 && by_index x) && q x.1) (λ n e. (p e && keep n e) && q e) turns i es
  unfolding Agree
  Agree-and p q by_index keep turns i [] a = tt
  Agree-and p q by_index keep turns i (e ∷ es) (h, a) =
      (ap (λ b. (p e && b) && q e) h, Agree-and p q by_index keep (count_turn turns e) (suc i) es a)

  Agree-true : (turns i : ℕ) (es : List (RunEvent F)) → Agree (λ x. true) (λ n e. true) turns i es
  unfolding Agree
  Agree-true turns i [] = tt
  Agree-true turns i (e ∷ es) = (refl, Agree-true (count_turn turns e) (suc i) es)

differ : (j i : ℕ) → j < i → (j == i) ≡ false
differ j i h = ground arith

differ_after : (j i : ℕ) → suc i ≤ j → (j == i) ≡ false
differ_after j i h = ground arith

same : (i : ℕ) → (i == i) ≡ true
same i = ground arith

module _ {F : Type 0} ⦃js : Js F⦄ where
  abbrev ids : Range F → ℕ → ℕ → List (RunEvent F) → List ℕ
  unfolding turns_in_range numbered
  ids r turns i es = turns_in_range r turns (filter (λ y. is_turn y.1) (numbered i es))

  ids_turn :
      (r : Range F) (turns i : ℕ) (e : RunEvent F) (es : List (RunEvent F))
      → is_turn e ≡ true
      → ids r turns i (e ∷ es) ≡ (
          if in_range r (js.of_nat (suc turns))
          then i ∷ ids r (suc turns) (suc i) es
          else ids r (suc turns) (suc i) es)
  unfolding numbered turns_in_range
  ids_turn r turns i e es t = rw t refl

  ids_in :
      (r : Range F) (turns i : ℕ) (e : RunEvent F) (es : List (RunEvent F))
      → is_turn e ≡ true
      → in_range r (js.of_nat (suc turns)) ≡ true
      → ids r turns i (e ∷ es) ≡ i ∷ ids r (suc turns) (suc i) es
  ids_in r turns i e es t k = rw (ids_turn r turns i e es t, k) refl

  ids_out :
      (r : Range F) (turns i : ℕ) (e : RunEvent F) (es : List (RunEvent F))
      → is_turn e ≡ true
      → in_range r (js.of_nat (suc turns)) ≡ false
      → ids r turns i (e ∷ es) ≡ ids r (suc turns) (suc i) es
  ids_out r turns i e es t k = rw (ids_turn r turns i e es t, k) refl

  ids_other :
      (r : Range F) (turns i : ℕ) (e : RunEvent F) (es : List (RunEvent F))
      → is_turn e ≡ false
      → ids r turns i (e ∷ es) ≡ ids r turns (suc i) es
  unfolding numbered ids
  ids_other r turns i e es t = rw t refl

  -- The indices of later events are larger.
  fresh :
      (r : Range F) (turns i j : ℕ) (es : List (RunEvent F))
      → j < i
      → has j (ids r turns i es) ≡ false
  unfolding has numbered turns_in_range
  fresh r turns i j [] h = refl
  fresh r turns i j (e ∷ es) h = elim (Bool-cases (is_turn e)) [
    | inl t ↦ elim (Bool-cases (in_range r (js.of_nat (suc turns)))) [
      | inl k ↦
          rw (ids_turn r turns i e es t, k)
            (ap₂ ◌||◌ (differ j i h) (fresh r (suc turns) (suc i) j es (omega (arith, h))))
      | inr k ↦
          rw (ids_turn r turns i e es t, k) (fresh r (suc turns) (suc i) j es (omega (arith, h)))
    ]
    | inr t ↦ rw (ids_other r turns i e es t) (fresh r turns (suc i) j es (omega (arith, h)))
  ]

  -- The test of the set of turns in range, for any test `h` that agrees with the set on the indices
  -- from `i` on.
  Agree-turns :
      (r : Range F) (h : ℕ → Bool) (turns i : ℕ) (es : List (RunEvent F))
      → ((j : ℕ) → i ≤ j → h j ≡ has j (ids r turns i es))
      → Agree (λ x. is_turn x.1 && h x.0) (λ n e. is_turn e && in_range r (js.of_nat n)) turns i es
  unfolding Agree has
  Agree-turns r h turns i [] a = tt
  Agree-turns r h turns i (e ∷ es) a = elim (Bool-cases (is_turn e)) [
    | inl t ↦ elim (Bool-cases (in_range r (js.of_nat (suc turns)))) [
      | inl k ↦
          let later = ids r (suc turns) (suc i) es in
          rw t (
            a i (omega arith)
                ∙ ap (has i) (ids_in r turns i e es t k)
                ∙ ap (λ b. b || has i later) (same i)
                ∙ sym k,
            Agree-turns r h (suc turns) (suc i) es (λ j p.
                a j (omega (arith, p))
                ∙ ap (has j) (ids_in r turns i e es t k)
                ∙ ap (λ b. b || has j later) (differ_after j i p)),
          )
      | inr k ↦ rw t (
        a i (omega arith)
            ∙ ap (has i) (ids_out r turns i e es t k)
            ∙ fresh r (suc turns) (suc i) i es (omega arith)
            ∙ sym k,
        Agree-turns r h (suc turns) (suc i) es
            (λ j p. a j (omega (arith, p)) ∙ ap (has j) (ids_out r turns i e es t k)),
      )
    ]
    | inr t ↦ rw t (
      refl,
      Agree-turns r h turns (suc i) es
          (λ j p. a j (omega (arith, p)) ∙ ap (has j) (ids_other r turns i e es t)),
    )
  ]

  -- All parts of the filter, asked of an event and the number of turns up to and with it.
  abbrev pub turn_matches : Option (Range F) → ℕ → RunEvent F → Bool
  turn_matches none n e = true
  turn_matches (some r) n e = is_turn e && in_range r (js.of_nat n)

  abbrev pub matches : EventQueryFilter F → ℕ → RunEvent F → Bool
  matches f n e =
      ((asks f.event_type (λ t x. same_type (type_of x) t) e && asks f.agent_id by_agent e)
        && turn_matches f.turn_range n e)
      && asks f.cost_range within_cost e

  Agree-range :
      (o : Option (Range F)) (es : List (RunEvent F))
      → Agree (asks o (refine_turns (numbered 0 es))) (turn_matches o) 0 0 es
  unfolding refine_turns numbered ids
  Agree-range none es = Agree-true 0 0 es
  Agree-range (some r) es = Agree-turns r (λ j. has j (ids r 0 0 es)) 0 0 es (λ j p. refl)

  -- The four filters, the third of which numbers the turns of the whole array, give what one pass
  -- gives that counts the turns and keeps the events that match all parts that are given.
  pub query_events-one_pass :
      (events : List (RunEvent F)) (f : EventQueryFilter F)
      → query_events events f ≡ one_pass (matches f) 0 events
  unfolding query_events
  query_events-one_pass events f =
      let all = numbered 0 events in
      let typed = refine-filter_event f.event_type (λ t e. same_type (type_of e) t) all in
      ap (map (λ x. x.1)) (
        refine-filter_event f.cost_range within_cost _
        ∙ ap (filter (λ x. asks f.cost_range within_cost x.1)) (
            refine-filter f.turn_range (refine_turns all) _
            ∙ ap (filter (asks f.turn_range (refine_turns all))) (
                refine-filter_event f.agent_id by_agent _
                ∙ ap (filter (λ x. asks f.agent_id by_agent x.1)) typed
                ∙ filter-filter _ _ all)
            ∙ filter-filter _ _ all)
        ∙ filter-filter _ _ all)
      ∙ agreeing _ (matches f) 0 0 events (
          Agree-and _ (asks f.cost_range within_cost) _ (turn_matches f.turn_range) 0 0 events
            (Agree-range f.turn_range events))
