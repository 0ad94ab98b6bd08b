-- ===== src/Sequential/Integrity.antt =====
-- The trace of a sequential run passes the integrity check of its accounting: `runSequential` of
-- src/runtime/sequential.ts against `recomputeAccountingFromTrace` of src/runtime/defaults.ts.
use mathlib.Core.List.{reverse-append}
use dogpile.Base.{
  true, false, some, get_or, String, List, [], ◌∷◌, ◌++◌, All, Js, ◌≡◌, refl, ◌∙◌, ap, ap₂, arith,
}
use dogpile.Base.Result.{Result, ok, err}
use dogpile.Data.Cost.{CostSummary, empty_cost}
use dogpile.Data.Model.{RunHealthSummary}
use dogpile.Data.Trace.{
  RunEvent, RunResult, of_list, to_list, trace_of, result_fields, sub_run_completed, sub_run_failed,
}
use dogpile.Accounting.{
  last_of, first_bearing, bearing, last_cost_bearing_event_cost, accumulate_from,
  accumulate_sub_run_cost, create_run_accounting,
}
use dogpile.Accounting.Recompute.{recompute_accounting_from_trace, build_local_accounting}
use dogpile.Accounting.Recompute.Compared.{float_epsilon}
use dogpile.Accounting.Recompute.Consistent.{
  CostsAgree, IsLastCost, RollupAgrees, IsCovered, IsConsistent, AreConsistent,
}
use dogpile.Accounting.Recompute.Sound.{local_of, recompute_accounting_from_trace_iff}
use dogpile.Replay.{create_replay_trace_final_output, create_replay_trace_budget}
use dogpile.Sequential.{
  SequentialRunOptions, SequentialState, before_roles, before_final, emit_decided, initial_state,
  active_agents, final_output,
}
use dogpile.Sequential.Local.{IsLocal, All-append, assign_roles-IsLocal, StateLocal, run_turns-Ends}
use dogpile.Sequential.Steps.{Ends, proceed, anything, returned_value}
use dogpile.Sequential.Run.{
  final_event, with_final, trace_of_state, result_of_state, finish, run_sequential,
}

pub last_of-snoc : {A : Type 0} (xs : List A) (x : A) → last_of (xs ++ x ∷ []) ≡ some x
last_of-snoc [] x = refl
last_of-snoc (y ∷ []) x = refl
last_of-snoc (y ∷ (z ∷ xs)) x = last_of-snoc (z ∷ xs) x

module _ {F : Type 0} where
  pub to_list-of_list : (es : List (RunEvent F)) → to_list (of_list es) ≡ es
  to_list-of_list [] = refl
  to_list-of_list (e ∷ es) = ap (λ r. e ∷ r) (to_list-of_list es)

module _ {F : Type 0} ⦃js : Js F⦄ where
  -- An amount that agrees with itself and is not below zero by more than the tolerance, as every
  -- finite amount from zero up is.
  unfoldable pub IsAmount : F → Type 0
  IsAmount x =
      (js.lt (js.abs (js.sub x x)) float_epsilon ≡ true)
      × (js.lt float_epsilon (js.sub (js.of_nat 0) x) ≡ false)

  rollups_of_local : (es : List (RunEvent F)) → All IsLocal es → All RollupAgrees es
  unfolding IsLocal RollupAgrees
  rollups_of_local [] h = tt
  rollups_of_local (sub_run_completed ids r ∷ es) (h, hs) = elim h [ ]
  rollups_of_local (sub_run_failed ids e t c ∷ es) (h, hs) = elim h [ ]
  rollups_of_local (e ∷ es) (h, hs) = (tt, rollups_of_local es hs)

  accumulate_from-IsLocal :
      (total : CostSummary F) (es : List (RunEvent F))
      → All IsLocal es
      → accumulate_from total es ≡ total
  unfolding accumulate_from IsLocal
  accumulate_from-IsLocal total [] h = refl
  accumulate_from-IsLocal total (sub_run_completed ids r ∷ es) (h, hs) = elim h [ ]
  accumulate_from-IsLocal total (sub_run_failed ids e t c ∷ es) (h, hs) = elim h [ ]
  accumulate_from-IsLocal total (e ∷ es) (h, hs) = accumulate_from-IsLocal total es hs

  children_of_local : (es : List (RunEvent F)) → All IsLocal es → AreConsistent (of_list es)
  unfolding AreConsistent IsLocal
  children_of_local [] h = tt
  children_of_local (sub_run_completed ids r ∷ es) (h, hs) = elim h [ ]
  children_of_local (sub_run_failed ids e t c ∷ es) (h, hs) = elim h [ ]
  children_of_local (e ∷ es) (h, hs) = (tt, children_of_local es hs)

  last_cost_snoc :
      (es : List (RunEvent F)) (o : SequentialRunOptions F) (output : String)
      (st : SequentialState F)
      → last_cost_bearing_event_cost (es ++ final_event o output st ∷ []) ≡ some st.total_cost
  unfolding last_cost_bearing_event_cost first_bearing bearing final_event
  last_cost_snoc es o output st =
      ap first_bearing (reverse-append es (final_event o output st ∷ []))

  -- Events that bear the cost of the run last, and none of a child.
  local_events :
      (es : List (RunEvent F)) (cost c : CostSummary F)
      → last_cost_bearing_event_cost es ≡ some c
      → cost ≡ c
      → All IsLocal es
      → IsAmount c.usd
      → ((IsLastCost (last_cost_bearing_event_cost (to_list (of_list es))) cost
            × All RollupAgrees (to_list (of_list es)))
          × IsCovered (accumulate_sub_run_cost (to_list (of_list es))) cost)
        × AreConsistent (of_list es)
  unfolding accumulate_sub_run_cost empty_cost IsLastCost CostsAgree IsCovered IsAmount
  local_events es cost c last same_cost local (agrees, positive) =
      rw (to_list-of_list es, last, same_cost, accumulate_from-IsLocal empty_cost es local)
        (
          (
            ((agrees, refl, refl, refl), rollups_of_local es local),
            (positive, omega arith, omega arith, omega arith),
          ),
          children_of_local es local,
        )

  final_cost :
      (o : SequentialRunOptions F) (output out : String) (st other : SequentialState F)
      → (create_replay_trace_final_output output (
          get_or
            (last_of (st.events ++ final_event o out st ∷ []))
            (final_event o output other))).cost
        ≡ st.total_cost
  unfolding create_replay_trace_final_output final_event
  final_cost o output out st other = rw (last_of-snoc st.events (final_event o out st)) refl

  -- The trace of the state after the final event is consistent.
  trace_of_state-IsConsistent :
      (o : SequentialRunOptions F) (st : SequentialState F)
      → StateLocal st
      → IsAmount st.total_cost.usd
      → IsConsistent (trace_of_state o (final_output st.transcript) (with_final o st))
  unfolding StateLocal IsConsistent trace_of_state with_final emit_decided IsLocal final_event
  trace_of_state-IsConsistent o st local amount =
      local_events (st.events ++ final_event o (final_output st.transcript) st ∷ []) _ st.total_cost
        (last_cost_snoc st.events o (final_output st.transcript) st)
        (final_cost o (final_output st.transcript) (final_output st.transcript) st
          (with_final o st))
        (All-append IsLocal st.events _ local (tt, tt)) amount

  -- The local accounting of the trace is that of the run.
  own_accounting :
      (o : SequentialRunOptions F) (st : SequentialState F)
      → local_of (trace_of_state o (final_output st.transcript) (with_final o st))
        ≡ create_run_accounting o.tier o.budget o.terminate
            (with_final o st).total_cost
            (with_final o st).events
  unfolding trace_of_state with_final emit_decided build_local_accounting create_replay_trace_budget
  own_accounting o st =
      ap₂ (create_run_accounting o.tier o.budget o.terminate)
        (final_cost o (final_output st.transcript) (final_output st.transcript) st
          (with_final o st))
        (to_list-of_list (st.events ++ final_event o (final_output st.transcript) st ∷ []))

  -- A result whose trace passes the check, if its cost is an amount.
  abbrev IsIntact : RunResult F → Type 0
  IsIntact r =
      IsAmount (result_fields r).cost.usd
      → recompute_accounting_from_trace (trace_of r) ≡ ok (result_fields r).accounting

  result_of_state-Ends :
      {E : Type 0} (o : SequentialRunOptions F) (st : SequentialState F)
      (h : Result E (RunHealthSummary F))
      → StateLocal st
      → Ends IsIntact (result_of_state o (final_output st.transcript) (with_final o st) h)
  unfolding result_of_state Ends with_final emit_decided
  result_of_state-Ends o st (err e) local = tt
  result_of_state-Ends o st (ok health) local = λ amount.
      (recompute_accounting_from_trace_iff
          (trace_of_state o (final_output st.transcript) (with_final o st))).1
        (trace_of_state-IsConsistent o st local amount)
      ∙ ap ok (own_accounting o st)

  run_sequential-Ends : (o : SequentialRunOptions F) → Ends IsIntact (run_sequential o)
  unfolding run_sequential finish initial_state
  run_sequential-Ends o =
      proceed (λ u. Unit {0}) IsIntact (o.check before_roles) _ (anything _)
        λ u v.
          proceed StateLocal IsIntact _ (finish o)
            (run_turns-Ends o 1 (active_agents o) _
              (assign_roles-IsLocal o (active_agents o) initial_state tt))
            λ st local.
              proceed (λ u. Unit {0}) IsIntact (o.check before_final) _ (anything _)
                λ u v. result_of_state-Ends o st _ local

  -- When a sequential run returns, whichever way its turns, its tools and its stop tests went, the trace
  -- that it returns passes the integrity check of replay, and the check gives the accounting that the
  -- run returned; its total in dollars is to be a finite amount from zero up.
  pub run_sequential-recompute :
      (o : SequentialRunOptions F) (r : RunResult F)
      → run_sequential o ≡ ok r
      → IsAmount (result_fields r).cost.usd
      → recompute_accounting_from_trace (trace_of r) ≡ ok (result_fields r).accounting
  run_sequential-recompute o r e =
      returned_value IsIntact (run_sequential o) r (run_sequential-Ends o) e
