-- ===== src/Execution/Handler/Starts.antt =====
-- Which inputs start an execution, and with what.
use ai_agent_runner.Base.{String, ◌≡◌, refl, ◌∷◌, inl, inr}
use ai_agent_runner.Failure.{Failure, Result, ok, err, Result-cases}
use ai_agent_runner.Exec.{continue}
use ai_agent_runner.Repository.Types.{ExactSourceResolvedInput}
use ai_agent_runner.Controller.Types.{eligibility_failed}
use ai_agent_runner.Execution.Types.{ApprovedBriefExecutionReference, PreparedExecution}
use ai_agent_runner.Execution.Preparation.{
  require_approved_brief_reference, create_execution, handoff_invariant_diagnostic,
  formal_gate_diagnostic,
}
use ai_agent_runner.Execution.Handler.Created.{IsConsistent, require_reference-IsConsistent}
use ai_agent_runner.Execution.Handler.{
  PreparationCalls, PreparationPorts, rejected, gate_asked, id_allocated, clock_read, persisted,
  continued, start_execution, prepare_execution, after_gate, after_reference, handle,
}

module _ (ports : PreparationPorts) (input : ExactSourceResolvedInput) (h : PreparationCalls) where
  abbrev gate_history : PreparationCalls
  gate_history = gate_asked input.repository input.source_revision ∷ h

  abbrev gate_answer : Result (Unit {0})
  gate_answer = ports.on_gate h input.repository input.source_revision

  abbrev prepared_history : PreparationCalls
  prepared_history = clock_read ∷ id_allocated ∷ gate_history

  -- The steps by which an execution comes about.
  pub record IsCreated (reference : ApprovedBriefExecutionReference) (id : String)
      (execution : PreparedExecution) : Type 0 where
    pub required : require_approved_brief_reference input ≡ ok reference
    pub consistent : IsConsistent input reference
    pub authorized : gate_answer ≡ ok tt
    pub allocated : ports.on_allocate gate_history ≡ ok id
    pub created :
        create_execution input reference id (ports.on_clock (id_allocated ∷ gate_history))
        ≡ ok execution

  -- How an input leaves the handler: its result and all its calls.
  pub data Starts (r : Result (Unit {0})) (h' : PreparationCalls) : Type 0 where
    inconsistent :
        (e : Failure)
        → require_approved_brief_reference input ≡ err e
        → h' ≡ rejected input.issue.issue_id eligibility_failed (handoff_invariant_diagnostic e) ∷ h
        → r
          ≡ ports.on_reject h input.issue.issue_id eligibility_failed
              (handoff_invariant_diagnostic e)
        → Starts r h'
    unauthorized :
        (reference : ApprovedBriefExecutionReference) (e : Failure)
        → require_approved_brief_reference input ≡ ok reference
        → gate_answer ≡ err e
        → h'
          ≡ rejected input.issue.issue_id eligibility_failed (formal_gate_diagnostic e)
            ∷ gate_history
        → r
          ≡ ports.on_reject gate_history input.issue.issue_id eligibility_failed
              (formal_gate_diagnostic e)
        → Starts r h'
    not_allocated :
        (reference : ApprovedBriefExecutionReference) (e : Failure)
        → require_approved_brief_reference input ≡ ok reference
        → gate_answer ≡ ok tt
        → ports.on_allocate gate_history ≡ err e
        → h' ≡ id_allocated ∷ gate_history
        → r ≡ err e
        → Starts r h'
    not_created :
        (reference : ApprovedBriefExecutionReference) (id : String) (e : Failure)
        → require_approved_brief_reference input ≡ ok reference
        → gate_answer ≡ ok tt
        → ports.on_allocate gate_history ≡ ok id
        → create_execution input reference id (ports.on_clock (id_allocated ∷ gate_history)) ≡ err e
        → h' ≡ prepared_history
        → r ≡ err e
        → Starts r h'
    unconfirmed :
        (reference : ApprovedBriefExecutionReference) (id : String) (execution : PreparedExecution)
        (e : Failure)
        → IsCreated reference id execution
        → ports.on_persist prepared_history execution ≡ err e
        → h' ≡ persisted execution ∷ prepared_history
        → r ≡ err e
        → Starts r h'
    started :
        (reference : ApprovedBriefExecutionReference) (id : String) (execution : PreparedExecution)
        → IsCreated reference id execution
        → ports.on_persist prepared_history execution ≡ ok tt
        → h' ≡ continued execution ∷ persisted execution ∷ prepared_history
        → r ≡ ports.on_next (persisted execution ∷ prepared_history) execution
        → Starts r h'

  settle_persisted :
      (reference : ApprovedBriefExecutionReference) (id : String) (execution : PreparedExecution)
      → IsCreated reference id execution
      → (let s = start_execution ports input execution prepared_history in Starts s.0 s.1)
  unfolding start_execution
  settle_persisted reference id execution c =
      elim (Result-cases (ports.on_persist prepared_history execution)) [
        | inl (e, q) ↦ rw q (unconfirmed reference id execution e c q refl refl)
        | inr (u, q) ↦ rw q (started reference id execution c q refl refl)
      ]

  settle_created :
      (reference : ApprovedBriefExecutionReference) (id : String) (made : Result PreparedExecution)
      → require_approved_brief_reference input ≡ ok reference
      → gate_answer ≡ ok tt
      → ports.on_allocate gate_history ≡ ok id
      → create_execution input reference id (ports.on_clock (id_allocated ∷ gate_history)) ≡ made
      → (let s = continue (start_execution ports input) made prepared_history in Starts s.0 s.1)
  settle_created reference id (err e) r g a m = not_created reference id e r g a m refl refl
  settle_created reference id (ok execution) r g a m =
      settle_persisted reference id execution (record {
        required = r;
        consistent = require_reference-IsConsistent input reference r;
        authorized = g;
        allocated = a;
        created = m;
      })

  settle_allocated :
      (reference : ApprovedBriefExecutionReference)
      → require_approved_brief_reference input ≡ ok reference
      → gate_answer ≡ ok tt
      → (let s = after_gate ports input reference (ok tt) gate_history in Starts s.0 s.1)
  unfolding after_gate prepare_execution
  settle_allocated reference r g = elim (Result-cases (ports.on_allocate gate_history)) [
    | inl (e, q) ↦ rw q (not_allocated reference e r g q refl refl)
    | inr (id, q) ↦ rw q (
        settle_created reference id
          (create_execution input reference id (ports.on_clock (id_allocated ∷ gate_history))) r g q
          refl)
  ]

  settle_gate :
      (reference : ApprovedBriefExecutionReference)
      → require_approved_brief_reference input ≡ ok reference
      → (let s = after_gate ports input reference gate_answer gate_history in Starts s.0 s.1)
  settle_gate reference r = elim (Result-cases gate_answer) [
    | inl (e, q) ↦ rw q (unfold after_gate in unauthorized reference e r q refl refl)
    | inr (u, q) ↦ rw q (settle_allocated reference r q)
  ]

  -- Whatever the collaborators answer, an input leaves the handler in one of these ways, and these
  -- are all its calls. An input whose handoff is inconsistent is rejected, and nothing else is asked.
  -- One that the formal gate refuses is rejected behind the gate, and no id is allocated. Past the
  -- gate nothing is rejected: an id is allocated, and where that or the creation of the execution
  -- fails, the failure is thrown and nothing is written; an execution that is created, which takes a consistent
  -- handoff, is written as a
  -- durable start once; and it is handed on, once, exactly if that write was confirmed.
  pub handle-Starts : Starts (handle ports input h).0 (handle ports input h).1
  unfolding handle after_reference
  handle-Starts = elim (Result-cases (require_approved_brief_reference input)) [
    | inl (e, q) ↦ rw q (inconsistent e q refl refl)
    | inr (reference, q) ↦ rw q (settle_gate reference q)
  ]
