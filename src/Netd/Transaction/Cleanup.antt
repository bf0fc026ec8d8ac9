-- ===== src/Netd/Transaction/Cleanup.antt =====
-- `cleanup_record` of linux/common/apps/candy-netd/src/network.rs and the writes to the record
-- that the other methods share.
use candy_runtime.Prelude.{
  ℕ, Bool, true, false, ◌&&◌, not, ◌==◌, Option, none, some, Result, ok, err, is_some, bit_or,
  if◌then◌else◌,
}
use candy_runtime.Proto.Declaration.{PrepareDeclaration}
use candy_runtime.Netd.Record.{
  TransactionRecord, TransactionPhase, rolling_back, NetworkError, has_step, with_step,
  without_step, step_link, step_routes, step_firewall, step_sysctls, step_link_active,
  step_policy_rule, mark_failed,
}
use candy_runtime.Netd.Interface.{
  ⊤, Tx, NetworkBackend, NetworkJournal, ◌>>=◌, ◌>>◌, pure, attempt, return_result, current,
  on_backend, save, forget,
}

-- `first_error.get_or_insert(error)`, where the result is an error
abbrev pub note_error : Option NetworkError → Result NetworkError ⊤ → Option NetworkError
note_error first (ok done) = first
note_error none (err e) = some e
note_error (some e') (err e) = some e'

-- `first_error.map_or(Ok(()), Err)`
abbrev pub to_result : Option NetworkError → Result NetworkError ⊤
to_result none = ok tt
to_result (some e) = err e

-- The declaration that cleanup hands to `remove_routes`.
abbrev pub routes_for_cleanup : TransactionRecord → PrepareDeclaration
routes_for_cleanup r = record r.declaration {
  routes = mark_failed r.failed_prefixes r.declaration.routes;
}

abbrev pub drop_candidate : TransactionRecord → TransactionRecord
drop_candidate r = record r { recovery_candidate = none; recovery_candidate_owner = none }

-- `record.completed_steps == 0 && record.recovery_candidate.is_none()`
abbrev pub is_spent : Option TransactionRecord → Bool
is_spent none = false
is_spent (some r) = (r.completed_steps == 0) && not (is_some r.recovery_candidate)

module _ {B J : Type 0} ⦃backend : NetworkBackend B⦄ ⦃journal : NetworkJournal J⦄ where
  unfoldable pub complete_step : ℕ → Tx B J ⊤
  complete_step step = do
    r ← current
    save (record r { completed_steps = with_step r.completed_steps step })

  unfoldable pub clear_step : ℕ → Tx B J ⊤
  clear_step step = do
    r ← current
    save (record r { completed_steps = without_step r.completed_steps step })

  unfoldable pub set_phase : TransactionPhase → Tx B J ⊤
  set_phase phase = do r ← current; save (record r { phase = phase })

  -- The macro `cleanup_step!`: an error is noted and the next step is taken all the same.
  unfoldable pub cleanup_step :
      Bool → Tx B J ⊤ → ℕ → Option NetworkError → Tx B J (Option NetworkError)
  cleanup_step false operation step first = pure first
  cleanup_step true operation step first = do
    result ← attempt (operation >> clear_step step)
    pure (note_error first result)

  -- The record forgets a candidate whose removal met no error.
  unfoldable pub settle_candidate : Option NetworkError → Tx B J (Option NetworkError)
  settle_candidate (some e) = pure (some e)
  settle_candidate none = do
    r ← current
    stored ← attempt (save (drop_candidate r))
    pure (note_error none stored)

  -- The candidate's firewall and routes are both removed, whatever the first removal says.
  unfoldable pub cleanup_candidate : PrepareDeclaration → Tx B J (Option NetworkError)
  cleanup_candidate candidate = do
    firewall ← attempt (on_backend (backend.remove_firewall candidate))
    routes ← attempt (on_backend (backend.remove_routes candidate))
    settle_candidate (note_error (note_error none firewall) routes)

  -- The six steps of the active declaration `r`, whose record stood when cleanup began.
  unfoldable pub cleanup_steps :
      TransactionRecord → Option NetworkError → Tx B J (Option NetworkError)
  cleanup_steps r first = do
    let d = r.declaration
    let steps = r.completed_steps
    e1 ←
        cleanup_step (has_step steps step_policy_rule) (on_backend (backend.remove_policy_rule d))
          step_policy_rule first
    e2 ←
        cleanup_step (has_step steps (bit_or step_link step_link_active))
          (on_backend (backend.deactivate_link d)) step_link_active e1
    e3 ←
        cleanup_step (has_step steps step_sysctls)
          (on_backend (backend.restore_sysctls d r.sysctls)) step_sysctls e2
    e4 ←
        cleanup_step (has_step steps step_firewall) (on_backend (backend.remove_firewall d))
          step_firewall e3
    e5 ←
        cleanup_step (has_step steps step_routes)
          (on_backend (backend.remove_routes (routes_for_cleanup r))) step_routes e4
    cleanup_step (has_step steps step_link) (on_backend (backend.remove_link d)) step_link e5

  -- The journal is cleared when nothing is left to undo.
  unfoldable pub finish_cleanup : Option NetworkError → Tx B J (Option NetworkError)
  finish_cleanup first s =
      if is_spent s.retained
      then (do cleared ← attempt forget; pure (note_error first cleared)) s
      else (ok first, s)

  abbrev pub cleanup_staged : Option PrepareDeclaration → Tx B J (Option NetworkError)
  cleanup_staged none = pure none
  cleanup_staged (some candidate) = cleanup_candidate candidate

  -- The candidate, the six steps and the journal; the first error that was met, if any.
  unfoldable pub cleanup_parts : TransactionRecord → Tx B J (Option NetworkError)
  cleanup_parts r = do
    e1 ← cleanup_staged r.recovery_candidate
    e2 ← cleanup_steps r e1
    finish_cleanup e2

  unfoldable pub cleanup_record : Tx B J ⊤
  cleanup_record = do
    set_phase rolling_back
    r ← current
    first_error ← cleanup_parts r
    return_result (to_result first_error)
