-- ===== src/Netd/Durable/Cleanup.antt =====
-- Cleanup notes errors and goes on: as long as none is noted, the journal is in step.
use candy_runtime.Prelude.{
  ℕ, Bool, true, false, ◌≡◌, refl, Option, none, some, Result, ok, err, if◌then◌else◌,
}
use candy_runtime.Proto.Declaration.{PrepareDeclaration}
use candy_runtime.Netd.Record.{TransactionRecord, NetworkError, rolling_back}
use candy_runtime.Netd.Interface.{
  ⊤, Tx, NetworkBackend, NetworkJournal, NetworkTransaction, ◌>>=◌, ◌>>◌, pure, attempt,
  return_result, save, forget, read, continue,
}
use candy_runtime.Netd.Triple.{Post, keep_seq, keep_current}
use candy_runtime.Netd.Durable.Rules.{
  Durability, IsDurable, Anything, Keeps, Keeps-save, backend_rule, clear_step_rule, set_phase_rule,
  forget_rule,
}
use candy_runtime.Netd.Transaction.Cleanup.{
  note_error, to_result, drop_candidate, cleanup_step, settle_candidate, cleanup_candidate,
  cleanup_staged, cleanup_steps, finish_cleanup, cleanup_record, cleanup_parts, is_spent,
  clear_step,
}

module _ {B J : Type 0} where
  abbrev pub IsSettled :
      {journal : NetworkJournal J}
      → Durability journal
      → Option NetworkError
      → NetworkTransaction B J
      → Type 0
  IsSettled durability none s = IsDurable durability s
  IsSettled durability (some e) s = Unit

  abbrev pub IsSettledResult :
      {journal : NetworkJournal J}
      → Durability journal
      → Result NetworkError (Option NetworkError) × NetworkTransaction B J
      → Type 0
  IsSettledResult durability (ok first, s) = IsSettled durability first s
  IsSettledResult durability (err e, s) = Unit

  -- With `first` noted before it, the part `m` of a cleanup keeps the journal in step.
  pub record Settles {journal : NetworkJournal J} (durability : Durability journal)
      (first : Option NetworkError) (m : Tx B J (Option NetworkError)) : Type 0 where
    pub run :
        (s : NetworkTransaction B J)
        → IsSettled durability first s
        → IsSettledResult durability (m s)

module _ {B J : Type 0} {journal : NetworkJournal J} {durability : Durability journal} where
  settled_continue :
      (p : Result NetworkError (Option NetworkError) × NetworkTransaction B J)
      (f : Option NetworkError → Tx B J (Option NetworkError))
      → IsSettledResult durability p
      → ((e : Option NetworkError) → Settles durability e (f e))
      → IsSettledResult durability (continue p f)
  settled_continue (ok first, s) f h k = (k first).run s h
  settled_continue (err e, s) f h k = tt

  Settles-bind :
      {first : Option NetworkError} {m : Tx B J (Option NetworkError)}
      {f : Option NetworkError → Tx B J (Option NetworkError)}
      → Settles durability first m
      → ((e : Option NetworkError) → Settles durability e (f e))
      → Settles durability first (m >>= f)
  unfolding ◌>>=◌
  Settles-bind {m = m} {f = f} hm hf = record {
    run = λ s p. settled_continue (m s) f (hm.run s p) hf;
  }

module _ {B J : Type 0} {journal : NetworkJournal J} (durability : Durability journal) where
  noted :
      (first : Option NetworkError) (p : Result NetworkError ⊤ × NetworkTransaction B J)
      → (first ≡ none → Post (IsDurable durability) Anything p)
      → IsSettled durability (note_error first p.0) p.1
  noted none (ok done, s) h = h refl
  noted none (err e, s) h = tt
  noted (some e) (ok done, s) h = tt
  noted (some e) (err e', s) h = tt

  -- A call whose result is noted.
  noted_call :
      (first : Option NetworkError) (m : Tx B J ⊤) (s : NetworkTransaction B J)
      → Keeps durability m
      → IsSettled durability first s
      → IsSettled durability (note_error first (m s).0) (m s).1
  noted_call none m s h p = noted none (m s) (λ e. h.run s p)
  noted_call (some x) m s h p = noted (some x) (m s) (λ e. absurd (cc))

module _ {B J : Type 0} ⦃backend : NetworkBackend B⦄ ⦃journal : NetworkJournal J⦄
    (durability : Durability journal) where
  Settles-step :
      (needed : Bool) (operation : Tx B J ⊤) (step : ℕ) (first : Option NetworkError)
      → Keeps durability operation
      → Settles durability first (cleanup_step needed operation step first)
  unfolding cleanup_step ◌>>=◌
  Settles-step false operation step first h = record { run = λ s p. p }
  Settles-step true operation step first h = record {
    run = λ s p.
        noted_call durability first (operation >> clear_step step) s
          (keep_seq h (clear_step_rule durability step)) p;
  }

  Settles-steps :
      (r : TransactionRecord) (first : Option NetworkError)
      → Settles {B = B} durability first (cleanup_steps r first)
  unfolding cleanup_steps
  Settles-steps r first = search (Settles-bind, Settles-step, backend_rule durability) depth 12

  finish_if :
      (b : Bool) (first : Option NetworkError) (s : NetworkTransaction B J)
      → IsSettled durability first s
      → IsSettledResult durability (
          if b
          then (attempt forget >>= λ cleared. pure (note_error first cleared)) s
          else (ok first, s))
  unfolding ◌>>=◌
  finish_if true first s p =
      noted_call durability first forget s
        (record { run = λ s p. (forget_rule durability).run s tt }) p
  finish_if false first s p = p

  Settles-finish :
      (first : Option NetworkError) → Settles {B = B} durability first (finish_cleanup first)
  unfolding finish_cleanup
  Settles-finish first = record { run = λ s p. finish_if (is_spent s.retained) first s p }

  settles_candidate :
      (first : Option NetworkError) (s : NetworkTransaction B J)
      → IsDurable durability s
      → IsSettledResult durability (settle_candidate first s)
  unfolding settle_candidate ◌>>=◌
  settles_candidate (some e) s p = tt
  settles_candidate none s p = by_record s.retained s p
    where
      by_record :
          (o : Option TransactionRecord) (s : NetworkTransaction B J)
          → IsDurable durability s
          → IsSettledResult durability (
              continue (read o s) (λ r.
                attempt (save (drop_candidate r)) >>= λ stored. pure (note_error none stored)))
      by_record none s p = tt
      by_record (some r) s p =
          noted_call durability none (save (drop_candidate r)) s
            (Keeps-save durability (drop_candidate r)) p

  Settles-staged :
      (candidate : Option PrepareDeclaration)
      → Settles {B = B} durability none (cleanup_staged candidate)
  unfolding cleanup_candidate ◌>>=◌
  Settles-staged none = record { run = λ s p. p }
  Settles-staged (some candidate) = record { run = λ s p. settles_candidate _ _ p }

  settled_result :
      (first : Option NetworkError) (s : NetworkTransaction B J)
      → IsSettled durability first s
      → Post (IsDurable durability) Anything (return_result (to_result first) s)
  unfolding return_result
  settled_result none s p = p
  settled_result (some e) s p = tt

  -- The end of a cleanup: what was noted is returned.
  settled_end :
      {first : Option NetworkError} {m : Tx B J (Option NetworkError)}
      → Settles durability first m
      → (s : NetworkTransaction B J) → IsSettled durability first s
      → Post (IsDurable durability) Anything ((m >>= λ e. return_result (to_result e)) s)
  unfolding ◌>>=◌
  settled_end {m = m} h s p = go (m s) (h.run s p)
    where
      go :
          (q : Result NetworkError (Option NetworkError) × NetworkTransaction B J)
          → IsSettledResult durability q
          → Post (IsDurable durability) Anything (continue q (λ e. return_result (to_result e)))
      go (ok first, s) p = settled_result first s p
      go (err e, s) p = tt

  Settles-parts : (r : TransactionRecord) → Settles {B = B} durability none (cleanup_parts r)
  unfolding cleanup_parts
  Settles-parts r =
      Settles-bind (Settles-staged r.recovery_candidate)
        (λ e1. Settles-bind (Settles-steps r e1) Settles-finish)

  pub cleanup_record-Keeps : Keeps {B = B} durability cleanup_record
  unfolding cleanup_record
  cleanup_record-Keeps =
      keep_seq (set_phase_rule durability rolling_back)
        (keep_current (λ s p. tt) (λ r. record { run = λ s p. settled_end (Settles-parts r) s p }))
