-- ===== src/Netd/Durable/Rules.antt =====
-- The contract of a journal, and how the parts of a method keep it.
use candy_runtime.Prelude.{ℕ, ◌≡◌, Option, none, some, ok, arith}
use candy_runtime.Netd.Record.{TransactionRecord, TransactionPhase}
use candy_runtime.Netd.Interface.{
  Tx, Call, NetworkBackend, NetworkJournal, ◌>>=◌, on_backend, save, replace, forget,
}
use candy_runtime.Netd.Triple.{Triple, Pred, current_rule}
use candy_runtime.Netd.Transaction.Cleanup.{complete_step, clear_step, set_phase}

-- Which journals are in step with a record in memory: a store or a clear that reports success leaves
-- such a journal.
pub record Durability {J : Type 0} (journal : NetworkJournal J) : Type 1 where
  pub holds : J → Option TransactionRecord → Type 0
  pub holds-store :
      (r : TransactionRecord) (j : J)
      → (journal.store r j).0 ≡ ok tt
      → holds (journal.store r j).1 (some r)
  pub holds-clear : (j : J) → (journal.clear j).0 ≡ ok tt → holds (journal.clear j).1 none

-- The journal is in step with the record that is in memory.
abbrev pub IsDurable : {B J : Type 0} {journal : NetworkJournal J} → Durability journal → Pred B J
IsDurable durability s = durability.holds s.journal s.retained

abbrev pub Anything : {B J : Type 0} → Pred B J
Anything s = Unit

-- A success keeps the journal in step; a success brings it in step from any state.
abbrev pub Keeps :
    {B J A : Type 0} {journal : NetworkJournal J} → Durability journal → Tx B J A → Type 0
Keeps durability m = Triple (IsDurable durability) m (IsDurable durability) Anything

abbrev pub Makes :
    {B J A : Type 0} {journal : NetworkJournal J} → Durability journal → Tx B J A → Type 0
Makes durability m = Triple Anything m (IsDurable durability) Anything

module _ {B J : Type 0} ⦃backend : NetworkBackend B⦄ ⦃journal : NetworkJournal J⦄
    (durability : Durability journal) where
  -- A successful save is durable whatever the state was before.
  pub save_rule : (r : TransactionRecord) → Makes {B = B} durability (save r)
  unfolding save ◌>>=◌
  save_rule r = record { run = λ s p. ground (arith, durability.holds-store r s.journal) }

  pub replace_rule : (r : TransactionRecord) → Makes {B = B} durability (replace r)
  unfolding replace ◌>>=◌
  replace_rule r = record { run = λ s p. ground (arith, durability.holds-store r s.journal) }

  pub forget_rule : Makes {B = B} durability forget
  unfolding forget ◌>>=◌
  forget_rule = record { run = λ s p. ground (arith, durability.holds-clear s.journal) }

  pub backend_rule : {A : Type 0} (f : Call B A) → Keeps {B = B} durability (on_backend f)
  unfolding on_backend
  backend_rule f = record { run = λ s p. ground arith }

  pub complete_step_rule : (step : ℕ) → Keeps {B = B} durability (complete_step step)
  unfolding complete_step
  complete_step_rule step =
      current_rule (λ s p. tt) (λ r. record { run = λ s p. (save_rule _).run s tt })

  pub set_phase_rule : (phase : TransactionPhase) → Keeps {B = B} durability (set_phase phase)
  unfolding set_phase
  set_phase_rule step =
      current_rule (λ s p. tt) (λ r. record { run = λ s p. (save_rule _).run s tt })

  pub clear_step_rule : (step : ℕ) → Keeps {B = B} durability (clear_step step)
  unfolding clear_step
  clear_step_rule step =
      current_rule (λ s p. tt) (λ r. record { run = λ s p. (save_rule _).run s tt })

  pub Keeps-save : (r : TransactionRecord) → Keeps {B = B} durability (save r)
  Keeps-save r = record { run = λ s p. (save_rule r).run s tt }

  pub Keeps-replace : (r : TransactionRecord) → Keeps {B = B} durability (replace r)
  Keeps-replace r = record { run = λ s p. (replace_rule r).run s tt }
