-- ===== src/Netd/Durable/Parts.antt =====
-- The parts of a method that keep the journal in step, for a search.
use candy_runtime.Prelude.{Bool, true, false, ok, err, Option, none, some, Result}
use candy_runtime.Netd.Record.{NetworkError}
use candy_runtime.Netd.Interface.{
  NetworkBackend, NetworkJournal, ⊤, Tx, NetworkTransaction, or_cleanup, ◌>>◌, raise, continue,
}
use candy_runtime.Netd.Triple.{
  keeping, keep_current, keep_raise_if, keep_raise, Implies, or_cleanup_rule, keep_seq, keep_pure,
  keep_return_result, Post,
}
use candy_runtime.Netd.Durable.Rules.{
  Durability, IsDurable, Anything, Keeps, Keeps-save, Keeps-replace, backend_rule,
  complete_step_rule, clear_step_rule, set_phase_rule,
}
use candy_runtime.Netd.Durable.Cleanup.{cleanup_record-Keeps}
use candy_runtime.Proto.Error.{NetdProtocolError}
use candy_runtime.Netd.Transaction.Lifecycle.{valid_or_backend, or_invalid}
use candy_runtime.Netd.Transaction.Replace.{or_restore, restored_by}
use candy_runtime.Netd.Transaction.Policy.{when}

module _ {B J : Type 0} ⦃backend : NetworkBackend B⦄ ⦃journal : NetworkJournal J⦄
    (durability : Durability journal) where
  pub raises : Implies {B = B} {J = J} (IsDurable durability) Anything
  raises s p = tt

  pub cleaned :
      {m : Tx B J ⊤} (k : Tx B J ⊤) → Keeps durability m → Keeps durability (or_cleanup m k)
  cleaned k h = or_cleanup_rule k h (λ s p. tt)

  pub validated : (v : Result NetdProtocolError ⊤) → Keeps {B = B} durability (valid_or_backend v)
  validated (ok v) = keep_pure v
  validated (err e) = keep_raise raises _

  pub invalid_none : {A : Type 0} (o : Option A) → Keeps {B = B} durability (or_invalid o)
  invalid_none none = keep_raise raises _
  invalid_none (some a) = keep_pure a

  pub guarded : (b : Bool) {m : Tx B J ⊤} → Keeps durability m → Keeps durability (when b m)
  guarded true h = h
  guarded false h = keep_pure tt

  pub chosen :
      {C A : Type 0} {f : C → Tx B J A} {m : Tx B J A} (o : Option C)
      → Keeps durability m
      → ((c : C) → Keeps durability (f c))
      → Keeps durability (elim o [ none ↦ m | some c ↦ f c ])
  chosen none hm hf = hm
  chosen (some c) hm hf = hf c

  raised :
      (p : Result NetworkError ⊤ × NetworkTransaction B J) (e : NetworkError)
      → Post (IsDurable durability) Anything (continue p (λ _. raise {A = ⊤} e))
  unfolding raise
  raised (ok done, s) e = tt
  raised (err x, s) e = tt

  restored :
      (p : Result NetworkError ⊤ × NetworkTransaction B J) (k : Tx B J ⊤)
      → Post (IsDurable durability) Anything p
      → Post (IsDurable durability) Anything (restored_by p k)
  unfolding ◌>>◌
  restored (ok done, s) k h = h
  restored (err e, s) k h = raised (k s) e

  pub restoring :
      {m : Tx B J ⊤} (k : Tx B J ⊤) → Keeps durability m → Keeps durability (or_restore m k)
  restoring {m = m} k h = record { run = λ s p. restored (m s) k (h.run s p) }

-- The parts of a method, by which a search finds its proof.
pub ruleset parts = (
  keeping, keep_current, keep_raise_if, keep_raise, keep_return_result, raises, cleaned, validated,
  invalid_none, guarded, restoring, backend_rule, Keeps-save, Keeps-replace, complete_step_rule,
  clear_step_rule, set_phase_rule, cleanup_record-Keeps,
)
