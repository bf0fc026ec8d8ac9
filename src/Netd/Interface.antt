-- ===== src/Netd/Interface.antt =====
-- The traits `NetworkBackend` and `NetworkJournal` of
-- linux/common/apps/candy-netd/src/network.rs, over which the transaction is generic, and the
-- state and exceptions of its methods.
use candy_runtime.Prelude.{ℕ, Bool, true, false, List, Option, none, some, Result, ok, err}
use candy_runtime.Proto.Prefix.{Ipv4Prefix}
use candy_runtime.Proto.Declaration.{PrepareDeclaration}
use candy_runtime.Netd.Record.{
  TransactionRecord, SysctlChange, NetworkError, BackendStage, invalid_transition, backend,
  backend_stage,
}

-- A method on `&mut self` that may fail: it returns the state that it left also with an error.
abbrev pub Call : Type 0 → Type 0 → Type 0
Call S A = S → Result NetworkError A × S

abbrev pub ⊤ : Type 0
⊤ = Unit

pub record NetworkBackend (B : Type 0) : Type 0 where
  pub preflight : PrepareDeclaration → Call B (List SysctlChange)
  pub prepare_link : PrepareDeclaration → Call B ⊤
  pub prepare_routes : PrepareDeclaration → Call B ⊤
  pub reconcile_routes : PrepareDeclaration → List Ipv4Prefix → Call B ⊤
  pub prepare_firewall : PrepareDeclaration → Call B ⊤
  pub replace_firewall : PrepareDeclaration → PrepareDeclaration → Call B ⊤
  pub prepare_sysctls : PrepareDeclaration → List SysctlChange → Call B ⊤
  pub activate_link : PrepareDeclaration → Call B ⊤
  pub update_link_mtu : PrepareDeclaration → ℕ → Call B ⊤
  pub install_policy_rule : PrepareDeclaration → Call B ⊤
  pub remove_policy_rule : PrepareDeclaration → Call B ⊤
  pub deactivate_link : PrepareDeclaration → Call B ⊤
  pub remove_firewall : PrepareDeclaration → Call B ⊤
  pub remove_routes : PrepareDeclaration → Call B ⊤
  pub withdraw_prefixes : PrepareDeclaration → List Ipv4Prefix → Call B ⊤
  pub remove_link : PrepareDeclaration → Call B ⊤
  pub restore_sysctls : PrepareDeclaration → List SysctlChange → Call B ⊤

pub record NetworkJournal (J : Type 0) : Type 0 where
  pub load : J → Result NetworkError (Option TransactionRecord)
  pub store : TransactionRecord → Call J ⊤
  pub clear : Call J ⊤

-- `retained` is the field `record`.
pub record NetworkTransaction (B J : Type 0) : Type 0 where
  pub backend : B
  pub journal : J
  pub retained : Option TransactionRecord

abbrev pub Tx : Type 0 → Type 0 → Type 0 → Type 0
Tx B J A = NetworkTransaction B J → Result NetworkError A × NetworkTransaction B J

abbrev pub loaded_transaction :
    {B J : Type 0}
    → B
    → J
    → Result NetworkError (Option TransactionRecord)
    → Result NetworkError (NetworkTransaction B J)
loaded_transaction b j (ok r) = ok (record { backend = b; journal = j; retained = r })
loaded_transaction b j (err e) = err e

-- The `?` operator.
abbrev pub continue :
    {S A C : Type 0}
    → Result NetworkError A × S
    → (A → S → Result NetworkError C × S)
    → Result NetworkError C × S
continue (ok a, s) f = f a s
continue (err e, s) f = (err e, s)

abbrev pub clean_after :
    {S A : Type 0}
    → Result NetworkError A × S
    → (S → Result NetworkError ⊤ × S)
    → Result NetworkError A × S
clean_after (ok a, s) cleanup = (ok a, s)
clean_after (err e, s) cleanup = (err e, (cleanup s).1)

-- `at_stage`: a plain backend error is told apart by its stage.
abbrev pub stage_error : BackendStage → NetworkError → NetworkError
stage_error stage backend = backend_stage stage
stage_error stage e = e

abbrev pub stage_result :
    {S A : Type 0} → BackendStage → Result NetworkError A × S → Result NetworkError A × S
stage_result stage (ok a, s) = (ok a, s)
stage_result stage (err e, s) = (err (stage_error stage e), s)

module _ {B J : Type 0} where
  unfoldable pub pure : {A : Type 0} → A → Tx B J A
  pure a s = (ok a, s)

  unfoldable pub raise : {A : Type 0} → NetworkError → Tx B J A
  raise e s = (err e, s)

  -- `if refused { return Err(error); }`
  unfoldable pub raise_if : Bool → NetworkError → Tx B J ⊤
  unfolding pure raise
  raise_if true e = raise e
  raise_if false e = pure tt

  -- A call whose result is kept as a value, as of a closure or behind `let _ =`.
  unfoldable pub attempt : {A : Type 0} → Tx B J A → Tx B J (Result NetworkError A)
  attempt m s = let (r, s') = m s in (ok r, s')

  unfoldable pub ignore : Tx B J ⊤ → Tx B J ⊤
  ignore m s = let (r, s') = m s in (ok tt, s')

  -- A result that was kept is returned.
  unfoldable pub return_result : {A : Type 0} → Result NetworkError A → Tx B J A
  unfolding pure raise
  return_result (ok a) = pure a
  return_result (err e) = raise e

  -- `if result.is_err() { let _ = cleanup; } result`
  unfoldable pub or_cleanup : {A : Type 0} → Tx B J A → Tx B J ⊤ → Tx B J A
  or_cleanup m cleanup s = clean_after (m s) cleanup

  -- `self.record.as_ref().ok_or(NetworkError::InvalidTransition)?`
  unfoldable pub read : Option TransactionRecord → Tx B J TransactionRecord
  read none s = (err invalid_transition, s)
  read (some r) s = (ok r, s)

  unfoldable pub current : Tx B J TransactionRecord
  unfolding read
  current s = read s.retained s

  unfoldable pub set_record : Option TransactionRecord → Tx B J ⊤
  set_record r s = (ok tt, record s { retained = r })

  -- A call of the backend.
  unfoldable pub on_backend : {A : Type 0} → Call B A → Tx B J A
  on_backend f s = let (r, b) = f s.backend in (r, record s { backend = b })

  unfoldable pub on_journal : Call J ⊤ → Tx B J ⊤
  on_journal f s = let (r, j) = f s.journal in (r, record s { journal = j })

  unfoldable pub at_stage : {A : Type 0} → Tx B J A → BackendStage → Tx B J A
  at_stage m stage s = stage_result stage (m s)

  infixl 5 ◌>>=◌ ◌>>◌
  unfoldable pub ◌>>=◌ : {A C : Type 0} → Tx B J A → (A → Tx B J C) → Tx B J C
  unfolding pure raise raise_if attempt ignore return_result or_cleanup current set_record
      on_backend on_journal at_stage
  (m >>= f) s = continue (m s) f

  unfoldable pub ◌>>◌ : {C : Type 0} → Tx B J ⊤ → Tx B J C → Tx B J C
  unfolding ◌>>=◌
  m >> k = m >>= λ _. k

  module _ ⦃journal : NetworkJournal J⦄ where
    -- The record is changed in memory and then stored.
    unfoldable pub save : TransactionRecord → Tx B J ⊤
    unfolding ◌>>◌
    save r = set_record (some r) >> on_journal (journal.store r)

    -- The record is stored and then taken into memory.
    unfoldable pub replace : TransactionRecord → Tx B J ⊤
    unfolding ◌>>◌
    replace r = on_journal (journal.store r) >> set_record (some r)

    -- The journal is cleared and then the record is dropped.
    unfoldable pub forget : Tx B J ⊤
    unfolding ◌>>◌
    forget = on_journal journal.clear >> set_record none

    -- `NetworkTransaction::new`: the record is the one that the journal returns.
    unfoldable pub new_transaction : B → J → Result NetworkError (NetworkTransaction B J)
    new_transaction b j = loaded_transaction b j (journal.load j)
