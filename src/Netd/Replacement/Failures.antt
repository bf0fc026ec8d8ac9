-- ===== src/Netd/Replacement/Failures.antt =====
-- A replacement or a policy update that fails leaves the old declaration in the record.
use candy_runtime.Prelude.{◌≡◌, refl, Option, none, some, Result, ok, err, same, arith}
use candy_runtime.Proto.Declaration.{PrepareDeclaration, PrepareDeclaration-discrete}
use candy_runtime.Proto.Request.{LeaseOwner}
use candy_runtime.Netd.Record.{
  TransactionRecord, TransactionPhase, NetworkError, active, rolling_back,
}
use candy_runtime.Netd.Interface.{⊤, Tx, NetworkBackend, NetworkJournal, NetworkTransaction}
use candy_runtime.Netd.Triple.{
  Post, keeping, keep_raise_if, keep_return_result, keep_seq, or_cleanup_rule, seq_rule, if_rule,
}
use candy_runtime.Netd.Transaction.Cleanup.{drop_candidate}
use candy_runtime.Netd.Transaction.Replace
use candy_runtime.Netd.Transaction.Replace.{stage_candidate}
use candy_runtime.Netd.Transaction.Policy
use candy_runtime.Netd.Replacement.Rules.{
  IsLike, IsKept, Kept, Keeps, Guards, Anything, raises, loosely, backend_kept, save_kept,
  replace_kept, replace_guarded, attempt_kept, ignore_kept, current_kept, when_kept, valid_kept,
  restoring,
}
use candy_runtime.Netd.Outcomes.{holding}

ruleset parts = (
  keeping, keep_raise_if, keep_return_result, raises, backend_kept, attempt_kept, ignore_kept,
  when_kept, valid_kept,
)

IsLike-self : (r : TransactionRecord) → IsLike r r
IsLike-self r = record { owned = refl; declared = refl; stepped = refl; saved = refl }

-- A candidate beside the record does not touch what matters of it.
staged-IsLike :
    (r q : TransactionRecord) (phase : TransactionPhase) (owner : LeaseOwner)
    (d : PrepareDeclaration)
    → IsLike r q
    → IsLike r (stage_candidate phase owner d q)
staged-IsLike r q phase owner d h = record {
  owned = h.owned;
  declared = h.declared;
  stepped = h.stepped;
  saved = h.saved;
}

rephased-IsLike :
    (r q : TransactionRecord) (phase : TransactionPhase)
    → IsLike r q
    → IsLike r (record (drop_candidate q) { phase = phase })
rephased-IsLike r q phase h = record {
  owned = h.owned;
  declared = h.declared;
  stepped = h.stepped;
  saved = h.saved;
}

module _ {B J : Type 0} ⦃backend : NetworkBackend B⦄ ⦃journal : NetworkJournal J⦄
    (r : TransactionRecord) where
  restore_policy-Keeps :
      (q : TransactionRecord) (d : PrepareDeclaration)
      → IsLike r q
      → Keeps {B = B} {J = J} r (Policy.restore_policy_after_update q d)
  unfolding Policy.restore_policy_after_update
  restore_policy-Keeps q d h = search (parts, replace_kept) depth 20

  exchange_policy-Keeps :
      (d : PrepareDeclaration) (q : TransactionRecord)
      → Keeps {B = B} {J = J} r (Policy.exchange_policy d q)
  unfolding Policy.exchange_policy
  exchange_policy-Keeps d q = search parts depth 20

  change_policy-Guards :
      (owner : LeaseOwner) (d : PrepareDeclaration) (q : TransactionRecord)
      → IsLike r q
      → Guards {B = B} {J = J} r (Policy.change_policy owner d q)
  unfolding Policy.change_policy
  change_policy-Guards owner d q h =
      seq_rule (save_kept r _ (staged-IsLike r q rolling_back owner d h)) (
        seq_rule (restoring r (exchange_policy-Keeps d q) (restore_policy-Keeps q d h))
          (restoring r (replace_guarded r _) (restore_policy-Keeps q d h)))

  update_policy-Guards :
      (owner : LeaseOwner) (d : PrepareDeclaration)
      → Guards {B = B} {J = J} r (Policy.update_policy owner d)
  unfolding Policy.update_policy
  update_policy-Guards owner d = seq_rule (valid_kept r _) (
      current_kept r λ q h. seq_rule (keep_raise_if (raises r) _ _) (
        seq_rule (keep_raise_if (raises r) _ _) (
          if_rule {b = same PrepareDeclaration-discrete q.declaration d}
            (λ equal. loosely r (when_kept r _ (backend_kept r _)))
            (λ differs. change_policy-Guards owner d q h))))

  restore_suspended-Keeps :
      (q : TransactionRecord) (d : PrepareDeclaration)
      → IsLike r q
      → Keeps {B = B} {J = J} r (Replace.restore_suspended_after_reconfigure q d)
  unfolding Replace.restore_suspended_after_reconfigure
  restore_suspended-Keeps q d h = search (parts, replace_kept) depth 20

  exchange_suspended-Keeps :
      (previous d : PrepareDeclaration)
      → Keeps {B = B} {J = J} r (Replace.exchange_suspended previous d)
  unfolding Replace.exchange_suspended
  exchange_suspended-Keeps previous d = search parts depth 20

  prepare_candidate-Keeps :
      (d : PrepareDeclaration) → Keeps {B = B} {J = J} r (Replace.prepare_candidate d)
  unfolding Replace.prepare_candidate
  prepare_candidate-Keeps d = search parts depth 20

  withdraw_candidate-Keeps :
      (d : PrepareDeclaration) → Keeps {B = B} {J = J} r (Replace.withdraw_candidate d)
  unfolding Replace.withdraw_candidate
  withdraw_candidate-Keeps d = keep_seq (ignore_kept r (backend_kept r _)) (
      keep_seq (ignore_kept r (backend_kept r _))
        (current_kept r λ q h. ignore_kept r (save_kept r _ (rephased-IsLike r q active h))))

  mark_prepared-Keeps : Keeps {B = B} {J = J} r Replace.mark_prepared
  unfolding Replace.mark_prepared
  mark_prepared-Keeps = current_kept r λ q h. save_kept r _ (ground (arith, h))

  cleaned :
      (p : Result NetworkError ⊤ × NetworkTransaction B J)
      → Post (Kept r) (Kept r) p
      → IsKept r p.1.retained
  cleaned (ok done, s) h = h
  cleaned (err e, s) h = h

  stage_replacement-Keeps :
      (owner : LeaseOwner) (d : PrepareDeclaration) (q : TransactionRecord)
      → IsLike r q
      → Keeps {B = B} {J = J} r (Replace.stage_replacement owner d q)
  unfolding Replace.stage_replacement
  stage_replacement-Keeps owner d q h = keep_seq (save_kept r _ (ground (arith, h))) (
      keep_seq
        (or_cleanup_rule _ (prepare_candidate-Keeps d)
          (λ s p. cleaned (Replace.withdraw_candidate d s) ((withdraw_candidate-Keeps d).run s p)))
        mark_prepared-Keeps)

  staged_or-Keeps :
      (o : Option PrepareDeclaration) {f : PrepareDeclaration → Tx B J ⊤} {m : Tx B J ⊤}
      → Keeps r m
      → ((c : PrepareDeclaration) → Keeps r (f c))
      → Keeps r (elim o [ none ↦ m | some c ↦ f c ])
  staged_or-Keeps none hm hf = hm
  staged_or-Keeps (some c) hm hf = hf c

  replace_declaration-Keeps :
      (owner : LeaseOwner) (d : PrepareDeclaration) (q : TransactionRecord)
      → IsLike r q
      → Keeps {B = B} {J = J} r (Replace.replace_declaration owner d q)
  unfolding Replace.replace_declaration
  replace_declaration-Keeps owner d q h = keep_seq (keep_raise_if (raises r) _ _) (
      staged_or-Keeps q.recovery_candidate (stage_replacement-Keeps owner d q h)
        (λ c. keep_raise_if (raises r) _ _))

  prepare_replacement-Guards :
      (owner : LeaseOwner) (d : PrepareDeclaration)
      → Guards {B = B} {J = J} r (Replace.prepare_replacement owner d)
  unfolding Replace.prepare_replacement
  prepare_replacement-Guards owner d = current_kept r λ q h.
      seq_rule (keep_raise_if (raises r) _ _) (
        if_rule {b = same PrepareDeclaration-discrete q.declaration d}
          (λ equal. replace_guarded r _)
          (λ differs. loosely r (replace_declaration-Keeps owner d q h)))

  reconfigure_suspended-Guards :
      (owner : LeaseOwner) (d : PrepareDeclaration) (q : TransactionRecord)
      → IsLike r q
      → Guards {B = B} {J = J} r (Replace.reconfigure_suspended owner d q)
  unfolding Replace.reconfigure_suspended
  reconfigure_suspended-Guards owner d q h =
      seq_rule (save_kept r _ (staged-IsLike r q rolling_back owner d h)) (
        seq_rule
          (restoring r (exchange_suspended-Keeps q.declaration d) (restore_suspended-Keeps q d h))
          (restoring r (replace_guarded r _) (restore_suspended-Keeps q d h)))

  reconfigure_inactive-Guards :
      (owner : LeaseOwner) (d : PrepareDeclaration) (q : TransactionRecord)
      → IsLike r q
      → Guards {B = B} {J = J} r (Replace.reconfigure_inactive owner d q)
  unfolding Replace.reconfigure_inactive
  reconfigure_inactive-Guards owner d q h = seq_rule (keep_raise_if (raises r) _ _) (
      if_rule {b = same PrepareDeclaration-discrete q.declaration d} (λ equal. replace_guarded r _)
        (λ differs.
          seq_rule (keep_raise_if (raises r) _ _) (reconfigure_suspended-Guards owner d q h)))

  reconfigure-Guards :
      (owner : LeaseOwner) (d : PrepareDeclaration)
      → Guards {B = B} {J = J} r (Replace.reconfigure owner d)
  unfolding Replace.reconfigure
  reconfigure-Guards owner d = seq_rule (valid_kept r _) (
      current_kept r λ q h. seq_rule (keep_raise_if (raises r) _ _) (
        if_rule (λ is_active. prepare_replacement-Guards owner d)
          (λ inactive. reconfigure_inactive-Guards owner d q h)))

module _ {B J : Type 0} ⦃backend : NetworkBackend B⦄ ⦃journal : NetworkJournal J⦄ where
  failed :
      (r : TransactionRecord) (p : Result NetworkError ⊤ × NetworkTransaction B J)
      {x : NetworkError}
      → Post Anything (Kept r) p
      → p.0 ≡ err x
      → IsKept r p.1.retained
  failed r (ok done, s) h e = ground arith
  failed r (err x, s) h e = h

  -- A Reconfigure that fails, at whatever point and of a record in whatever phase, keeps the record
  -- with its old owner, declaration, completed steps and original sysctls, by which the old tunnel
  -- is served or removed. It may leave the phase changed and a candidate beside the declaration.
  pub reconfigure-keeps_old :
      (owner : LeaseOwner) (d : PrepareDeclaration) (b : B) (j : J) (r : TransactionRecord)
      {x : NetworkError}
      → (Replace.reconfigure owner d (holding b j r)).0 ≡ err x
      → IsKept r (Replace.reconfigure owner d (holding b j r)).1.retained
  reconfigure-keeps_old owner d b j r h =
      failed r _ ((reconfigure-Guards r owner d).run (holding b j r) (IsLike-self r)) h

  -- A PolicyUpdate that fails, at whatever point, keeps the record with its old owner, declaration,
  -- completed steps and original sysctls.
  pub update_policy-keeps_old :
      (owner : LeaseOwner) (d : PrepareDeclaration) (b : B) (j : J) (r : TransactionRecord)
      {x : NetworkError}
      → (Policy.update_policy owner d (holding b j r)).0 ≡ err x
      → IsKept r (Policy.update_policy owner d (holding b j r)).1.retained
  update_policy-keeps_old owner d b j r h =
      failed r _ ((update_policy-Guards r owner d).run (holding b j r) (IsLike-self r)) h
