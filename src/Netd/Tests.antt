-- ===== src/Netd/Tests.antt =====
-- Runs of the network transaction over a backend in memory, whose calls all succeed or all fail, and
-- a journal in memory.
use candy_runtime.Netd.Record.{
  has_step, Prefixes-discrete, firewall_policy_changed, with_step, TransactionRecord, NetworkError,
  prepared, active, suspended, draining, is_active, is_suspended, is_owner, has_remote_route,
  is_process,
}
use candy_runtime.Proto.Declaration.{
  Exclusions-discrete, Routes-discrete, FirewallPolicy-discrete, PrepareDeclaration-discrete,
  validate_declaration, out_of_bounds, has_conflict, remote, PrepareDeclaration,
}
use candy_runtime.Netd.Transaction.Cleanup.{complete_step, clear_step, set_phase}
use candy_runtime.Prelude.{
  bit_and, ◌^◌, ◌-◌, ◌≡◌, ◌≤◌, ◌<◌, ◌⊎◌, ◌||◌, not, refl, Bool, true, false, Option, none, some, [],
  ◌∷◌, ok, err, arith, any, ℕ_discrete,
}
use candy_runtime.Proto.Prefix.{Bytes-discrete, Ipv4Prefix-discrete, sort_prefixes, dedup}
use candy_runtime.Proto.Tests.{lan, declared, replacement, agent, stranger}
use candy_runtime.Netd.Interface.{
  Call, NetworkBackend, NetworkJournal, NetworkTransaction, ◌>>◌, save, replace,
}
use candy_runtime.Netd.Transaction.Lifecycle
use candy_runtime.Netd.Transaction.Lifecycle.{first_record, discard_candidate}
use candy_runtime.Netd.Transaction.Replace
use candy_runtime.Netd.Transaction.Policy
use candy_runtime.Netd.Transaction.Recover.{recover_orphan, is_policy_update}
use candy_runtime.Netd.Transaction.Controller.{ControllerCall, perform}
use candy_runtime.Netd.Fencing.{IsRefused, perform-foreign}
use candy_runtime.Netd.Outcomes.{
  holding, drain_old-promotes, commit-falls_back, recover_orphan-waits, set_failed_prefixes-records,
  renew_lease-renews, update_mtu-lowers, rollback-restores, suspend-clears,
}
use candy_runtime.Netd.Replacement.Rules.{IsKept}
use candy_runtime.Netd.Replacement.Successes.{
  exchanged, updated, HasTunnel, update_policy-updates, reconfigure-exchanges, reconfigure-stages,
  recover_orphan-discards,
}
use candy_runtime.Netd.Replacement.Failures.{reconfigure-keeps_old, update_policy-keeps_old}

-- A backend in memory says whether its calls succeed.
abbrev pub answer : {A : Type 0} → A → Call Bool A
answer a true = (ok a, true)
answer a false = (err NetworkError.backend, false)

instance abbrev pub simple_backend : NetworkBackend Bool
simple_backend = record {
  preflight = λ d. answer [];
  prepare_link = λ d. answer tt;
  prepare_routes = λ d. answer tt;
  reconcile_routes = λ d ps. answer tt;
  prepare_firewall = λ d. answer tt;
  replace_firewall = λ d e. answer tt;
  prepare_sysctls = λ d changes. answer tt;
  activate_link = λ d. answer tt;
  update_link_mtu = λ d mtu. answer tt;
  install_policy_rule = λ d. answer tt;
  remove_policy_rule = λ d. answer tt;
  deactivate_link = λ d. answer tt;
  remove_firewall = λ d. answer tt;
  remove_routes = λ d. answer tt;
  withdraw_prefixes = λ d ps. answer tt;
  remove_link = λ d. answer tt;
  restore_sysctls = λ d changes. answer tt;
}

instance abbrev pub simple_journal : NetworkJournal (Option TransactionRecord)
simple_journal = record {
  load = λ j. ok j;
  store = λ r j. (ok tt, some r);
  clear = λ j. (ok tt, none);
}

-- Another network, 10.0.1.0/24, takes the place of the declared one.
abbrev rerouted : PrepareDeclaration
rerouted = record declared {
  routes =
      record { prefix = record { network = 10 ∷ 0 ∷ 1 ∷ 0 ∷ []; prefix_len = 24 }; kind = remote }
      ∷ [];
}

-- An active tunnel, all six steps done.
abbrev running : TransactionRecord
running = record (first_record agent declared) { phase = active; completed_steps = 63 }

-- The same beside a replacement.
abbrev pub replacing : TransactionRecord
replacing = record running {
  phase = prepared;
  recovery_candidate = some replacement;
  recovery_candidate_owner = some agent;
}

abbrev cutting_over : TransactionRecord
cutting_over = record replacing { phase = draining; drain_deadline_mono_ms = 900 }

abbrev journalled : Bool → TransactionRecord → NetworkTransaction Bool (Option TransactionRecord)
journalled b r = holding b (some r) r

-- A first declaration comes up step by step.
brought_up :
    (Lifecycle.prepare agent declared >> Lifecycle.commit agent)
      (record { backend = true; journal = none; retained = none })
    ≡ (ok tt, journalled true running)
unfolding Lifecycle.prepare Lifecycle.commit ◌>>◌ save validate_declaration out_of_bounds
    has_conflict Bytes-discrete ℕ_discrete replace complete_step set_phase with_step
brought_up = refl

perform-foreign_example :
    IsRefused
      (journalled true running)
      (perform ControllerCall.suspend stranger (journalled true running))
unfolding Bytes-discrete ℕ_discrete
perform-foreign_example =
    perform-foreign ControllerCall.suspend stranger (journalled true running) {r = running} refl
      refl

drain_old-promotes_example :
    ((Lifecycle.drain_old agent 900 (journalled true cutting_over)).1.retained
      ≡ some (record running { owner = agent; declaration = replacement }))
    × (is_process agent agent ≡ true)
    × (draining ≡ draining)
    × (900 ≤ 900)
unfolding Lifecycle.drain_old ◌>>◌ save Bytes-discrete ℕ_discrete
drain_old-promotes_example =
    drain_old-promotes agent 900 true (some cutting_over) cutting_over {c = replacement} refl refl

commit-falls_back_example :
    (Lifecycle.commit_with_drain agent 100 50 (journalled false replacing)).1.retained
    ≡ some running
unfolding Lifecycle.commit_with_drain ◌>>◌ save Bytes-discrete ℕ_discrete
commit-falls_back_example =
    commit-falls_back agent 100 50 false (some replacing) replacing {c = replacement}
      {x = NetworkError.backend} refl refl refl refl

recover_orphan-waits_example :
    recover_orphan true 4999 (journalled true running) ≡ (ok false, journalled true running)
recover_orphan-waits_example =
    recover_orphan-waits 4999 true (some running) running refl refl (omega arith)

set_failed_prefixes-records_example :
    ((Lifecycle.set_failed_prefixes agent (lan ∷ lan ∷ []) (journalled true running)).1.retained
      ≡ some (record running { failed_prefixes = dedup (sort_prefixes (lan ∷ lan ∷ [])) }))
    × (is_owner agent agent ≡ true)
    × ((is_active active || is_suspended active) ≡ true)
    × (any (λ p. not (has_remote_route declared.routes p)) (dedup (sort_prefixes (lan ∷ lan ∷ [])))
        ≡ false)
unfolding Lifecycle.set_failed_prefixes ◌>>◌ save Bytes-discrete ℕ_discrete dedup sort_prefixes
    Ipv4Prefix-discrete has_remote_route
set_failed_prefixes-records_example =
    set_failed_prefixes-records agent (lan ∷ lan ∷ []) true (some running) running refl

renew_lease-renews_example :
    (Lifecycle.renew_lease
      (record agent { lease_deadline_mono_ms = 9000 })
      (journalled true running)).1.retained
    ≡ some (record running { owner = record agent { lease_deadline_mono_ms = 9000 } })
unfolding Lifecycle.renew_lease ◌>>◌ save Bytes-discrete ℕ_discrete
renew_lease-renews_example =
    renew_lease-renews (record agent { lease_deadline_mono_ms = 9000 }) true (some running) running
      refl

update_mtu-lowers_example :
    ((Lifecycle.update_mtu agent 1100 (journalled true running)).1.retained
      ≡ some (record running { declaration = record declared { effective_mtu = 1100 } }))
    × (active ≡ active)
    × (576 ≤ 1100)
    × (1100 ≤ 1400)
    × (1100 < 1200)
unfolding Lifecycle.update_mtu ◌>>◌ save Bytes-discrete ℕ_discrete
update_mtu-lowers_example = update_mtu-lowers agent 1100 true (some running) running refl

rollback-restores_example :
    ((Lifecycle.rollback agent (journalled true replacing)).1.retained ≡ some running)
    × (is_process agent agent ≡ true)
unfolding Lifecycle.rollback ◌>>◌ save Bytes-discrete ℕ_discrete
rollback-restores_example =
    rollback-restores agent true (some replacing) replacing {c = replacement} refl refl refl

suspend-clears_example :
    (is_owner agent agent ≡ true)
    × (((active ≡ suspended)
          × ((Lifecycle.suspend agent (journalled true running)).1.retained ≡ some running))
        ⊎ ((active ≡ active)
            × ((Lifecycle.suspend agent (journalled true running)).1.retained
                ≡ some (record running {
                  phase = suspended;
                  completed_steps = bit_and 63 (2 ^ 16 - 1 - 32);
                }))))
unfolding Lifecycle.suspend ◌>>◌ save clear_step set_phase Bytes-discrete ℕ_discrete
suspend-clears_example = suspend-clears agent true (some running) running refl

reconfigure-keeps_old_example :
    IsKept running (Replace.reconfigure agent replacement (journalled false running)).1.retained
unfolding Replace.reconfigure ◌>>◌ save replace validate_declaration out_of_bounds has_conflict
    Bytes-discrete ℕ_discrete PrepareDeclaration-discrete FirewallPolicy-discrete
reconfigure-keeps_old_example =
    reconfigure-keeps_old agent replacement false (some running) running {x = NetworkError.backend}
      refl

update_policy-keeps_old_example :
    IsKept running (Policy.update_policy agent rerouted (journalled false running)).1.retained
unfolding Policy.update_policy ◌>>◌ save replace validate_declaration out_of_bounds has_conflict
    Bytes-discrete ℕ_discrete Exclusions-discrete PrepareDeclaration-discrete Routes-discrete
    has_step firewall_policy_changed FirewallPolicy-discrete Prefixes-discrete sort_prefixes
update_policy-keeps_old_example =
    update_policy-keeps_old agent rerouted false (some running) running {x = NetworkError.backend}
      refl

update_policy-updates_example :
    ((Policy.update_policy agent rerouted (journalled true running)).1.retained
      ≡ some (updated rerouted running))
    × HasTunnel declared rerouted
    × (is_owner agent agent ≡ true)
    × (false ≡ false)
unfolding Policy.update_policy ◌>>◌ save replace PrepareDeclaration-discrete ℕ_discrete
    validate_declaration out_of_bounds has_conflict Bytes-discrete Exclusions-discrete
    Routes-discrete firewall_policy_changed FirewallPolicy-discrete Prefixes-discrete sort_prefixes
update_policy-updates_example =
    update_policy-updates agent rerouted true (some running) running refl refl

abbrev sleeping : TransactionRecord
sleeping = record running { phase = suspended; completed_steps = 31 }

reconfigure-exchanges_example :
    ((Replace.reconfigure agent rerouted (journalled true sleeping)).1.retained
      ≡ some (exchanged agent rerouted sleeping))
    × (is_process agent agent ≡ true)
    × (validate_declaration rerouted ≡ ok tt)
unfolding Replace.reconfigure ◌>>◌ save replace PrepareDeclaration-discrete ℕ_discrete
    validate_declaration out_of_bounds has_conflict Bytes-discrete FirewallPolicy-discrete
reconfigure-exchanges_example =
    reconfigure-exchanges agent rerouted true (some sleeping) sleeping refl refl refl

reconfigure-stages_example :
    ((Replace.reconfigure agent replacement (journalled true running)).1.retained ≡ some replacing)
    × (is_process agent agent ≡ true)
    × (validate_declaration replacement ≡ ok tt)
unfolding Replace.reconfigure ◌>>◌ save replace PrepareDeclaration-discrete ℕ_discrete
    validate_declaration out_of_bounds has_conflict Bytes-discrete FirewallPolicy-discrete
reconfigure-stages_example =
    reconfigure-stages agent replacement true (some running) running refl refl refl refl

recover_orphan-discards_example :
    ((recover_orphan false 100 (journalled true replacing)).1.retained ≡ some running)
    × ((false ≡ false) ⊎ (5000 ≤ 100))
unfolding recover_orphan is_policy_update discard_candidate ◌>>◌ save
recover_orphan-discards_example =
    recover_orphan-discards false 100 true (some replacing) replacing {c = replacement} refl refl
      refl
