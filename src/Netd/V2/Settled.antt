-- ===== src/Netd/V2/Settled.antt =====
-- What `recover_expired` of linux/common/apps/candy-netd/src/v2.rs leaves behind when it succeeds.
use candy_runtime.Prelude.{
  ℕ, Bool, true, not, ◌&&◌, ◌||◌, Option, none, some, ◌≡◌, refl, arith, ◌⊎◌, inl, inr, Result, ok,
  err,
}
use mathlib.Core.Path.{subst, sym}
use candy_runtime.Prelude.Methods.Triple.{Triple, Keeps, Post, bind_rule, Triple-success}
use candy_runtime.Proto.V2.{revoked, guarded, preparing, prepared}
use candy_runtime.Netd.V2.State.{State, ForwardRecord, in_phase, owner_is_live, Phase-discrete}
use candy_runtime.Netd.V2.Service.{
  Infra, Infrastructure, InfrastructureError, InfrastructureService,
}
use candy_runtime.Netd.V2.Rules.{
  On, Keeps-from_world, Keeps-end_restart, Keeps-is_restarting, Keeps-same_boot,
}
use candy_runtime.Netd.V2.Leads.{
  Leads, Leads-bind, Leads-seq, Leads-the_state, Leads-unwrap, Leads-pure, Leads-persist_seq,
  from_each, keep_then, Leads-if,
}
use candy_runtime.Netd.V2.Endings.{Leads-from}
use candy_runtime.Netd.V2.Recovery
use candy_runtime.Netd.V2.Recovery.{recover_expired}

-- The record is revoked, or its owner is live.
abbrev pub IsSettled : ℕ → Option ForwardRecord → Type 0
IsSettled now none = Unit
IsSettled now (some f) = (in_phase revoked f ≡ true) ⊎ (owner_is_live f.owner now ≡ true)

abbrev pub Anything : State → Type 0
Anything s = Unit

abbrev Settled : {A : Type 0} → ℕ → A → State → Type 0
Settled now a s = IsSettled now s.forward

always :
    {W A : Type 0} (p : Result InfrastructureError A × InfrastructureService W)
    → Post (λ _. On Anything) (On Anything) p
always (ok a, s) = record { held = tt }
always (err e, s) = record { held = tt }

pub anyhow : {W A : Type 0} (m : Infra W A) → Keeps (On {W = W} Anything) m
anyhow m = record { run = λ s p. always (m s) }

IsSettled-live :
    (now : ℕ) (s : State) (f : ForwardRecord)
    → s.forward ≡ some f
    → owner_is_live f.owner now ≡ true
    → IsSettled now s.forward
IsSettled-live now s f e live = subst (IsSettled now) (sym e) (inr live)

module _ {W : Type 0} ⦃infra : Infrastructure W⦄ (now : ℕ) where
  finish_revocation-Settled :
      (s : State) → Leads {W = W} s Anything (Settled now) Recovery.finish_revocation
  unfolding Recovery.finish_revocation Recovery.revoked_record Phase-discrete
  finish_revocation-Settled s = Leads-the_state _ (
      Leads-unwrap _ tt
        λ f e. Leads-persist_seq tt (Leads-seq tt Keeps-end_restart (Leads-pure _ (inl refl))))

  revoke_expired-Settled :
      (s : State) (f : ForwardRecord)
      → Leads {W = W} s Anything (Settled now) (Recovery.revoke_expired f)
  unfolding Recovery.revoke_expired
  revoke_expired-Settled s f =
      Leads-from tt
        (keep_then (anyhow _) (keep_then (anyhow _) (from_each λ t p. finish_revocation-Settled t)))

  settle_live-Settled :
      (s : State) (f : ForwardRecord) (recovered : Bool)
      → s.forward ≡ some f
      → Leads {W = W} s Anything (Settled now) (Recovery.settle_live f recovered now)
  unfolding Recovery.settle_live
  settle_live-Settled s f recovered e = Leads-bind tt Keeps-is_restarting λ restarting.
      Leads-bind tt Keeps-same_boot λ unchanged.
        Leads-if (in_phase guarded f && unchanged && owner_is_live f.owner now)
          (λ b. Leads-seq tt (Keeps-from_world _ _) (
            Leads-seq tt Keeps-end_restart
              (Leads-pure _ (IsSettled-live now s f e (ground (arith, b))))))
          (λ b.
            Leads-if
              (not (restarting && (in_phase preparing f || in_phase prepared f))
                && unchanged
                && owner_is_live f.owner now)
              (λ c.
                Leads-seq tt Keeps-end_restart
                  (Leads-pure _ (IsSettled-live now s f e (ground (arith, c)))))
              (λ c. revoke_expired-Settled s f))

  settle-Settled :
      (s : State) (o : Option ForwardRecord) (recovered : Bool)
      → s.forward ≡ o
      → Leads {W = W} s Anything (Settled now) (Recovery.settle o recovered now)
  unfolding Recovery.settle
  settle-Settled s none recovered e =
      Leads-seq tt Keeps-end_restart (Leads-pure _ (subst (IsSettled now) (sym e) tt))
  settle-Settled s (some f) recovered e =
      Leads-if (in_phase revoked f)
        (λ b. Leads-seq tt Keeps-end_restart (Leads-pure _ (subst (IsSettled now) (sym e) (inl b))))
        (λ b. settle_live-Settled s f recovered e)

  recovered-Settled :
      Triple (On {W = W} Anything) (recover_expired now) (λ r. On (Settled now r)) (On Anything)
  unfolding recover_expired
  recovered-Settled = keep_then (anyhow _) (
      bind_rule (anyhow _) λ first. bind_rule (anyhow _) λ a. bind_rule (anyhow _) λ b.
        bind_rule (anyhow _) λ c. bind_rule (anyhow _) λ repaired.
          bind_rule (anyhow _)
            λ d. from_each λ s p. Leads-the_state _ (settle-Settled s s.forward _ refl))

-- Behind a `recover_expired` that succeeds there is no retained record, or it is revoked, or its owner
-- is live at the time of the recovery.
pub recover_expired-IsSettled :
    {W : Type 0} ⦃infra : Infrastructure W⦄ (now : ℕ) (r : Bool) (s t : InfrastructureService W)
    → recover_expired now s ≡ (ok r, t)
    → IsSettled now t.state.forward
recover_expired-IsSettled now r s t e =
    (Triple-success (recovered-Settled now) s record { held = tt } e).held
