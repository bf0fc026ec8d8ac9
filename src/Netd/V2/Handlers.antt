-- ===== src/Netd/V2/Handlers.antt =====
-- The handlers of linux/common/apps/candy-netd/src/v2.rs keep the fencing tokens.
use candy_runtime.Prelude.{
  ℕ, ◌≤◌, true, false, List, Option, none, some, ◌≡◌, refl, Result, ok, err,
}
use candy_runtime.Prelude.Methods.{◌>>◌}
use candy_runtime.Prelude.Methods.Triple.{Triple, keep_attempt, raise_rule, seq_rule}
use candy_runtime.Proto.Declaration.{PrepareDeclaration}
use candy_runtime.Proto.V2.{ForwardOwner, ForwardAuthority, Request, preparing}
use candy_runtime.Netd.Interface.{⊤}
use candy_runtime.Netd.V2.State.{State, ForwardRecord}
use candy_runtime.Netd.V2.Service.{Infrastructure, InfrastructureError}
use candy_runtime.Netd.V2.Rules.{
  On, calls, Keeps-install_replacement, Keeps-from_world, Keeps-administrator, Keeps-ensure_live,
  Keeps-io_owner_alive,
}
use candy_runtime.Netd.V2.Leads.{
  Is, Leads, Leads-bind, Leads-seq, Leads-or_raise, Leads-raise_if, Leads-pure, Leads-persist_seq,
  Leads-then, Leads-if,
}
use candy_runtime.Netd.V2.Endings.{Ends, leading, Leads-attempt, Leads-stored, Leads-answered}
use candy_runtime.Netd.V2.Fencing.{IsFenced, same_phase_IsFenced}
use candy_runtime.Netd.V2.Tokens.{
  with_candidate-IsFenced, with_forward-IsFenced, retry_reached, first_reached, committed-IsFenced,
  same_candidate_IsFenced,
}
use candy_runtime.Netd.V2.Fenced.{rollback-IsFenced}
use candy_runtime.Netd.V2.Prepare
use candy_runtime.Netd.V2.Commit

module _ {W : Type 0} ⦃infra : Infrastructure W⦄ {n : ℕ} where
  prepare_first-IsFenced :
      (s next : State) (owner : ForwardOwner) (d : PrepareDeclaration)
      → IsFenced n s
      → n ≤ owner.fencing_token
      → next.candidate ≡ none
      → Leads {W = W} s (IsFenced n) (Ends (IsFenced n)) (Prepare.prepare_first owner d next)
  unfolding Prepare.prepare_first
  prepare_first-IsFenced s next owner d h b e =
      search (leading, calls, with_forward-IsFenced) depth 40

  prepare_candidate-IsFenced :
      (s : State) (owner : ForwardOwner) (d : PrepareDeclaration) (previous : ForwardRecord)
      → IsFenced n s
      → IsFenced n (Prepare.with_candidate s owner d)
      → Leads {W = W} s
          (IsFenced n)
          (Ends (IsFenced n))
          (Prepare.prepare_candidate owner d previous s)
  unfolding Prepare.prepare_candidate
  prepare_candidate-IsFenced s owner d previous h g = search (leading, calls) depth 40

  prepare_beside-IsFenced :
      (s : State) (o : Option ForwardRecord) (owner : ForwardOwner) (d : PrepareDeclaration)
      → IsFenced n s
      → s.candidate ≡ none
      → s.forward ≡ o
      → Leads {W = W} s (IsFenced n) (Ends (IsFenced n)) (Prepare.prepare_beside o owner d s)
  unfolding Prepare.prepare_beside
  prepare_beside-IsFenced s none owner d h c e =
      search (leading, calls, prepare_first-IsFenced, first_reached s owner h e, c) depth 40
  prepare_beside-IsFenced s (some previous) owner d h c e =
      search
        (
          leading, calls, prepare_first-IsFenced, prepare_candidate-IsFenced,
          with_candidate-IsFenced, retry_reached,
        )
        depth 40

  prepare_without-IsFenced :
      (s : State) (o : Option ForwardRecord) (owner : ForwardOwner) (d : PrepareDeclaration)
      → IsFenced n s
      → s.candidate ≡ o
      → Leads {W = W} s (IsFenced n) (Ends (IsFenced n)) (Prepare.prepare_without o owner d s)
  unfolding Prepare.prepare_without
  prepare_without-IsFenced s none owner d h e = prepare_beside-IsFenced s s.forward owner d h e refl
  prepare_without-IsFenced s (some c) owner d h e = search (leading, calls) depth 40

  pub forward_prepare-IsFenced :
      (s : State) (request : Request) (i : List ℕ) (g : ℕ) (owner : ForwardOwner)
      (d : PrepareDeclaration) (now : ℕ)
      → IsFenced n s
      → Leads {W = W} s
          (IsFenced n)
          (Ends (IsFenced n))
          (Prepare.forward_prepare request i g owner d s now)
  unfolding Prepare.forward_prepare ◌>>◌
  forward_prepare-IsFenced s request i g owner d now h =
      search (leading, calls, prepare_without-IsFenced s s.candidate owner d h refl) depth 40

  authorize_candidate-IsFenced :
      (s : State) (a : ForwardAuthority) (f : ForwardRecord)
      → IsFenced n s
      → s.candidate ≡ some f
      → Leads {W = W} s (IsFenced n) (Ends (IsFenced n)) (Prepare.authorize_record a s true f)
  unfolding Prepare.authorize_record Prepare.with_authority
  authorize_candidate-IsFenced s a f h e =
      search (leading, calls, same_candidate_IsFenced f _ h e refl) depth 40

  authorize_forward-IsFenced :
      (s : State) (a : ForwardAuthority) (f : ForwardRecord)
      → IsFenced n s
      → s.forward ≡ some f
      → Leads {W = W} s (IsFenced n) (Ends (IsFenced n)) (Prepare.authorize_record a s false f)
  unfolding Prepare.authorize_record Prepare.with_authority
  authorize_forward-IsFenced s a f h e =
      search (leading, calls, same_phase_IsFenced f _ h e refl refl) depth 40

  pub forward_authorize-IsFenced :
      (s : State) (request : Request) (owner : ForwardOwner) (a : ForwardAuthority) (now : ℕ)
      → IsFenced n s
      → Leads {W = W} s
          (IsFenced n)
          (Ends (IsFenced n))
          (Prepare.forward_authorize request owner a s now)
  unfolding Prepare.forward_authorize ◌>>◌
  forward_authorize-IsFenced s request owner a now h = Leads-seq h (Keeps-administrator request) (
      Leads-seq h (Keeps-ensure_live owner now) (
        Leads-or_raise _ _ h λ io e. Leads-raise_if _ _ h λ named.
          Leads-bind h (Keeps-io_owner_alive io) λ alive. Leads-raise_if _ _ h λ lives.
            (search (leading, authorize_candidate-IsFenced, authorize_forward-IsFenced) depth 20)))

  raised_after :
      (s : State) (x : InfrastructureError) (r : Result InfrastructureError ⊤)
      → Triple
          (On {W = W} (IsFenced n))
          (Commit.after_rollback {A = ⊤} x r)
          (λ _. On (Is s))
          (On (IsFenced n))
  unfolding Commit.after_rollback
  raised_after s x (ok done) = raise_rule _ (λ s p. p)
  raised_after s x (err e) = raise_rule _ (λ s p. p)

  -- What was not rolled back is still there.
  rolled_back-IsFenced :
      (s : State) (r : Result InfrastructureError ⊤) (previous c : ForwardRecord) (now : ℕ)
      → IsFenced n s
      → s.forward ≡ some previous
      → Leads {W = W} s (IsFenced n) (λ _. Is s) (Commit.or_rollback r previous c now)
  unfolding Commit.or_rollback
  rolled_back-IsFenced s (ok done) previous c now h e = Leads-pure _ refl
  rolled_back-IsFenced s (err x) previous c now h e =
      Leads-then (Leads-attempt (rollback-IsFenced s previous c now h e)) (λ r. raised_after s x r)

  done_rollback :
      (s : State) (previous c : ForwardRecord) (now : ℕ)
      → Leads {W = W} s (IsFenced n) (λ _. Is s) (Commit.or_rollback (ok tt) previous c now)
  unfolding Commit.or_rollback
  done_rollback s previous c now = Leads-pure _ refl

  exchange-IsFenced :
      (s : State) (previous c : ForwardRecord) (now : ℕ)
      → IsFenced n s
      → s.forward ≡ some previous
      → s.candidate ≡ some c
      → Leads {W = W} s (IsFenced n) (Ends (IsFenced n)) (Commit.exchange previous c s now)
  unfolding Commit.exchange
  exchange-IsFenced s previous c now h e e' =
      let intent = same_candidate_IsFenced c (Commit.with_phase preparing c) h e' refl in
      let final = committed-IsFenced s c h e' in
      Leads-persist_seq h (
        Leads-bind intent (keep_attempt (Keeps-install_replacement _ _ _)) λ installed.
          seq_rule (rolled_back-IsFenced _ installed previous _ now intent e) (
            Leads-stored _ _ (seq_rule (done_rollback _ previous _ now) (Leads-answered _ _ final))
              (λ x.
                seq_rule (rolled_back-IsFenced _ (err x) previous _ now intent e)
                  (Leads-answered _ _ intent))))

  pub commit_candidate-IsFenced :
      (s : State) (c : ForwardRecord) (now : ℕ)
      → IsFenced n s
      → s.candidate ≡ some c
      → Leads {W = W} s (IsFenced n) (Ends (IsFenced n)) (Commit.commit_candidate c s now)
  unfolding Commit.commit_candidate
  commit_candidate-IsFenced s c now h e = Leads-or_raise _ _ h λ previous e'.
      Leads-seq h (Keeps-from_world _ _) (
        Leads-if (Commit.keeps_policy previous c)
          (λ b. Leads-persist_seq h (Leads-answered _ _ (committed-IsFenced s c h e)))
          (λ b. exchange-IsFenced s previous c now h e' e))
