-- ===== src/Netd/V2/Tokens.antt =====
-- What a preparation and a commit of linux/common/apps/candy-netd/src/v2.rs do with the fencing tokens.
use candy_runtime.Prelude.{
  same-true, if◌then◌else◌, ap, same, not, ◌&&◌, ◌||◌, ℕ, ◌≤◌, ◌<◌, Bool, true, false, List, Option,
  none, some, ◌≡◌, refl, arith,
}
use mathlib.Core.Path.{subst, sym}
use candy_runtime.Proto.Declaration.{PrepareDeclaration}
use candy_runtime.Proto.V2.{
  InfraSpec, ForwardOwner, ForwardOwner-discrete, Phase, preparing, prepared, active, guarded,
  revoked,
}
use candy_runtime.Netd.V2.State.{State, ForwardRecord, IoOwner, Phase-discrete, default_state}
use candy_runtime.Netd.V2.Fencing.{
  IsFenced, IsFencedForward, IsFencedCandidate, forward_of, with_forward_IsFenced,
  same_phase_IsFenced,
}
use candy_runtime.Netd.V2.Prepare.{
  is_retry, is_stale, may_be_replaced, with_candidate, with_forward,
}
use candy_runtime.Netd.V2.Commit.{committed}
use candy_runtime.Netd.V2.Infra.{repair_intent, revoked_phase, creation_intent, with_io_owner}
use candy_runtime.Netd.V2.Forward.{may_renew, with_current}

-- A request that is not stale and no retry has a higher token than every one before.
above :
    (owner : ForwardOwner) (d : PrepareDeclaration) (previous : ForwardRecord) (last : ℕ)
    → is_stale owner d previous last ≡ false
    → is_retry owner previous ≡ false
    → last < owner.fencing_token
unfolding is_stale
above owner d previous last h r = ground arith

-- A preparation can only be tried again.
settled_phase :
    (p : Phase)
    → same Phase-discrete p preparing ≡ true
    → (same Phase-discrete p active
        || same Phase-discrete p guarded
        || same Phase-discrete p revoked)
      ≡ false
unfolding Phase-discrete
settled_phase preparing h = refl
settled_phase prepared h = refl
settled_phase active h = ground arith
settled_phase guarded h = ground arith
settled_phase revoked h = ground arith

pub with_candidate-IsFenced :
    {n : ℕ} (s : State) (owner : ForwardOwner) (d : PrepareDeclaration) (previous : ForwardRecord)
    → IsFenced n s
    → s.forward ≡ some previous
    → is_stale owner d previous s.last_fencing_token ≡ false
    → is_retry owner previous ≡ false
    → (not (may_be_replaced previous) && not (is_retry owner previous)) ≡ false
    → IsFenced n (with_candidate s owner d)
unfolding with_candidate
with_candidate-IsFenced s owner d previous h e stale retry phase =
    let higher = above owner d previous s.last_fencing_token stale retry in
    let fenced = forward_of h e in
    record {
      reached = omega (arith, higher, h.reached);
      forward_fenced =
          subst (λ o. IsFencedForward owner.fencing_token o) (sym e)
            (omega (arith, higher, fenced.0), λ b. ground (arith, settled_phase previous.phase b));
      candidate_fenced = omega arith;
    }

-- A retry has the token of the preparation, which is the last one; a first one starts from nothing.
pub with_forward-IsFenced :
    {n : ℕ} (s : State) (owner : ForwardOwner) (d : PrepareDeclaration) (phase : Phase)
    → n ≤ owner.fencing_token
    → s.candidate ≡ none
    → IsFenced n (with_forward s owner d phase)
unfolding with_forward
with_forward-IsFenced s owner d phase h e = record {
  reached = h;
  forward_fenced = (omega arith, λ b. refl);
  candidate_fenced = subst (λ o. IsFencedCandidate owner.fencing_token o) (sym e) tt;
}

pub retry_reached :
    {n : ℕ} (s : State) (owner : ForwardOwner) (previous : ForwardRecord)
    → IsFenced n s
    → s.forward ≡ some previous
    → is_retry owner previous ≡ true
    → n ≤ owner.fencing_token
retry_reached s owner previous h e r =
    let fenced = forward_of h e in
    let same_owner = same-true ForwardOwner-discrete previous.owner owner (ground (arith, r)) in
    rw (← same_owner) (omega (arith, fenced.1 (ground (arith, r)), h.reached))

pub first_reached :
    {n : ℕ} (s : State) (owner : ForwardOwner)
    → IsFenced n s
    → s.forward ≡ none
    → n ≤ owner.fencing_token
first_reached s owner h e =
    let nothing = subst (λ o. IsFencedForward s.last_fencing_token o) e h.forward_fenced in
    omega (arith, nothing, h.reached)

-- A commit ends the candidate, whose token is not above the last one.
pub committed-IsFenced :
    {n : ℕ} (s : State) (c : ForwardRecord)
    → IsFenced n s
    → s.candidate ≡ some c
    → IsFenced n (committed s c)
unfolding committed Phase-discrete
committed-IsFenced s c h e = record {
  reached = h.reached;
  forward_fenced = (
    subst (λ o. IsFencedCandidate s.last_fencing_token o) e h.candidate_fenced,
    λ b. ground arith,
  );
  candidate_fenced = tt;
}

-- A candidate of the same owner
pub same_candidate_IsFenced :
    {n : ℕ} {s : State} (c g : ForwardRecord)
    → IsFenced n s
    → s.candidate ≡ some c
    → g.owner ≡ c.owner
    → IsFenced n record s { candidate = some g }
same_candidate_IsFenced {s = s} c g h e t =
    let bound = subst (λ o. IsFencedCandidate s.last_fencing_token o) e h.candidate_fenced in
    record {
      reached = h.reached;
      forward_fenced = h.forward_fenced;
      candidate_fenced = rw (ap (λ o. o.fencing_token) t) bound;
    }

-- A renewal keeps the token.
pub renewed-IsFenced :
    {n : ℕ} (s : State) (f : ForwardRecord) (owner : ForwardOwner)
    → IsFenced n s
    → s.forward ≡ some f
    → not (may_renew f owner) ≡ false
    → IsFenced n record s { forward = some (record f { owner = owner }) }
unfolding may_renew
renewed-IsFenced s f owner h e r = with_forward_IsFenced f _ h e (ground (arith, r)) (λ b. b)

-- The intent to repair the interface revokes the record.
pub repair_intent-IsFenced :
    {n : ℕ} (s : State) (marker boot_id : List ℕ)
    → IsFenced n s
    → IsFenced n (repair_intent s marker boot_id)
unfolding repair_intent Phase-discrete
repair_intent-IsFenced s marker boot_id h = record {
  reached = h.reached;
  forward_fenced = revoked_fenced s.last_fencing_token s.forward h.forward_fenced;
  candidate_fenced = tt;
}
  where
    revoked_fenced :
        (last : ℕ) (o : Option ForwardRecord)
        → IsFencedForward last o
        → IsFencedForward last (revoked_phase o)
    revoked_fenced last none h = h
    revoked_fenced last (some f) h = (h.0, λ b. ground arith)

pub creation_intent-IsFenced :
    {n : ℕ} (s : State) (spec : InfraSpec) (caller marker boot_id : List ℕ)
    → IsFenced n s
    → IsFenced n (creation_intent s spec caller marker boot_id)
unfolding creation_intent
creation_intent-IsFenced s spec caller marker boot_id h = record {
  reached = h.reached;
  forward_fenced = h.forward_fenced;
  candidate_fenced = h.candidate_fenced;
}

pub with_io_owner-IsFenced :
    {n : ℕ} (s : State) (owner : IoOwner) → IsFenced n s → IsFenced n (with_io_owner s owner)
unfolding with_io_owner
with_io_owner-IsFenced s owner h = record {
  reached = h.reached;
  forward_fenced = h.forward_fenced;
  candidate_fenced = h.candidate_fenced;
}

pub without_io_owner_IsFenced :
    {n : ℕ} (s : State) → IsFenced n s → IsFenced n record s { io_owner = none }
without_io_owner_IsFenced s h = record {
  reached = h.reached;
  forward_fenced = h.forward_fenced;
  candidate_fenced = h.candidate_fenced;
}

-- Whichever of the two records the request is about
pub with_current-IsFenced :
    {n : ℕ} (s : State) (b : Bool) (f g : ForwardRecord)
    → IsFenced n s
    → (if b then s.candidate else s.forward) ≡ some f
    → g.owner ≡ f.owner
    → g.phase ≡ f.phase
    → IsFenced n (with_current s b g)
with_current-IsFenced s true f g h e o p = same_candidate_IsFenced f g h e o
with_current-IsFenced s false f g h e o p = same_phase_IsFenced f g h e o p

pub default-IsFenced : {n : ℕ} → n ≡ 0 → IsFenced n default_state
default-IsFenced z = record { reached = omega arith; forward_fenced = refl; candidate_fenced = tt }
