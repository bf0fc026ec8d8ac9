-- ===== src/Netd/V2/Fencing.antt =====
-- The fencing tokens in the durable state, and how the steps of the service respect them.
use candy_runtime.Prelude.{
  ap, same, ℕ, ◌≤◌, Bool, true, false, List, Option, none, some, ◌≡◌, refl, arith,
}
use mathlib.Core.Path.{subst}
use candy_runtime.Proto.V2.{preparing, revoked}
use candy_runtime.Netd.V2.State.{State, ForwardRecord, in_phase, Phase-discrete}
use candy_runtime.Netd.V2.Exchange.{settled}

-- No token is above the last one; without a record no token was given; a preparation has the last.
abbrev pub IsFencedForward : ℕ → Option ForwardRecord → Type 0
IsFencedForward last none = last ≡ 0
IsFencedForward last (some f) =
    (f.owner.fencing_token ≤ last) × (in_phase preparing f ≡ true → f.owner.fencing_token ≡ last)

abbrev pub IsFencedCandidate : ℕ → Option ForwardRecord → Type 0
IsFencedCandidate last none = Unit
IsFencedCandidate last (some c) = c.owner.fencing_token ≤ last

-- The tokens of the state are fenced, and the last token is at least `n`.
pub record IsFenced (n : ℕ) (s : State) : Type 0 where
  pub reached : n ≤ s.last_fencing_token
  pub forward_fenced : IsFencedForward s.last_fencing_token s.forward
  pub candidate_fenced : IsFencedCandidate s.last_fencing_token s.candidate

pub forward_of :
    {n : ℕ} {s : State} {f : ForwardRecord}
    → IsFenced n s
    → s.forward ≡ some f
    → IsFencedForward s.last_fencing_token (some f)
forward_of {s = s} h e = subst (λ o. IsFencedForward s.last_fencing_token o) e h.forward_fenced

IsFenced-with_owner :
    {n : ℕ} {s : State} (f g : ForwardRecord)
    → IsFenced n s
    → IsFencedForward s.last_fencing_token (some f)
    → g.owner.fencing_token ≡ f.owner.fencing_token
    → (in_phase preparing g ≡ true → in_phase preparing f ≡ true)
    → IsFenced n record s { forward = some g }
IsFenced-with_owner f g h fenced t p = record {
  reached = h.reached;
  forward_fenced = (rw t fenced.0, λ b. rw t (fenced.1 (p b)));
  candidate_fenced = h.candidate_fenced;
}

-- The record may change as long as its token stays and no preparation starts.
pub with_forward_IsFenced :
    {n : ℕ} {s : State} (f g : ForwardRecord)
    → IsFenced n s
    → s.forward ≡ some f
    → g.owner.fencing_token ≡ f.owner.fencing_token
    → (in_phase preparing g ≡ true → in_phase preparing f ≡ true)
    → IsFenced n record s { forward = some g }
with_forward_IsFenced f g h e t p = IsFenced-with_owner f g h (forward_of h e) t p

pub without_candidate_IsFenced :
    {n : ℕ} {s : State} → IsFenced n s → IsFenced n record s { candidate = none }
without_candidate_IsFenced h = record {
  reached = h.reached;
  forward_fenced = h.forward_fenced;
  candidate_fenced = tt;
}

-- A phase other than `Preparing`
pub with_phase_IsFenced :
    {n : ℕ} {s : State} (f g : ForwardRecord)
    → IsFenced n s
    → s.forward ≡ some f
    → g.owner ≡ f.owner
    → in_phase preparing g ≡ false
    → IsFenced n record s { forward = some g }
with_phase_IsFenced f g h e t p = with_forward_IsFenced f g h e (cc) (λ b. ground arith)

-- The record that `rollback_replacement` stores is fenced.
pub settled-IsFenced :
    {n : ℕ} {s : State} (b : Bool) (f : ForwardRecord)
    → IsFenced n s
    → s.forward ≡ some f
    → IsFenced n record s { forward = some (settled b f); candidate = none }
unfolding settled Phase-discrete
settled-IsFenced true f h e =
    without_candidate_IsFenced (with_forward_IsFenced f f h e refl (λ b. b))
settled-IsFenced false f h e =
    without_candidate_IsFenced
      (with_forward_IsFenced f record f { phase = revoked } h e refl (λ b. ground arith))

-- A record of the same owner in the same phase
pub same_phase_IsFenced :
    {n : ℕ} {s : State} (f g : ForwardRecord)
    → IsFenced n s
    → s.forward ≡ some f
    → g.owner ≡ f.owner
    → g.phase ≡ f.phase
    → IsFenced n record s { forward = some g }
same_phase_IsFenced f g h e t p =
    with_forward_IsFenced f g h e (ap (λ o. o.fencing_token) t)
      (subst (λ q. same Phase-discrete q preparing ≡ true) p)

pub creation_IsFenced :
    {n : ℕ} {s : State} (ifindex : Option ℕ) (boot_id : List ℕ)
    → IsFenced n s
    → IsFenced n record s { ifindex = ifindex; creation_pending = false; boot_id = boot_id }
creation_IsFenced ifindex boot_id h = record {
  reached = h.reached;
  forward_fenced = h.forward_fenced;
  candidate_fenced = h.candidate_fenced;
}
