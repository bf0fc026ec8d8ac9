-- ===== src/Proto/Session/Invariant.antt =====
-- What every session that netd can reach satisfies.
use candy_runtime.Prelude.{
  ℕ, ◌≡◌, refl, Bool, true, false, Option, none, some, List, [], ◌∷◌, Result, ok, err, arith,
  is_some, Option-cases, inl, inr,
}
use candy_runtime.Proto.Error.{NetdProtocolError}
use candy_runtime.Proto.Declaration.{
  PrepareDeclaration, validate_declaration, out_of_bounds, has_conflict,
}
use candy_runtime.Proto.Request.{
  NetdOperation, NetdRequest, LeaseOwner, validate_request, validate_operation, is_valid_mtu,
}
use candy_runtime.Proto.Session.{
  SessionPhase, prepared, draining, NetdSession, new_session, is_stopped, apply_fenced,
  apply_validated, apply,
}

abbrev pub is_draining : SessionPhase → Bool
is_draining draining = true
is_draining _ = false

abbrev pub holds_replacement : SessionPhase → Bool
holds_replacement prepared = true
holds_replacement draining = true
holds_replacement _ = false

abbrev pub IsSound : Option PrepareDeclaration → Type 0
IsSound none = Unit
IsSound (some d) = validate_declaration d ≡ ok tt

pub record IsValid (s : NetdSession) : Type 0 where
  pub owned : is_stopped s.phase ≡ false → is_some s.owner ≡ true
  pub declared : is_stopped s.phase ≡ false → is_some s.declaration ≡ true
  pub marked : is_draining s.phase ≡ true → s.replacement_pending ≡ true
  pub staged : s.replacement_pending ≡ true → holds_replacement s.phase ≡ true
  pub sound : IsSound s.declaration

out_of_bounds-mtu :
    (d : PrepareDeclaration) (mtu : ℕ)
    → is_valid_mtu mtu ≡ true
    → out_of_bounds d ≡ false
    → out_of_bounds (record d { effective_mtu = mtu }) ≡ false
unfolding out_of_bounds
out_of_bounds-mtu d mtu m h = ground arith

has_conflict-mtu :
    (d : PrepareDeclaration) (mtu : ℕ)
    → has_conflict (record d { effective_mtu = mtu }) ≡ has_conflict d
unfolding has_conflict
has_conflict-mtu d mtu = refl

-- A smaller MTU in the permitted range keeps a declaration valid.
mtu_sound :
    (d : PrepareDeclaration) (mtu : ℕ)
    → validate_declaration d ≡ ok tt
    → is_valid_mtu mtu ≡ true
    → validate_declaration (record d { effective_mtu = mtu }) ≡ ok tt
unfolding validate_declaration
mtu_sound d mtu h m = ground (arith, out_of_bounds-mtu d mtu m, has_conflict-mtu d mtu)

apply_fenced-IsValid :
    (op : NetdOperation) (owner : LeaseOwner) (s : NetdSession)
    → validate_operation op ≡ ok tt
    → IsValid s
    → IsValid (apply_fenced op owner s).1
unfolding apply_fenced validate_operation
apply_fenced-IsValid NetdOperation.commit owner s v h = ground arith
apply_fenced-IsValid (NetdOperation.mtu_update mtu) owner s v h =
    elim (Option-cases s.declaration) [
      | inl e ↦ ground arith
      | inr (d, e) ↦ ground (arith, mtu_sound d mtu)
    ]
apply_fenced-IsValid op owner s v h = ground arith

-- A request that passed validation carries a valid operation.
valid_operation :
    (request : NetdRequest)
    → validate_request request ≡ ok tt
    → validate_operation request.operation ≡ ok tt
unfolding validate_request
valid_operation request h = ground arith

apply_validated-IsValid :
    (v : Result NetdProtocolError (Unit {0})) (request : NetdRequest) (s : NetdSession)
    → validate_request request ≡ v
    → IsValid s
    → IsValid (apply_validated v request s).1
apply_validated-IsValid (err x) request s e h = h
apply_validated-IsValid (ok tt) request s e h =
    apply_fenced-IsValid request.operation request.owner s (valid_operation request e) h

pub apply-IsValid :
    (request : NetdRequest) (s : NetdSession) → IsValid s → IsValid (apply request s).1
unfolding apply
apply-IsValid request s h = apply_validated-IsValid (validate_request request) request s refl h

-- The session after the requests, accepted or refused, in turn.
abbrev pub serve : List NetdRequest → NetdSession → NetdSession
serve [] s = s
serve (request ∷ rest) s = serve rest (apply request s).1

serve-IsValid :
    (requests : List NetdRequest) (s : NetdSession) → IsValid s → IsValid (serve requests s)
serve-IsValid [] s h = h
serve-IsValid (request ∷ rest) s h =
    serve-IsValid rest (apply request s).1 (apply-IsValid request s h)

-- After any requests to a new session: a session that is not stopped has an owner and a
-- declaration, a draining one is marked as a replacement, the mark stands only on a prepared or
-- draining session, and a retained declaration passes validation.
pub serve_new-IsValid : (requests : List NetdRequest) → IsValid (serve requests new_session)
serve_new-IsValid requests = serve-IsValid requests new_session (ground arith)
