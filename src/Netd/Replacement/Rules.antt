-- ===== src/Netd/Replacement/Rules.antt =====
-- What of the old record a method leaves, part by part.
use candy_runtime.Prelude.{Bool, true, false, ◌≡◌, Option, none, some, Result, ok, err, arith}
use mathlib.Core.Path.{subst}
use candy_runtime.Proto.Error.{NetdProtocolError}
use candy_runtime.Netd.Record.{TransactionRecord, NetworkError}
use candy_runtime.Netd.Interface.{
  ⊤, Tx, Call, NetworkBackend, NetworkJournal, NetworkTransaction, ◌>>=◌, ◌>>◌, save, replace,
  current, continue, raise, attempt, ignore, on_backend,
}
use candy_runtime.Netd.Triple.{
  Triple, Pred, Post, Implies, keep_pure, keep_raise, current_rule, weaken,
}
use candy_runtime.Netd.Transaction.Replace.{or_restore, restored_by}
use candy_runtime.Netd.Transaction.Policy.{when}
use candy_runtime.Netd.Transaction.Lifecycle.{valid_or_backend}

-- The two records agree in what it takes to serve the old declaration, or to remove it.
pub record IsLike (r q : TransactionRecord) : Type 0 where
  pub owned : q.owner ≡ r.owner
  pub declared : q.declaration ≡ r.declaration
  pub stepped : q.completed_steps ≡ r.completed_steps
  pub saved : q.sysctls ≡ r.sysctls

abbrev pub IsKept : TransactionRecord → Option TransactionRecord → Type 0
IsKept r none = true ≡ false
IsKept r (some q) = IsLike r q

abbrev pub Kept : {B J : Type 0} → TransactionRecord → Pred B J
Kept r s = IsKept r s.retained

abbrev pub Anything : {B J : Type 0} → Pred B J
Anything s = Unit

-- An error leaves what matters of the record `r`, and so does a success.
abbrev pub Keeps : {B J A : Type 0} → TransactionRecord → Tx B J A → Type 0
Keeps r m = Triple (Kept r) m (Kept r) (Kept r)

-- An error leaves what matters of the record `r`.
abbrev pub Guards : {B J A : Type 0} → TransactionRecord → Tx B J A → Type 0
Guards r m = Triple (Kept r) m Anything (Kept r)

module _ {B J : Type 0} ⦃backend : NetworkBackend B⦄ ⦃journal : NetworkJournal J⦄
    (r : TransactionRecord) where
  pub raises : Implies {B = B} {J = J} (Kept r) (Kept r)
  raises s p = p

  forgets : Implies {B = B} {J = J} (Kept r) Anything
  forgets s p = tt

  pub loosely : {A : Type 0} {m : Tx B J A} → Keeps r m → Guards r m
  loosely h = weaken raises forgets h

  pub backend_kept : {A : Type 0} (f : Call B A) → Keeps {J = J} r (on_backend f)
  unfolding on_backend
  backend_kept f = record { run = λ s p. ground arith }

  pub save_kept : (q : TransactionRecord) → IsLike r q → Keeps {B = B} {J = J} r (save q)
  unfolding save ◌>>=◌
  save_kept q h = record { run = λ s p. ground arith }

  pub replace_kept : (q : TransactionRecord) → IsLike r q → Keeps {B = B} {J = J} r (replace q)
  unfolding replace ◌>>=◌
  replace_kept q h = record { run = λ s p. ground arith }

  -- A record that cannot be stored does not take the place of the old one.
  pub replace_guarded : (q : TransactionRecord) → Guards {B = B} {J = J} r (replace q)
  unfolding replace ◌>>=◌
  replace_guarded q = record { run = λ s p. ground arith }

  pub attempt_kept : {A : Type 0} {m : Tx B J A} → Keeps r m → Keeps r (attempt m)
  unfolding attempt
  attempt_kept {A = A} {m = m} h = record { run = λ s p. go (m s) (h.run s p) }
    where
      go :
          (q : Result NetworkError A × NetworkTransaction B J)
          → Post (Kept r) (Kept r) q
          → Kept r q.1
      go (ok a, s) p = p
      go (err e, s) p = p

  pub ignore_kept : {m : Tx B J ⊤} → Keeps r m → Keeps r (ignore m)
  unfolding ignore
  ignore_kept {m = m} h = record { run = λ s p. go (m s) (h.run s p) }
    where
      go :
          (q : Result NetworkError ⊤ × NetworkTransaction B J)
          → Post (Kept r) (Kept r) q
          → Kept r q.1
      go (ok a, s) p = p
      go (err e, s) p = p

  pub current_kept :
      {A : Type 0} {Q : Pred B J} {f : TransactionRecord → Tx B J A}
      → ((q : TransactionRecord) → IsLike r q → Triple (Kept r) (f q) Q (Kept r))
      → Triple (Kept r) (current >>= f) Q (Kept r)
  current_kept h =
      current_rule raises (λ q. record { run = λ s p. (h q (subst (IsKept r) p.1 p.0)).run s p.0 })

  pub when_kept : (b : Bool) {m : Tx B J ⊤} → Keeps r m → Keeps r (when b m)
  when_kept true h = h
  when_kept false h = keep_pure tt

  pub valid_kept : (v : Result NetdProtocolError ⊤) → Keeps {B = B} {J = J} r (valid_or_backend v)
  valid_kept (ok v) = keep_pure v
  valid_kept (err e) = keep_raise raises _

  raised :
      (p : Result NetworkError ⊤ × NetworkTransaction B J) (e : NetworkError)
      → Post (Kept r) (Kept r) p
      → Kept r (continue p (λ _. raise {A = ⊤} e)).1
  unfolding raise
  raised (ok done, s) e h = h
  raised (err x, s) e h = h

  restored :
      (Q : Pred B J) (p : Result NetworkError ⊤ × NetworkTransaction B J) (k : Tx B J ⊤)
      → Post Q (Kept r) p
      → Keeps r k
      → Post Q (Kept r) (restored_by p k)
  unfolding ◌>>◌
  restored Q (ok done, s) k h hk = h
  restored Q (err e, s) k h hk = ground (arith, raised (k s) e (hk.run s h))

  -- A change that is undone where it fails.
  pub restoring :
      {Q : Pred B J} {m k : Tx B J ⊤}
      → Triple (Kept r) m Q (Kept r)
      → Keeps r k
      → Triple (Kept r) (or_restore m k) Q (Kept r)
  restoring {Q = Q} {m = m} {k = k} h hk = record { run = λ s p. restored Q (m s) k (h.run s p) hk }
