-- ===== src/Proto/Tests.antt =====
-- Runs of the protocol at concrete requests.
use candy_runtime.Prelude.{◌≡◌, ◌≤◌, refl, true, false, some, [], ◌∷◌, ok, err, ◌⊎◌, ℕ_discrete}
use candy_runtime.Proto.Error.{NetdProtocolError}
use candy_runtime.Proto.Prefix.{Ipv4Prefix, Bytes-discrete, new_prefix}
use candy_runtime.Proto.Declaration.{
  remote, management, PrepareDeclaration, validate_declaration, out_of_bounds, has_conflict,
  PrepareDeclaration-discrete,
}
use candy_runtime.Proto.Request.{
  LeaseOwner, NetdOperation, NetdRequest, validate_request, validate_owner, validate_operation,
}
use candy_runtime.Proto.Session.{NetdSession, stopped, active, new_session, apply, owner_mismatch}
use candy_runtime.Proto.Session.Atomic.{apply-atomic}
use candy_runtime.Proto.Session.Moves.{
  follows, may_change_generation, apply-follows, apply-owner, apply-stopped,
}
use candy_runtime.Proto.Session.Retry.{apply-again}
use candy_runtime.Proto.Session.Invariant.{IsValid, serve, serve_new-IsValid}

-- 10.0.0.0/24
abbrev pub lan : Ipv4Prefix
lan = record { network = 10 ∷ 0 ∷ 0 ∷ 0 ∷ []; prefix_len = 24 }

abbrev pub declared : PrepareDeclaration
declared = record {
  table_id = 20000;
  overlay_router_ipv4 = 100 ∷ 64 ∷ 0 ∷ 2 ∷ [];
  effective_mtu = 1200;
  routes = record { prefix = lan; kind = remote } ∷ [];
  exclusions =
      record {
        prefix = record { network = 192 ∷ 0 ∷ 2 ∷ 0 ∷ []; prefix_len = 24 };
        kind = management;
      }
      ∷ [];
  firewall = record {
    allow_forward = true;
    clamp_tcp_mss = true;
    require_ipv4_forwarding = true;
    manage_rp_filter = true;
  };
}

-- The same with another routing table.
abbrev pub replacement : PrepareDeclaration
replacement = record declared { table_id = 20001 }

abbrev pub agent : LeaseOwner
agent = record {
  instance_id = 1 ∷ 0 ∷ 0 ∷ 0 ∷ 0 ∷ 0 ∷ 0 ∷ 0 ∷ 0 ∷ 0 ∷ 0 ∷ 0 ∷ 0 ∷ 0 ∷ 0 ∷ 0 ∷ [];
  pid = 40;
  generation = 7;
  lease_deadline_mono_ms = 5000;
}

abbrev pub stranger : LeaseOwner
stranger = record agent { pid = 41 }

abbrev ask : LeaseOwner → NetdOperation → NetdRequest
ask owner operation = record { request_id = 1; owner = owner; operation = operation }

abbrev running : NetdSession
running = record {
  phase = active;
  owner = some agent;
  declaration = some declared;
  replacement_pending = false;
}

abbrev resting : NetdSession
resting = record running { phase = stopped }

-- A host bit below the prefix length is refused.
lan_is_aligned :
    (new_prefix (10 ∷ 0 ∷ 0 ∷ 0 ∷ []) 24 ≡ ok lan)
    × (new_prefix (10 ∷ 0 ∷ 0 ∷ 1 ∷ []) 24 ≡ err NetdProtocolError.invalid_declaration)
unfolding new_prefix
lan_is_aligned = (refl, refl)

declared_is_valid : validate_declaration declared ≡ ok tt
unfolding validate_declaration out_of_bounds has_conflict Bytes-discrete ℕ_discrete
declared_is_valid = refl

-- An excluded prefix inside a route is a conflict.
excluded_route_is_refused :
    validate_declaration (record declared {
      exclusions =
          record {
            prefix = record { network = 10 ∷ 0 ∷ 0 ∷ 128 ∷ []; prefix_len = 25 };
            kind = management;
          }
          ∷ [];
    })
    ≡ err NetdProtocolError.invalid_declaration
unfolding validate_declaration out_of_bounds has_conflict Bytes-discrete ℕ_discrete
excluded_route_is_refused = refl

-- A first declaration, its replacement and the drain of the old one.
replaced :
    (serve
      (ask agent (NetdOperation.prepare declared)
        ∷ ask agent NetdOperation.commit
        ∷ ask (record agent { generation = 8 }) (NetdOperation.reconfigure replacement)
        ∷ ask (record agent { generation = 8 }) NetdOperation.commit
        ∷ ask (record agent { generation = 8 }) (NetdOperation.drain 1000)
        ∷ [])
      new_session)
    ≡ record {
      phase = active;
      owner = some (record agent { generation = 8 });
      declaration = some replacement;
      replacement_pending = false;
    }
unfolding apply validate_request validate_owner Bytes-discrete ℕ_discrete validate_operation
    validate_declaration out_of_bounds has_conflict PrepareDeclaration-discrete
replaced = refl

apply-atomic_example : (apply (ask stranger NetdOperation.suspend) running).1 ≡ running
unfolding apply validate_request validate_owner Bytes-discrete ℕ_discrete validate_operation
    validate_declaration out_of_bounds has_conflict PrepareDeclaration-discrete
apply-atomic_example =
    apply-atomic (ask stranger NetdOperation.suspend) running {e = owner_mismatch} refl

apply-follows_example :
    follows
      (NetdOperation.reconfigure replacement)
      active
      (apply (ask agent (NetdOperation.reconfigure replacement)) running).1.phase
    ≡ true
unfolding apply validate_request validate_owner Bytes-discrete ℕ_discrete validate_operation
    validate_declaration out_of_bounds has_conflict PrepareDeclaration-discrete
apply-follows_example =
    apply-follows (ask agent (NetdOperation.reconfigure replacement)) running refl

apply-owner_example :
    (agent.instance_id ≡ agent.instance_id)
    × (agent.pid ≡ agent.pid)
    × ((agent.generation ≡ agent.generation)
        ⊎ (may_change_generation NetdOperation.suspend active ≡ true))
unfolding apply validate_request validate_owner Bytes-discrete ℕ_discrete validate_operation
    validate_declaration out_of_bounds has_conflict PrepareDeclaration-discrete
apply-owner_example =
    apply-owner (ask agent NetdOperation.suspend) running {o = agent} refl refl refl

apply-stopped_example : agent.generation ≤ agent.generation
unfolding apply validate_request validate_owner Bytes-discrete ℕ_discrete validate_operation
    validate_declaration out_of_bounds has_conflict PrepareDeclaration-discrete
apply-stopped_example =
    apply-stopped (ask agent (NetdOperation.prepare declared)) resting {o = agent} refl refl refl

apply-again_example :
    let request = ask agent (NetdOperation.prepare declared) in
    apply request (apply request resting).1 ≡ (ok tt, (apply request resting).1)
unfolding apply validate_request validate_owner Bytes-discrete ℕ_discrete validate_operation
    validate_declaration out_of_bounds has_conflict PrepareDeclaration-discrete
apply-again_example = apply-again (ask agent (NetdOperation.prepare declared)) resting refl refl

serve_new-IsValid_example :
    IsValid (serve (ask agent (NetdOperation.prepare declared) ∷ []) new_session)
serve_new-IsValid_example = serve_new-IsValid (ask agent (NetdOperation.prepare declared) ∷ [])
