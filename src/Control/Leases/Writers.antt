-- ===== src/Control/Leases/Writers.antt =====
-- lease-manager.ts: histories of calls, and who may write a path after them.
use bidirectional_bridge_cla.Prelude.{ℕ, ◌+◌, ◌≡◌, refl, List, [], ◌∷◌, arith, Result, ok, err}
use bidirectional_bridge_cla.Protocol.Records.{LeaseId, AgentId}
use bidirectional_bridge_cla.Control.Store.{Store, ExecutionRecord}
use bidirectional_bridge_cla.Control.Leases.{AcquireLeaseInput}
use bidirectional_bridge_cla.Control.Leases.Holding.{
  renew, release, quarantine, confirm_stopped, reap_expired, acquire,
}
use bidirectional_bridge_cla.Control.Leases.Exclusive.{Exclusive, later-Exclusive, rows-Exclusive}
use bidirectional_bridge_cla.Control.Leases.Keeps.{
  acquire-Exclusive, renew-Exclusive, release-Exclusive, quarantine-Exclusive,
  confirm_stopped-Exclusive, reap_expired-Exclusive,
}

-- A call of `LeaseManager`. An acquisition looks first at the store `seen`, and `wait` later at the
-- store itself. Between the calls the executions may change in any way.
pub data LeaseCall : Type 0 where
  acquires : (seen : Store) (input : AcquireLeaseInput) (id : LeaseId) (wait : ℕ) → LeaseCall
  renews : (id : LeaseId) (holder : AgentId) (ttl : ℕ) → LeaseCall
  gives_back quarantines confirms : (id : LeaseId) (holder : AgentId) → LeaseCall
  reaps : LeaseCall
  executes : (executions : List ExecutionRecord) → LeaseCall

abbrev kept {ℓ} : {A : Type ℓ} → Store → Result (A × Store) → Store
kept s (ok (a, s')) = s'
kept s (err code) = s

unfoldable pub lease_call : ℕ → LeaseCall → Store → Store
lease_call now (acquires seen input id wait) s = (acquire seen input id now (now + wait) s).1
lease_call now (renews id holder ttl) s = kept s (renew s id holder ttl now)
lease_call now (gives_back id holder) s = kept s (release s id holder now)
lease_call now (quarantines id holder) s = kept s (quarantine s id holder now)
lease_call now (confirms id holder) s = kept s (confirm_stopped s id holder now)
lease_call now reaps s = kept s (reap_expired s now)
lease_call now (executes executions) s = record s { executions = executions }

-- The time at which the call ends.
abbrev pub time_after : ℕ → LeaseCall → ℕ
time_after now (acquires seen input id wait) = now + wait
time_after now _ = now

-- The clock advances by `pause` before each call.
unfoldable pub run_leases : ℕ → List (ℕ × LeaseCall) → Store → ℕ × Store
unfolding lease_call
run_leases now [] s = (now, s)
run_leases now ((pause, c) ∷ cs) s =
    run_leases (time_after (now + pause) c) cs (lease_call (now + pause) c s)

module _ (now : ℕ) (s : Store) (x : Exclusive now s) where
  kept-Exclusive {ℓ} :
      {A : Type ℓ} (r : Result (A × Store))
      → ((a : A) (s' : Store) → r ≡ ok (a, s') → Exclusive now s')
      → Exclusive now (kept s r)
  kept-Exclusive (ok (a, s')) f = f a s' refl
  kept-Exclusive (err code) f = x

  lease_call-Exclusive : (c : LeaseCall) → Exclusive (time_after now c) (lease_call now c s)
  unfolding lease_call
  lease_call-Exclusive (acquires seen input id wait) =
      acquire-Exclusive seen input id now (now + wait) s
        (later-Exclusive now (now + wait) s (omega arith) x)
  lease_call-Exclusive (renews id holder ttl) =
      kept-Exclusive (renew s id holder ttl now)
        (λ l s' e. renew-Exclusive s id holder ttl now l s' x e)
  lease_call-Exclusive (gives_back id holder) =
      kept-Exclusive (release s id holder now)
        (λ l s' e. release-Exclusive s id holder now l s' x e)
  lease_call-Exclusive (quarantines id holder) =
      kept-Exclusive (quarantine s id holder now)
        (λ l s' e. quarantine-Exclusive s id holder now l s' x e)
  lease_call-Exclusive (confirms id holder) =
      kept-Exclusive (confirm_stopped s id holder now)
        (λ l s' e. confirm_stopped-Exclusive s id holder now l s' x e)
  lease_call-Exclusive reaps =
      kept-Exclusive (reap_expired s now) (λ l s' e. reap_expired-Exclusive s now l s' x e)
  lease_call-Exclusive (executes executions) = rows-Exclusive now s _ refl x

-- After any history of lease calls that begins in a store where this holds, at the time at which
-- it ends, two leases that are held and not expired belong to one holder and task, or their scopes
-- do not conflict; and the globs of every lease are normalised.
pub run_leases-Exclusive :
    (cs : List (ℕ × LeaseCall)) (now : ℕ) (s : Store)
    → Exclusive now s
    → Exclusive (run_leases now cs s).0 (run_leases now cs s).1
unfolding run_leases
run_leases-Exclusive [] now s x = x
run_leases-Exclusive ((pause, c) ∷ cs) now s x =
    run_leases-Exclusive cs (time_after (now + pause) c) (lease_call (now + pause) c s)
      (lease_call-Exclusive (now + pause) s (later-Exclusive now (now + pause) s (omega arith) x) c)
