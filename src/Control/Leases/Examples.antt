-- ===== src/Control/Leases/Examples.antt =====
-- lease-manager.ts: small stores, and the laws at them.
use bidirectional_bridge_cla.Prelude.{ℕ, ◌≡◌, refl, false, none, some, List, [], ◌∷◌, ok}
use bidirectional_bridge_cla.Protocol.Path.{
  Text, normalize_path, collapse, strip_dot_slash, strip_slashes, split_slash,
}
use bidirectional_bridge_cla.Protocol.Glob.Regexp.{test, match_any_run, match_segment_run}
use bidirectional_bridge_cla.Protocol.Glob.Compile.{
  compile, glob_loop, matches_glob, glob_to_regexp, globs_overlap, literal_prefix, overlap_beyond,
  prefixes_overlap,
}
use bidirectional_bridge_cla.Protocol.Scope.{
  codes, scope_allows, is_read_only_scope, every_of, some_of, is_read_only_pattern,
  conflicting_pairs, pairs_between, pairs_with, normalize_scope, normalize_all, add_seen, sort,
  insert_sorted,
}
use bidirectional_bridge_cla.Protocol.Records.{LeaseId, Lease, LeaseState}
use bidirectional_bridge_cla.Control.Samples.{nothing}
use bidirectional_bridge_cla.Control.Table.{get, replace}
use bidirectional_bridge_cla.Control.Store.{
  Store, get_lease, list_held_leases, open_leases, insert_by_acquisition, get_execution,
  insert_lease, update_lease, append_event,
}
use bidirectional_bridge_cla.Control.Leases.{
  AcquireLeaseInput, acquire_checked, find_conflicts, conflicts_among, conflict_of, is_live,
}
use bidirectional_bridge_cla.Control.Leases.Holding.{
  assert_writable, require_lease, is_quarantined_path, acquire, acquire_scope, acquire_unless,
  renew, release, reap_expired, reap_loop,
}
use bidirectional_bridge_cla.Control.Leases.Exclusive.{Exclusive}
use bidirectional_bridge_cla.Control.Leases.Writers.{
  LeaseCall, acquires, renews, reaps, run_leases, lease_call, run_leases-Exclusive,
}
use bidirectional_bridge_cla.Control.Leases.Single.{
  no_leases-Exclusive, single_writer, quarantine_fences,
}

abbrev input : ℕ → ℕ → Text → AcquireLeaseInput
input task holder path = record {
  task_id = task;
  holder = holder;
  scope = record { paths = path ∷ []; note = none };
  ttl_ms = 100;
}

-- Two agents acquire, the second is refused the first one's files, and the first renews.
abbrev story : List (ℕ × LeaseCall)
story =
    (1, acquires nothing (input 1 8 (codes "src/**")) 1 2)
    ∷ (1, acquires nothing (input 2 9 (codes "src/a.ts")) 2 1)
    ∷ (1, acquires nothing (input 2 9 (codes "docs")) 3 1)
    ∷ (1, acquires nothing (input 1 8 (codes "src/a.ts")) 4 1)
    ∷ (5, renews 1 8 300)
    ∷ (0, reaps)
    ∷ []

abbrev agent : ℕ
agent = 8

abbrev end : Store
end = (run_leases 0 story nothing).1

run_leases-Exclusive_example : Exclusive (run_leases 0 story nothing).0 end
run_leases-Exclusive_example =
    run_leases-Exclusive story 0 nothing (no_leases-Exclusive 0 nothing refl)

single_writer_example :
    (agent ≡ agent)
    × ((l : Lease) × (m : Lease) × (get_lease end 1 ≡ some l)
        × (get_lease end 4 ≡ some m)
        × (l.task_id ≡ m.task_id))
unfolding run_leases lease_call acquire acquire_scope acquire_unless acquire_checked find_conflicts
    conflicts_among conflict_of is_live get_execution conflicting_pairs pairs_between pairs_with
    globs_overlap literal_prefix overlap_beyond prefixes_overlap insert_lease append_event
    update_lease replace renew release reap_expired reap_loop normalize_scope normalize_all add_seen
    sort insert_sorted assert_writable require_lease get_lease get is_quarantined_path
    list_held_leases open_leases insert_by_acquisition scope_allows is_read_only_scope every_of
    some_of is_read_only_pattern normalize_path collapse strip_dot_slash strip_slashes split_slash
    matches_glob glob_to_regexp compile glob_loop test match_any_run match_segment_run
single_writer_example =
    single_writer story 0 nothing 1 4 agent agent (codes "src/a.ts") refl refl refl refl

abbrev a_lease : LeaseId → LeaseState → Text → Lease
a_lease id state path = record {
  lease_id = id;
  task_id = id;
  holder = 8;
  scope = record { paths = path ∷ []; note = none };
  state = state;
  acquired_at = 0;
  expires_at = 90;
  released_at = none;
}

abbrev fenced : Store
fenced = record nothing {
  leases =
      a_lease 1 LeaseState.held (codes "src/**")
      ∷ a_lease 2 LeaseState.quarantined (codes "docs/**")
      ∷ [];
}

quarantine_fences_example :
    scope_allows (record { paths = codes "docs/**" ∷ []; note = none }) (codes "src/a") ≡ ok false
unfolding assert_writable require_lease get_lease get is_quarantined_path list_held_leases
    open_leases insert_by_acquisition scope_allows is_read_only_scope every_of some_of
    is_read_only_pattern normalize_path collapse strip_dot_slash strip_slashes split_slash
    matches_glob glob_to_regexp compile glob_loop test match_any_run match_segment_run
quarantine_fences_example =
    quarantine_fences fenced 1 2 8 (codes "src/a") 50
      (a_lease 2 LeaseState.quarantined (codes "docs/**")) refl refl refl (λ e. cc)
