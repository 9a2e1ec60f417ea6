-- ===== src/Control/Samples.antt =====
-- Small rows and an empty store, for the examples of each component.
use bidirectional_bridge_cla.Prelude.{none, Option, List, [], ◌∷◌}
use bidirectional_bridge_cla.Protocol.Lifecycle.{TaskState}
use bidirectional_bridge_cla.Protocol.Scope.{codes}
use bidirectional_bridge_cla.Protocol.Records.{TaskId, AgentId, TaskSpec, Task}
use bidirectional_bridge_cla.Control.Rows.{Store}

abbrev pub nothing : Store
nothing = record {
  tasks = [];
  dependencies = [];
  attempts = [];
  telemetry = [];
  observations = [];
  leases = [];
  executions = [];
  deliverables = [];
  verifications = [];
  statuses = [];
  events = [];
  idempotency = [];
  artifacts = [];
  memory_notes = [];
  operations = [];
}

abbrev pub a_spec : List TaskId → TaskSpec
a_spec deps = record {
  objective = codes "fix";
  scope = record { paths = codes "src//a" ∷ []; note = none };
  dependencies = deps;
  expected_deliverable = codes "patch";
  verification_criteria = codes "tests" ∷ [];
  preferred_agent = none;
  deadline_ms = none;
  max_turns = none;
  telemetry_mode = none;
  priority = none;
  tags = none;
}

abbrev pub a_task : TaskId → TaskState → Option AgentId → Task
a_task id state owner = record {
  task_id = id;
  run_id = 1;
  parent_task_id = none;
  delegation_depth = 0;
  spec = a_spec [];
  state = state;
  owner = owner;
  created_by = 7;
  created_at = 0;
  updated_at = 0;
  claimed_at = none;
  completed_at = none;
  blockers = [];
  version = 3;
  attempt = 0;
}
