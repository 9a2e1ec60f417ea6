-- ===== src/Control/Store/Laws.antt =====
-- What the statements on the tables do to the reads that follow.
use bidirectional_bridge_cla.Prelude.{
  ◌+◌, ◌≡◌, refl, Option, none, some, List, [], ◌∷◌, ◌++◌, arith, ◌==◌, is_some, if◌then◌else◌,
  or_else, Bool-cases, ==_iff, inl, inr, internal, Result, ok, err,
}
use bidirectional_bridge_cla.Protocol.Records.{TaskId, Task}
use bidirectional_bridge_cla.Control.Table.{get, replace, get-replace, get-append, get-key}
use bidirectional_bridge_cla.Control.Store.{
  Store, get_task, set_columns, update_task, insert_task, add_dependencies,
}

-- The store with one row of the tasks set.
abbrev pub with_task : Store → Task → Store
with_task s t = record s { tasks = replace (λ x. x.task_id) t s.tasks }

-- What an accepted UPDATE tells of the row before it.
pub record Updates (s : Store) (task : Task) (s' : Store) : Type 0 where
  pub row : Task
  pub found : get_task s task.task_id ≡ some row
  pub next : task.version ≡ row.version + 1
  pub stored : s' ≡ with_task s (set_columns row task)

replaced :
    (k : TaskId) (row task : Task) (ts : List Task)
    → get (λ t. t.task_id) task.task_id ts ≡ some row
    → get (λ t. t.task_id) k (replace (λ t. t.task_id) (set_columns row task) ts)
      ≡ (if task.task_id == k then some (set_columns row task) else get (λ t. t.task_id) k ts)
replaced k row task ts e =
    let same : row.task_id ≡ task.task_id = get-key (λ t. t.task_id) task.task_id row ts e in
    rw (get-replace (λ t. t.task_id) k (set_columns row task) ts, same)
      (elim (Bool-cases (task.task_id == k)) [
        | inl hit ↦ rw (hit, ← (==_iff task.task_id k).0 hit, e)
        | inr miss ↦ rw miss
      ])

-- Every read after it.
pub get_task-Updates :
    (s : Store) (task : Task) (s' : Store) (u : Updates s task s') (k : TaskId)
    → get_task s' k ≡ (if task.task_id == k then some (set_columns u.row task) else get_task s k)
unfolding get_task
get_task-Updates s task s' u k = rw u.stored (replaced k u.row task s.tasks u.found)

pub update_task-Updates :
    (s : Store) (task : Task) (s' : Store) → update_task s task ≡ ok s' → Updates s task s'
unfolding update_task
update_task-Updates s task s' h = cases (get_task s task.task_id) refl h
  where
    cases :
        (o : Option Task)
        → get_task s task.task_id ≡ o
        → (elim o as (λ _. Result Store) [
          | none ↦ err internal
          | some row ↦
              if row.version + 1 == task.version
              then ok (with_task s (set_columns row task))
              else err internal
        ])
          ≡ ok s'
        → Updates s task s'
    cases none e h = cc
    cases (some row) e h = record {
      row = row;
      found = e;
      next = ground arith;
      stored = ground arith;
    }

-- The key under which a row is read is its own.
pub get_task-key : (s : Store) (id : TaskId) (t : Task) → get_task s id ≡ some t → t.task_id ≡ id
unfolding get_task
get_task-key s id t h = get-key (λ x. x.task_id) id t s.tasks h

abbrev pub with_new_task : Store → Task → Store
with_new_task s task = record s {
  tasks = s.tasks ++ task ∷ [];
  dependencies = add_dependencies task.task_id task.spec.dependencies s.dependencies;
}

-- An accepted INSERT found no row of the key.
pub insert_task-cases :
    (s : Store) (task : Task) (s' : Store)
    → insert_task s task ≡ ok s'
    → (get_task s task.task_id ≡ none) × (s' ≡ with_new_task s task)
unfolding insert_task
insert_task-cases s task s' h = cases (get_task s task.task_id) refl h
  where
    cases :
        (o : Option Task)
        → get_task s task.task_id ≡ o
        → (if is_some o then err internal else ok (with_new_task s task)) ≡ ok s'
        → (get_task s task.task_id ≡ none) × (s' ≡ with_new_task s task)
    cases none e h = (e, cc)
    cases (some t) e h = cc

pub get_task-insert :
    (s : Store) (task : Task) (k : TaskId)
    → get_task s task.task_id ≡ none
    → get_task (with_new_task s task) k ≡ (if task.task_id == k then some task else get_task s k)
unfolding get_task
get_task-insert s task k e =
    rw (get-append (λ t. t.task_id) k task s.tasks) (elim (Bool-cases (task.task_id == k)) [
      | inl hit ↦ rw (hit, ← (==_iff task.task_id k).0 hit, e)
      | inr miss ↦ rw miss (or_else-none (get (λ t. t.task_id) k s.tasks))
    ])
  where
    or_else-none : (o : Option Task) → or_else o none ≡ o
    or_else-none none = refl
    or_else-none (some t) = refl

-- The reads after a row has been set.
pub get_task-with_task :
    (s : Store) (old new : Task) (k : TaskId)
    → get_task s new.task_id ≡ some old
    → get_task (with_task s new) k ≡ (if new.task_id == k then some new else get_task s k)
unfolding get_task
get_task-with_task s old new k e =
    rw (get-replace (λ t. t.task_id) k new s.tasks) (elim (Bool-cases (new.task_id == k)) [
      | inl hit ↦ rw (hit, ← (==_iff new.task_id k).0 hit, e)
      | inr miss ↦ rw miss
    ])
