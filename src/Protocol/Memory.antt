-- ===== src/Protocol/Memory.antt =====
-- shared/protocol/src/memory.ts: the notes that the agents share. Identifiers of tasks, artifacts
-- and agents, and hashes, stand as numbers.
use bidirectional_bridge_cla.Prelude.{
  ℕ, ◌≡◌, refl, ap, Bool, true, false, ◌&&◌, Option, none, some, List, text_eq, text_eq_refl,
  text_eq-eq, and-true,
}
use bidirectional_bridge_cla.Protocol.Path.{Text}

pub data Namespace : Type 0 where
  development bug_bounty : Namespace

pub record MemoryScope : Type 0 where
  pub namespace : Namespace
  pub context_id : Text
  pub branch : Option Text
  pub application_version : Option Text
  pub epoch : Option Text

pub data MemoryLifecycle : Type 0 where
  active superseded archived : MemoryLifecycle

pub data MemoryKind : Type 0 where
  context decision observation next_action abandoned_track : MemoryKind

pub record MemoryArtifactReference : Type 0 where
  pub artifact_id : ℕ
  pub sha256 : ℕ
  pub record_type : Option Text
  pub record_id : Option Text
  pub source_revision : Option Text
  pub source_epoch : Option Text

pub record Abandonment : Type 0 where
  pub reason : Text
  pub tested_conditions : Text
  pub reopen_when : Text

pub record MemoryNoteDraft : Type 0 where
  pub kind : MemoryKind
  pub title : Text
  pub summary : Text
  pub lifecycle : MemoryLifecycle
  pub references : List MemoryArtifactReference
  pub related_task_ids : List ℕ
  pub abandonment : Option Abandonment

pub record Provenance : Type 0 where
  pub agent : ℕ
  pub task_id : ℕ
  pub run_id : ℕ
  pub attempt : ℕ

-- The fields of the draft are held together in `draft`.
pub record MemoryNote : Type 0 where
  pub scope : MemoryScope
  pub key : Text
  pub revision : ℕ
  pub draft : MemoryNoteDraft
  pub change_cursor : ℕ
  pub at : ℕ
  pub provenance : Provenance

abbrev pub same_namespace : Namespace → Namespace → Bool
same_namespace development development = true
same_namespace bug_bounty bug_bounty = true
same_namespace _ _ = false

abbrev pub same_text? : Option Text → Option Text → Bool
same_text? none none = true
same_text? (some a) (some b) = text_eq a b
same_text? _ _ = false

-- `memoryScopeKey(a) === memoryScopeKey(b)`: the key is the list of the five fields in JSON.
unfoldable pub same_scope : MemoryScope → MemoryScope → Bool
same_scope a b =
    same_namespace a.namespace b.namespace
    && (text_eq a.context_id b.context_id
        && (same_text? a.branch b.branch
            && (same_text? a.application_version b.application_version
                && same_text? a.epoch b.epoch)))

same_namespace-eq : (a b : Namespace) → same_namespace a b ≡ true → a ≡ b
same_namespace-eq development development h = refl
same_namespace-eq bug_bounty bug_bounty h = refl
same_namespace-eq development bug_bounty h = cc
same_namespace-eq bug_bounty development h = cc

same_text?-eq : (a b : Option Text) → same_text? a b ≡ true → a ≡ b
same_text?-eq none none h = refl
same_text?-eq none (some b) h = cc
same_text?-eq (some a) none h = cc
same_text?-eq (some a) (some b) h = ap some (text_eq-eq a b h)

same_namespace_refl : (a : Namespace) → same_namespace a a ≡ true
same_namespace_refl development = refl
same_namespace_refl bug_bounty = refl

same_text?_refl : (a : Option Text) → same_text? a a ≡ true
same_text?_refl none = refl
same_text?_refl (some a) = text_eq_refl a

pub same_scope-eq : (a b : MemoryScope) → same_scope a b ≡ true → a ≡ b
unfolding same_scope
same_scope-eq a b h =
    let (n, h1) = and-true (same_namespace a.namespace b.namespace) _ h in
    let (c, h2) = and-true (text_eq a.context_id b.context_id) _ h1 in
    let (g, h3) = and-true (same_text? a.branch b.branch) _ h2 in
    let (v, e) = and-true (same_text? a.application_version b.application_version) _ h3 in
    same_fields a b (same_namespace-eq _ _ n) (text_eq-eq _ _ c) (same_text?-eq _ _ g)
      (same_text?-eq _ _ v) (same_text?-eq _ _ e)
  where
    same_fields :
        (a b : MemoryScope)
        → a.namespace ≡ b.namespace
        → a.context_id ≡ b.context_id
        → a.branch ≡ b.branch
        → a.application_version ≡ b.application_version
        → a.epoch ≡ b.epoch
        → a ≡ b
    same_fields a b n c g v e = λ i. record {
      namespace = n i;
      context_id = c i;
      branch = g i;
      application_version = v i;
      epoch = e i;
    }

pub same_scope_refl : (a : MemoryScope) → same_scope a a ≡ true
unfolding same_scope
same_scope_refl a =
    rw
      (
        same_namespace_refl a.namespace,
        text_eq_refl a.context_id,
        same_text?_refl a.branch,
        same_text?_refl a.application_version,
        same_text?_refl a.epoch,
      )
      refl
