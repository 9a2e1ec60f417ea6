-- ===== src/Control/Memory/Reading.antt =====
-- memory-service.ts: the reading of notes, and `getChanges`, after the check of the scope. `Sizes` holds
-- the size of its response in JSON.
use bidirectional_bridge_cla.Prelude.{
  ℕ, suc, Bool, false, not, ◌||◌, Option, none, some, List, [], ◌∷◌, ◌++◌, ◌==◌, ltb, length, take,
  map, is_empty, text_eq, if◌then◌else◌, Result, ok, err, ◌>>=◌, ◌>>◌, throw_if, invalid_argument,
  internal,
}
use bidirectional_bridge_cla.Protocol.Path.{Text}
use bidirectional_bridge_cla.Protocol.Memory.{MemoryScope, MemoryNote, MemoryArtifactReference}
use bidirectional_bridge_cla.Control.Store.{Store, Artifact, last_event_id}
use bidirectional_bridge_cla.Control.Memory.Table.{get_artifact, list_memory_changes}

pub data ReferenceStatus : Type 0 where
  intact missing hash_mismatch content_changed context_mismatch : ReferenceStatus

pub record MemoryReadNote : Type 0 where
  pub note : MemoryNote
  pub reference_states : List (ℕ × ReferenceStatus)

-- `note.scope.epoch !== null && ref.source_epoch !== undefined && ref.source_epoch !== …`.
abbrev pub other_epoch : Option Text → Option Text → Bool
other_epoch (some epoch) (some source) = not (text_eq source epoch)
other_epoch _ _ = false

abbrev pub status_of :
    Option Artifact
    → (is_intact : Bool) → (epoch : Option Text) → MemoryArtifactReference
    → ReferenceStatus
status_of none is_intact epoch ref = missing
status_of (some artifact) is_intact epoch ref =
    if not (artifact.sha256 == ref.sha256)
    then hash_mismatch
    else if not is_intact
    then content_changed
    else if other_epoch epoch ref.source_epoch
    then context_mismatch
    else intact

-- A number that a caller may leave out, in its range.
unfoldable pub integer : Option ℕ → (fallback least most : ℕ) → Result ℕ
integer value fallback least most =
    let selected : ℕ = elim value [ none ↦ fallback | some v ↦ v ] in
    do throw_if (ltb selected least || ltb most selected) invalid_argument; ok selected

pub record ChangesPage : Type 0 where
  pub scope : MemoryScope
  pub changes : List MemoryReadNote
  pub change_cursor : ℕ
  pub head_cursor : ℕ
  pub has_more : Bool

pub record Sizes : Type 0 where
  pub changes_bytes : ChangesPage → ℕ

pub record MemoryChangesInput : Type 0 where
  pub scope : MemoryScope
  pub change_cursor : Option ℕ
  pub until_cursor : Option ℕ
  pub limit : Option ℕ
  pub max_bytes : Option ℕ

abbrev pub closed : List MemoryNote → ChangesPage → ChangesPage
closed rows page = record page { has_more = ltb (length page.changes) (length rows) }

abbrev pub empty_page : MemoryScope → (after head : ℕ) → ChangesPage
empty_page scope after head = record {
  scope = scope;
  changes = [];
  change_cursor = after;
  head_cursor = head;
  has_more = false;
}

module _ (is_intact : (artifact_id : ℕ) → Bool) where
  unfoldable pub read_note : Store → MemoryNote → MemoryReadNote
  read_note s note = record {
    note = note;
    reference_states =
        map
          (λ ref. (
            ref.artifact_id,
            status_of (get_artifact s ref.artifact_id) (is_intact ref.artifact_id) note.scope.epoch
                ref,
          ))
          note.draft.references;
  }

module _ (is_intact : (artifact_id : ℕ) → Bool) (sizes : Sizes) where
  abbrev pub with_change : Store → ChangesPage → MemoryNote → ChangesPage
  with_change s page row = record page {
    changes = page.changes ++ read_note is_intact s row ∷ [];
    change_cursor = row.change_cursor;
  }

  -- The loop over the rows: a change that does not fit ends the page, or is refused if it is the
  -- first.
  unfoldable pub changes_loop :
      Store → (budget : ℕ) → List MemoryNote → ChangesPage → Result ChangesPage
  changes_loop s budget [] page = ok page
  changes_loop s budget (row ∷ rows) page =
      let more = changes_loop s budget rows (with_change s page row) in
      let ended = if is_empty page.changes then err invalid_argument else ok page in
      if ltb budget (sizes.changes_bytes (with_change s page row)) then ended else more

  unfoldable pub fill_changes :
      Store → MemoryScope → (after head limit budget : ℕ) → Result ChangesPage
  fill_changes s scope after head limit budget = do
    let rows = list_memory_changes s scope after head (suc limit)
    throw_if (ltb budget (sizes.changes_bytes (empty_page scope after head))) invalid_argument
    page ← changes_loop s budget (take limit rows) (empty_page scope after head)
    throw_if (ltb budget (sizes.changes_bytes (closed rows page))) internal
    ok (closed rows page)

  unfoldable pub get_changes : Store → MemoryChangesInput → Result ChangesPage
  unfolding integer
  get_changes s input = do
    limit ← integer input.limit 25 1 100
    budget ← integer input.max_bytes 16384 2048 65536
    head ← integer input.until_cursor (last_event_id s.events) 0 (last_event_id s.events)
    after ← integer input.change_cursor 0 0 head
    fill_changes s input.scope after head limit budget
