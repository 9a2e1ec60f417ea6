-- ===== src/Control/Memory/Overflow.antt =====
-- memory-service.ts, `getContext`: a page that fills its budget before its last key is dropped.
use bidirectional_bridge_cla.Prelude.{
  ℕ, zero, suc, ◌≤◌, ◌<◌, ◌≡◌, refl, Bool, true, none, List, [], ◌∷◌, arith, ltb, take, err,
  internal,
}
use bidirectional_bridge_cla.Protocol.Memory.{MemoryNote}
use bidirectional_bridge_cla.Control.Store.{Store}
use bidirectional_bridge_cla.Control.Memory.Table.{list_memory_notes, MemoryNoteQuery}
use bidirectional_bridge_cla.Control.Memory.Context.{
  ContextPage, empty_context, candidate, context_loop, fill_context,
}
use bidirectional_bridge_cla.Control.Memory.Budget.{not_above}
use bidirectional_bridge_cla.Control.Memory.Fitting.{keyed}

-- If one note is listed, its response with its key fills the budget exactly, and `null` is longer
-- than this key in quotes, `getContext` throws INTERNAL.
pub fill_context_overflows :
    (is_intact : (artifact_id : ℕ) → Bool) (context_bytes : ContextPage → ℕ)
    → (s : Store) (budget limit : ℕ) (query : MemoryNoteQuery) (row : MemoryNote) → 1 ≤ limit
    → list_memory_notes s query ≡ row ∷ []
    → context_bytes (empty_context query.scope query.before_cursor) ≤ budget
    → context_bytes
        (candidate is_intact context_bytes s (empty_context query.scope query.before_cursor) row)
      ≡ budget
    → ((page : ContextPage)
        → context_bytes (keyed page row.key) < context_bytes (record page { next_key = none }))
    → fill_context is_intact context_bytes s budget limit query ≡ err internal
unfolding fill_context context_loop
fill_context_overflows is_intact context_bytes s budget zero query row some_room only fits full
      longer =
    absurd (omega (arith, some_room))
fill_context_overflows is_intact context_bytes s budget (suc n) query row some_room only fits full
      longer =
    let page =
      candidate is_intact context_bytes s (empty_context query.scope query.before_cursor) row in
    rw
      (
        only,
        not_above budget (context_bytes (empty_context query.scope query.before_cursor)) fits,
        take-nil n,
        not_above budget (context_bytes page) (equal full),
        too_large full (longer page),
      )
      refl
  where
    take-nil : (n : ℕ) → ◌≡◌ {A = List MemoryNote} (take n []) []
    take-nil zero = refl
    take-nil (suc n) = refl

    equal : {a b : ℕ} → a ≡ b → a ≤ b
    equal h = omega (arith, h)

    too_large : {a b c : ℕ} → a ≡ b → a < c → ltb b c ≡ true
    too_large h k = ground arith
