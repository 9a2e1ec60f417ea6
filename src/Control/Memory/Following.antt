-- ===== src/Control/Memory/Following.antt =====
-- memory-service.ts: a reader that follows the cursor of `getChanges` up to a fixed head, while
-- other agents go on writing.
use mathlib.Core.Path.{subst}
use bidirectional_bridge_cla.Prelude.{
  ℕ, ◌≤◌, ◌<◌, ◌≡◌, refl, sym, ap, ◌∙◌, Bool, true, false, not, ◌||◌, Option, none, some, List, [],
  ◌∷◌, ◌++◌, All, is_empty, arith, ltb, filter, or-false, ok, invalid_argument, >>=-eq-ok,
  throw_if-passed, ok-ok,
}
use bidirectional_bridge_cla.Protocol.Memory.{MemoryScope, MemoryNote}
use bidirectional_bridge_cla.Control.Store.{Store, last_event_id}
use bidirectional_bridge_cla.Control.Memory.Table.{is_change, changes_between}
use bidirectional_bridge_cla.Control.Memory.Notes.{Ascending, changes_between-filter, changes-grown}
use bidirectional_bridge_cla.Control.Memory.Reading.{
  Sizes, ChangesPage, MemoryChangesInput, integer, get_changes,
}
use bidirectional_bridge_cla.Control.Memory.Filling.{notes_of}
use bidirectional_bridge_cla.Control.Memory.Pages.{IsPage, fill_changes-IsPage}

integer-within :
    (o : Option ℕ) (fallback least most : ℕ) {n : ℕ}
    → integer o fallback least most ≡ ok n
    → least ≤ n
unfolding integer
integer-within none fallback least most h =
    let (fine, same) =
      throw_if-passed (ltb fallback least || ltb most fallback) invalid_argument _ h in
    subst (λ k. least ≤ k) (ok-ok same) (not_below fallback least (or-false _ _ fine).0)
  where
    not_below : (a b : ℕ) → ltb a b ≡ false → b ≤ a
    not_below a b h = ground arith
integer-within (some v) fallback least most h =
    let (fine, same) = throw_if-passed (ltb v least || ltb most v) invalid_argument _ h in
    subst (λ k. least ≤ k) (ok-ok same) (not_below v least (or-false _ _ fine).0)
  where
    not_below : (a b : ℕ) → ltb a b ≡ false → b ≤ a
    not_below a b h = ground arith

integer-some :
    (v fallback least most : ℕ) {n : ℕ} → integer (some v) fallback least most ≡ ok n → v ≡ n
unfolding integer
integer-some v fallback least most h =
    ok-ok (throw_if-passed (ltb v least || ltb most v) invalid_argument _ h).1

-- What a reader asks for: the changes behind a cursor, up to the head.
abbrev pub asked :
    MemoryScope → (after head : ℕ) → (limit max_bytes : Option ℕ) → MemoryChangesInput
asked scope after head limit max_bytes = record {
  scope = scope;
  change_cursor = some after;
  until_cursor = some head;
  limit = limit;
  max_bytes = max_bytes;
}

-- One read: the store at its time, the limits that the reader chose, and the page.
pub record ChangesRead : Type 0 where
  pub store : Store
  pub limit : Option ℕ
  pub max_bytes : Option ℕ
  pub page : ChangesPage

-- Since the first read, notes have only been added, with cursors beyond the head.
pub record Grown (base : Store) (head : ℕ) (s : Store) : Type 0 where
  pub added : List MemoryNote
  pub kept : s.memory_notes ≡ base.memory_notes ++ added
  pub ordered : Ascending s.memory_notes
  pub beyond : All (λ m. head < m.change_cursor) added

unfoldable pub notes_read : List ChangesRead → List MemoryNote
notes_read [] = []
notes_read (r ∷ rs) = notes_of r.page.changes ++ notes_read rs

module _ (is_intact : (artifact_id : ℕ) → Bool) (sizes : Sizes) where
  pub get_changes-IsPage :
      (s : Store) (scope : MemoryScope) (after head : ℕ) (limit max_bytes : Option ℕ)
      (page : ChangesPage)
      → Ascending s.memory_notes
      → get_changes is_intact sizes s (asked scope after head limit max_bytes) ≡ ok page
      → IsPage s scope after head page
  unfolding get_changes
  get_changes-IsPage s scope after head limit max_bytes page a h =
      let (n, l, h1) = >>=-eq-ok (integer limit 25 1 100) _ h in
      let (budget, b, h2) = >>=-eq-ok (integer max_bytes 16384 2048 65536) _ h1 in
      let (top, t, h3) =
        >>=-eq-ok (integer (some head) (last_event_id s.events) 0 (last_event_id s.events)) _ h2 in
      let (from, f, h4) = >>=-eq-ok (integer (some after) 0 0 top) _ h3 in
      subst (λ c. IsPage s scope c head page) (sym (integer-some after 0 0 top f))
        (subst (λ c. IsPage s scope from c page)
          (sym (integer-some head (last_event_id s.events) 0 (last_event_id s.events) t))
          (fill_changes-IsPage is_intact sizes s scope from top n budget page a
            (integer-within limit 25 1 100 l) h4))

  module _ (base : Store) (scope : MemoryScope) (head : ℕ)
      (base_ordered : Ascending base.memory_notes) where
    abbrev pub Page : ℕ → ChangesRead → Type 0
    Page after r =
        Grown base head r.store
        × (get_changes is_intact sizes r.store (asked scope after head r.limit r.max_bytes)
            ≡ ok r.page)

    -- Reads that follow the cursor, from one to the page behind which nothing is left.
    unfoldable pub Follows : (after : ℕ) → List ChangesRead → Type 0
    Follows after [] = ⊥
    Follows after (r ∷ []) = Page after r × (r.page.has_more ≡ false)
    Follows after (r ∷ q ∷ rs) =
        Page after r × (r.page.has_more ≡ true) × Follows r.page.change_cursor (q ∷ rs)

    Grown-changes_between :
        (s : Store) (after : ℕ)
        → Grown base head s
        → changes_between s scope after head ≡ changes_between base scope after head
    Grown-changes_between s after g =
        changes_between-filter s scope after head g.ordered
        ∙ ap (filter (is_change scope after head)) g.kept
        ∙ changes-grown base.memory_notes g.added scope after head g.beyond
        ∙ sym (changes_between-filter base scope after head base_ordered)

    page_of : (after : ℕ) (r : ChangesRead) → Page after r → IsPage r.store scope after head r.page
    page_of after r p =
        get_changes-IsPage r.store scope after head r.limit r.max_bytes r.page p.0.ordered p.1

    -- A reader who follows the cursor of `getChanges` up to a fixed head, until nothing is left,
    -- each time with limits of its own, gets exactly the notes of the scope between its first
    -- cursor and the head that the table has held from the start, in their order and each once,
    -- while notes with later cursors are added.
    pub notes_read-changes :
        (after : ℕ) (rs : List ChangesRead)
        → Follows after rs
        → notes_read rs ≡ changes_between base scope after head
    unfolding Follows notes_read
    notes_read-changes after [] f = absurd f
    notes_read-changes after (r ∷ []) f =
        let p = page_of after r f.0 in
        ap (λ t. notes_of r.page.changes ++ t) (sym (none_left p.rest (sym p.more ∙ f.1)))
        ∙ sym p.whole
        ∙ Grown-changes_between r.store after f.0.0
      where
        none_left : (rest : List MemoryNote) → not (is_empty rest) ≡ false → rest ≡ []
        none_left [] h = refl
        none_left (n ∷ ns) h = cc
    notes_read-changes after (r ∷ q ∷ rs) f =
        let p = page_of after r f.0 in
        ap (λ t. notes_of r.page.changes ++ t)
          (notes_read-changes r.page.change_cursor (q ∷ rs) f.2
            ∙ sym (Grown-changes_between r.store r.page.change_cursor f.0.0)
            ∙ p.next)
        ∙ sym p.whole
        ∙ Grown-changes_between r.store after f.0.0
