-- ===== src/Control/Memory/Revisions.antt =====
-- The revisions of a key: the latest of them, and what adding one does to their order.
use bidirectional_bridge_cla.Prelude.{
  ℕ, suc, ◌+◌, ◌≤◌, ◌<◌, ◌≡◌, refl, sym, ap, ◌∙◌, inl, inr, true, false, not, Option, none, some,
  List, [], ◌∷◌, ◌++◌, All, arith, ltb, leb, ◌==◌, filter, length, Bool-cases, and-true,
  if◌then◌else◌, text_eq, text_eq_refl, text_eq-eq, ok, throw_if-passed, ok-ok, invalid_argument,
  revision_conflict,
}
use bidirectional_bridge_cla.Protocol.Path.{Text}
use bidirectional_bridge_cla.Protocol.Memory.{
  MemoryScope, MemoryNote, same_scope, same_scope-eq, same_scope_refl,
}
use bidirectional_bridge_cla.Control.Store.{Store}
use bidirectional_bridge_cla.Control.Memory.Table.{
  latest, revision_of, max_revision, max_cursor, is_note_of, insert_memory_note,
}
use bidirectional_bridge_cla.Control.Memory.Notes.{Ascending}

pub is_note_of-eq :
    (scope : MemoryScope) (key : Text) (n : MemoryNote)
    → is_note_of scope key n ≡ true
    → (n.scope ≡ scope) × (n.key ≡ key)
is_note_of-eq scope key n h =
    let (same, named) = and-true (same_scope n.scope scope) (text_eq n.key key) h in
    (same_scope-eq n.scope scope same, text_eq-eq n.key key named)

pub is_note_of_refl : (n : MemoryNote) → is_note_of n.scope n.key n ≡ true
is_note_of_refl n = rw (same_scope_refl n.scope, text_eq_refl n.key) refl

pub revision_of-latest : (ns : List MemoryNote) → revision_of (latest ns) ≡ max_revision ns
unfolding latest max_revision
revision_of-latest [] = refl
revision_of-latest (n ∷ ns) = of_rest (latest ns) (max_revision ns) (revision_of-latest ns)
  where
    of_rest :
        (o : Option MemoryNote) (k : ℕ)
        → revision_of o ≡ k
        → revision_of (elim o [
          | none ↦ some n
          | some m ↦ if ltb n.revision m.revision then some m else some n
        ])
          ≡ (if ltb k n.revision then n.revision else k)
    of_rest none k h = larger n.revision k h
      where
        larger : (a k : ℕ) → 0 ≡ k → a ≡ (if ltb k a then a else k)
        larger a k h = ground arith
    of_rest (some m) k h = elim (Bool-cases (ltb n.revision m.revision)) [
      | inl e ↦ rw e (later n.revision m.revision k h e)
      | inr e ↦ rw e (first n.revision m.revision k h e)
    ]
      where
        later : (a b k : ℕ) → b ≡ k → ltb a b ≡ true → b ≡ (if ltb k a then a else k)
        later a b k h e = ground arith

        first : (a b k : ℕ) → b ≡ k → ltb a b ≡ false → a ≡ (if ltb k a then a else k)
        first a b k h e = ground arith

pub max_revision-append : (ns ms : List MemoryNote) → max_revision ns ≤ max_revision (ns ++ ms)
unfolding max_revision
max_revision-append [] ms = omega arith
max_revision-append (n ∷ ns) ms = ground (arith, max_revision-append ns ms)

pub max_revision-last :
    (ns : List MemoryNote) (n : MemoryNote) → n.revision ≤ max_revision (ns ++ n ∷ [])
unfolding max_revision
max_revision-last [] n = ground arith
max_revision-last (m ∷ ns) n = ground (arith, max_revision-last ns n)

-- The revisions of the notes are the numbers from the one on, in order.
unfoldable pub Counted : ℕ → List MemoryNote → Type 0
Counted k [] = Unit
Counted k (n ∷ ns) = (n.revision ≡ suc k) × Counted (suc k) ns

max_revision-Counted :
    (k : ℕ) (ns : List MemoryNote)
    → Counted k ns
    → (if ltb (max_revision ns) k then k else max_revision ns) ≡ length ns + k
unfolding Counted max_revision
max_revision-Counted k [] h = ground arith
max_revision-Counted k (n ∷ ns) h =
    rw h.0 (counted (max_revision ns) (length ns) k (max_revision-Counted (suc k) ns h.1))
  where
    counted :
        (m l k : ℕ)
        → (if ltb m (suc k) then suc k else m) ≡ l + suc k
        → (if ltb (if ltb m (suc k) then suc k else m) k
            then k
            else (if ltb m (suc k) then suc k else m))
          ≡ suc l + k
    counted m l k h = ground arith

Counted-append :
    (k : ℕ) (ns : List MemoryNote) (n : MemoryNote)
    → Counted k ns
    → n.revision ≡ suc (length ns + k)
    → Counted k (ns ++ n ∷ [])
unfolding Counted
Counted-append k [] n h e = (e ∙ omega arith, tt)
Counted-append k (m ∷ ns) n h e = (h.0, Counted-append (suc k) ns n h.1 (e ∙ omega arith))

pub Counted-next :
    (ns : List MemoryNote) (n : MemoryNote)
    → Counted 0 ns
    → n.revision ≡ max_revision ns + 1
    → Counted 0 (ns ++ n ∷ [])
Counted-next ns n h e =
    Counted-append 0 ns n h (e ∙ next (max_revision ns) (length ns) (max_revision-Counted 0 ns h))
  where
    next : (m l : ℕ) → (if ltb m 0 then 0 else m) ≡ l + 0 → m + 1 ≡ suc (l + 0)
    next m l h = ground arith

-- Cursors

All-last :
    (P : MemoryNote → Type 0) (ns : List MemoryNote) (n : MemoryNote)
    → All P ns
    → P n
    → All P (ns ++ n ∷ [])
All-last P [] n h p = (p, tt)
All-last P (m ∷ ns) n h p = (h.0, All-last P ns n h.1 p)

pub Ascending-append :
    (ns : List MemoryNote) (n : MemoryNote)
    → Ascending ns
    → max_cursor ns < n.change_cursor
    → Ascending (ns ++ n ∷ [])
unfolding Ascending max_cursor
Ascending-append [] n a h = (tt, tt)
Ascending-append (m ∷ ns) n a h = (
  All-last (λ x. m.change_cursor < x.change_cursor) ns n a.0
      (above (max_cursor ns) m.change_cursor n.change_cursor h),
  Ascending-append ns n a.1 (behind (max_cursor ns) m.change_cursor n.change_cursor h),
)
  where
    above : (k c d : ℕ) → (if ltb k c then c else k) < d → c < d
    above k c d h = ground arith

    behind : (k c d : ℕ) → (if ltb k c then c else k) < d → k < d
    behind k c d h = ground arith

-- What an accepted insertion has checked, and its effect.
pub record Inserted (s : Store) (n : MemoryNote) (expected : ℕ) (s1 : Store) : Type 0 where
  pub numbered : n.revision ≡ expected + 1
  pub latest_was : max_revision (filter (is_note_of n.scope n.key) s.memory_notes) ≡ expected
  pub behind : max_cursor s.memory_notes < n.change_cursor
  pub notes : s1.memory_notes ≡ s.memory_notes ++ n ∷ []

pub insert_memory_note-Inserted :
    (s : Store) (n : MemoryNote) (expected : ℕ) (s1 : Store)
    → insert_memory_note s n expected ≡ ok s1
    → Inserted s n expected s1
unfolding insert_memory_note
insert_memory_note-Inserted s n expected s1 h =
    let newest = max_revision (filter (is_note_of n.scope n.key) s.memory_notes) in
    let (a, h1) = throw_if-passed (not (n.revision == expected + 1)) invalid_argument _ h in
    let (b, h2) = throw_if-passed (ltb n.change_cursor 1) invalid_argument _ h1 in
    let (c, h3) = throw_if-passed (not (newest == expected)) revision_conflict _ h2 in
    let (d, h4) =
      throw_if-passed (leb n.change_cursor (max_cursor s.memory_notes)) invalid_argument _ h3 in
    record {
      numbered = equal n.revision (expected + 1) a;
      latest_was = equal newest expected c;
      behind = above n.change_cursor (max_cursor s.memory_notes) d;
      notes = sym (ap (λ (t : Store). t.memory_notes) (ok-ok h4));
    }
  where
    equal : (a b : ℕ) → not (a == b) ≡ false → a ≡ b
    equal a b h = ground arith

    above : (a b : ℕ) → leb a b ≡ false → b < a
    above a b h = ground arith
