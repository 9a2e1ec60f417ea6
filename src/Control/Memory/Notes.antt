-- ===== src/Control/Memory/Notes.antt =====
-- The table of memory notes: changes in the order of their cursors.
use mathlib.Core.Path.{subst}
use mathlib.Core.List.{append-nil}
use bidirectional_bridge_cla.Prelude.{
  ℕ, ◌<◌, ◌≡◌, refl, ap, ◌∙◌, inl, inr, Bool, true, false, ◌&&◌, List, [], ◌∷◌, ◌++◌, All, arith,
  leb, ltb, filter, Bool-cases, and-true,
}
use bidirectional_bridge_cla.Protocol.Memory.{MemoryScope, MemoryNote, same_scope}
use bidirectional_bridge_cla.Control.Store.{Store}
use bidirectional_bridge_cla.Control.Memory.Table.{
  insert_by_cursor, by_cursor, is_change, changes_between,
}

-- Each note has a larger cursor than those before it.
unfoldable pub Ascending : List MemoryNote → Type 0
Ascending [] = Unit
Ascending (n ∷ ns) = All (λ m. n.change_cursor < m.change_cursor) ns × Ascending ns

pub All-filter :
    (P : MemoryNote → Type 0) (p : MemoryNote → Bool) (ns : List MemoryNote)
    → All P ns
    → All P (filter p ns)
All-filter P p [] h = tt
All-filter P p (n ∷ ns) (h, hs) = elim (Bool-cases (p n)) [
  | inl e ↦ rw e (h, All-filter P p ns hs)
  | inr e ↦ rw e (All-filter P p ns hs)
]

pub filter-Ascending :
    (p : MemoryNote → Bool) (ns : List MemoryNote) → Ascending ns → Ascending (filter p ns)
unfolding Ascending
filter-Ascending p [] a = tt
filter-Ascending p (n ∷ ns) a = elim (Bool-cases (p n)) [
  | inl e ↦ rw e (All-filter _ p ns a.0, filter-Ascending p ns a.1)
  | inr e ↦ rw e (filter-Ascending p ns a.1)
]

insert_by_cursor-first :
    (n : MemoryNote) (ns : List MemoryNote)
    → All (λ m. n.change_cursor < m.change_cursor) ns
    → insert_by_cursor n ns ≡ n ∷ ns
unfolding insert_by_cursor
insert_by_cursor-first n [] h = refl
insert_by_cursor-first n (m ∷ ms) (h, hs) = rw (above n.change_cursor m.change_cursor h) refl
  where
    above : (a b : ℕ) → a < b → ltb b a ≡ false
    above a b h = ground arith

by_cursor-Ascending : (ns : List MemoryNote) → Ascending ns → by_cursor ns ≡ ns
unfolding by_cursor Ascending
by_cursor-Ascending [] a = refl
by_cursor-Ascending (n ∷ ns) a =
    ap (insert_by_cursor n) (by_cursor-Ascending ns a.1) ∙ insert_by_cursor-first n ns a.0

pub changes_between-filter :
    (s : Store) (scope : MemoryScope) (after head : ℕ)
    → Ascending s.memory_notes
    → changes_between s scope after head ≡ filter (is_change scope after head) s.memory_notes
unfolding changes_between
changes_between-filter s scope after head a =
    by_cursor-Ascending _ (filter-Ascending (is_change scope after head) s.memory_notes a)

-- What is behind a later cursor.

filter-filter :
    (p q r : MemoryNote → Bool) (ns : List MemoryNote)
    → ((n : MemoryNote) → r n ≡ (p n && q n))
    → filter r ns ≡ filter q (filter p ns)
filter-filter p q r [] h = refl
filter-filter p q r (n ∷ ns) h = elim (Bool-cases (p n)) [
  | inl e ↦ elim (Bool-cases (q n)) [
    | inl f ↦ rw (h n, e, f) (ap (λ t. n ∷ t) (filter-filter p q r ns h))
    | inr f ↦ rw (h n, e, f) (filter-filter p q r ns h)
  ]
  | inr e ↦ rw (h n, e) (filter-filter p q r ns h)
]

pub filter-append :
    (p : MemoryNote → Bool) (ns ms : List MemoryNote)
    → filter p (ns ++ ms) ≡ filter p ns ++ filter p ms
filter-append p [] ms = refl
filter-append p (n ∷ ns) ms = elim (Bool-cases (p n)) [
  | inl e ↦ rw e (ap (λ t. n ∷ t) (filter-append p ns ms))
  | inr e ↦ rw e (filter-append p ns ms)
]

filter-kept :
    (c : ℕ) (ns : List MemoryNote)
    → All (λ m. c < m.change_cursor) ns
    → filter (λ m. ltb c m.change_cursor) ns ≡ ns
filter-kept c [] h = refl
filter-kept c (n ∷ ns) (h, hs) =
    rw (below c n.change_cursor h) (ap (λ t. n ∷ t) (filter-kept c ns hs))
  where
    below : (a b : ℕ) → a < b → ltb a b ≡ true
    below a b h = ground arith

-- In an ascending list, what is behind the last note of a prefix is the rest.
pub filter-behind :
    (xs : List MemoryNote) (y : MemoryNote) (rest : List MemoryNote)
    → Ascending (xs ++ y ∷ rest)
    → filter (λ m. ltb y.change_cursor m.change_cursor) (xs ++ y ∷ rest) ≡ rest
unfolding Ascending
filter-behind [] y rest a = rw (not_below y.change_cursor) (filter-kept y.change_cursor rest a.0)
  where
    not_below : (a : ℕ) → ltb a a ≡ false
    not_below a = ground arith
filter-behind (x ∷ xs) y rest a =
    rw (above x.change_cursor y.change_cursor (in_prefix xs a.0)) (filter-behind xs y rest a.1)
  where
    above : (a b : ℕ) → a < b → ltb b a ≡ false
    above a b h = ground arith

    in_prefix :
        (zs : List MemoryNote)
        → All (λ m. x.change_cursor < m.change_cursor) (zs ++ y ∷ rest)
        → x.change_cursor < y.change_cursor
    in_prefix [] h = h.0
    in_prefix (z ∷ zs) h = in_prefix zs h.1

-- The changes behind the last change of a prefix.
pub changes-behind :
    (ns : List MemoryNote) (scope : MemoryScope) (after head : ℕ) (xs : List MemoryNote)
    (y : MemoryNote) (rest : List MemoryNote)
    → Ascending ns
    → filter (is_change scope after head) ns ≡ xs ++ y ∷ rest
    → after < y.change_cursor
    → filter (is_change scope y.change_cursor head) ns ≡ rest
changes-behind ns scope after head xs y rest a e later =
    filter-filter (is_change scope after head) (λ m. ltb y.change_cursor m.change_cursor)
      (is_change scope y.change_cursor head) ns
      (λ n. both (same_scope n.scope scope) after y.change_cursor n.change_cursor head later)
    ∙ ap (filter (λ m. ltb y.change_cursor m.change_cursor)) e
    ∙ filter-behind xs y rest (subst Ascending e (filter-Ascending _ ns a))
  where
    both :
        (b : Bool) (a c n h : ℕ)
        → a < c
        → (b && (ltb c n && leb n h)) ≡ ((b && (ltb a n && leb n h)) && ltb c n)
    both b a c n h later = ground arith

-- Each change is behind the cursor that the changes were asked from.
pub All-is_change :
    (ns : List MemoryNote) (scope : MemoryScope) (after head : ℕ)
    → All (λ m. after < m.change_cursor) (filter (is_change scope after head) ns)
All-is_change [] scope after head = tt
All-is_change (n ∷ ns) scope after head = elim (Bool-cases (is_change scope after head n)) [
  | inl e ↦ rw e (
    above after n.change_cursor (and-true _ _ (and-true _ _ e).1).0,
    All-is_change ns scope after head,
  )
  | inr e ↦ rw e (All-is_change ns scope after head)
]
  where
    above : (a b : ℕ) → ltb a b ≡ true → a < b
    above a b h = ground arith

-- Notes that are written later, with cursors beyond the head, change nothing up to it.
pub changes-grown :
    (ns more : List MemoryNote) (scope : MemoryScope) (after head : ℕ)
    → All (λ m. head < m.change_cursor) more
    → filter (is_change scope after head) (ns ++ more) ≡ filter (is_change scope after head) ns
changes-grown ns more scope after head h =
    filter-append (is_change scope after head) ns more
    ∙ ap (λ t. filter (is_change scope after head) ns ++ t) (none_of more h)
    ∙ append-nil _
  where
    beyond : (b c : Bool) (n h : ℕ) → h < n → (b && (c && leb n h)) ≡ false
    beyond b c n h lt = ground arith

    none_of :
        (more : List MemoryNote)
        → All (λ m. head < m.change_cursor) more
        → filter (is_change scope after head) more ≡ []
    none_of [] h = refl
    none_of (m ∷ ms) (h, hs) =
        rw (beyond (same_scope m.scope scope) (ltb after m.change_cursor) m.change_cursor head h)
          (none_of ms hs)
