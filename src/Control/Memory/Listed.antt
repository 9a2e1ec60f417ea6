-- ===== src/Control/Memory/Listed.antt =====
-- sqlite-store.ts, `listMemoryNotes`: what holds of all notes holds of those that are listed; and
-- memory-service.ts: the checks on keys.
use bidirectional_bridge_cla.Prelude.{
  Answers, Answers->>=, Answers-throw_if, ℕ, zero, suc, refl, inl, inr, ◌||◌, Option, none, some,
  List, [], ◌∷◌, All, ltb, leb, all, take, length, Bool-cases, ◌&&◌,
}
use bidirectional_bridge_cla.Protocol.Path.{Text}
use bidirectional_bridge_cla.Protocol.Memory.{MemoryNote}
use bidirectional_bridge_cla.Control.Store.{Store}
use bidirectional_bridge_cla.Control.Memory.Table.{
  list_memory_notes, MemoryNoteQuery, is_selected, insert_by_key, by_key, text_lt,
}
use bidirectional_bridge_cla.Control.Memory.Notes.{All-filter}
use bidirectional_bridge_cla.Control.Memory.Context.{
  check_key, check_all_keys, check_after_key, check_keys, is_alphanumeric, is_key_unit,
}

-- Whatever holds of all notes holds of those that are listed.

insert_by_key-All :
    (P : MemoryNote → Type 0) (n : MemoryNote) (ns : List MemoryNote)
    → P n
    → All P ns
    → All P (insert_by_key n ns)
unfolding insert_by_key
insert_by_key-All P n [] p h = (p, tt)
insert_by_key-All P n (m ∷ ms) p h = elim (Bool-cases (text_lt m.key n.key)) [
  | inl e ↦ rw e (h.0, insert_by_key-All P n ms p h.1)
  | inr e ↦ rw e (p, h)
]

by_key-All : (P : MemoryNote → Type 0) (ns : List MemoryNote) → All P ns → All P (by_key ns)
unfolding by_key
by_key-All P [] h = tt
by_key-All P (n ∷ ns) h = insert_by_key-All P n (by_key ns) h.0 (by_key-All P ns h.1)

pub All-take :
    (P : MemoryNote → Type 0) (n : ℕ) (ns : List MemoryNote) → All P ns → All P (take n ns)
All-take P zero ns h = tt
All-take P (suc n) [] h = tt
All-take P (suc n) (m ∷ ms) h = (h.0, All-take P n ms h.1)

pub list_memory_notes-All :
    (P : MemoryNote → Type 0) (s : Store) (q : MemoryNoteQuery)
    → All P s.memory_notes
    → All P (list_memory_notes s q)
unfolding list_memory_notes
list_memory_notes-All P s q h =
    All-take P q.limit _
      (by_key-All P _ (All-filter P (is_selected s.memory_notes q) s.memory_notes h))

-- The checks on keys
check_key-Answers : (key : Text) → Answers (λ _. Unit) (check_key key)
unfolding check_key Answers
check_key-Answers [] = refl
check_key-Answers (c ∷ cs) =
    elim (Bool-cases (is_alphanumeric c && (all is_key_unit cs && leb (length cs) 127))) [
      | inl e ↦ rw e tt
      | inr e ↦ rw e refl
    ]

check_all_keys-Answers : (keys : List Text) → Answers (λ _. Unit) (check_all_keys keys)
unfolding check_all_keys Answers
check_all_keys-Answers [] = tt
check_all_keys-Answers (key ∷ keys) =
    Answers->>= (λ _. Unit) (λ _. Unit) (check_key key) (λ _. check_all_keys keys)
      (check_key-Answers key) (λ _ _. check_all_keys-Answers keys)

pub check_after_key-Answers : (after : Option Text) → Answers (λ _. Unit) (check_after_key after)
unfolding check_after_key Answers
check_after_key-Answers none = tt
check_after_key-Answers (some key) = check_key-Answers key

pub check_keys-Answers : (keys : Option (List Text)) → Answers (λ _. Unit) (check_keys keys)
unfolding check_keys Answers
check_keys-Answers none = tt
check_keys-Answers (some keys) =
    Answers-throw_if (λ _. Unit) (ltb (length keys) 1 || ltb 100 (length keys))
      (check_all_keys keys) (λ _. check_all_keys-Answers keys)
