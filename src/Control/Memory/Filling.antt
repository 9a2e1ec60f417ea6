-- ===== src/Control/Memory/Filling.antt =====
-- memory-service.ts, `getChanges`: what the loop over the rows puts on a page.
use mathlib.Core.Path.{subst}
use mathlib.Core.List.{append_assoc, append-nil}
use bidirectional_bridge_cla.Prelude.{
  ℕ, suc, ◌≡◌, ◌⊎◌, refl, sym, ap, ◌∙◌, inl, inr, Bool, false, List, [], ◌∷◌, ◌++◌, ltb, length,
  is_empty, Bool-cases, Result, ok, err, invalid_argument, ok-ok,
}
use bidirectional_bridge_cla.Protocol.Memory.{MemoryNote}
use bidirectional_bridge_cla.Control.Store.{Store}
use bidirectional_bridge_cla.Control.Memory.Reading.{
  Sizes, ChangesPage, MemoryReadNote, read_note, with_change, changes_loop,
}

unfoldable pub last_cursor : ℕ → List MemoryNote → ℕ
last_cursor c [] = c
last_cursor c (n ∷ ns) = last_cursor n.change_cursor ns

-- The notes of a page.
abbrev pub notes_of : List MemoryReadNote → List MemoryNote
notes_of [] = []
notes_of (r ∷ rs) = r.note ∷ notes_of rs

notes_of-append : (rs qs : List MemoryReadNote) → notes_of (rs ++ qs) ≡ notes_of rs ++ notes_of qs
notes_of-append [] qs = refl
notes_of-append (r ∷ rs) qs = ap (λ t. r.note ∷ t) (notes_of-append rs qs)

pub notes_of-length : (rs : List MemoryReadNote) → length (notes_of rs) ≡ length rs
notes_of-length [] = refl
notes_of-length (r ∷ rs) = ap suc (notes_of-length rs)

-- What the loop has put on a page: a prefix `taken` of the rows.
pub record Filled (rows : List MemoryNote) (before page : ChangesPage) : Type 0 where
  pub taken : List MemoryNote
  pub left : List MemoryNote
  pub split : rows ≡ taken ++ left
  pub notes : notes_of page.changes ≡ notes_of before.changes ++ taken
  pub cursor : page.change_cursor ≡ last_cursor before.change_cursor taken
  pub progress : before.changes ≡ [] → rows ≡ [] ⊎ (is_empty taken ≡ false)

module _ (is_intact : (artifact_id : ℕ) → Bool) (sizes : Sizes) where
  Filled-none :
      (rows : List MemoryNote) (page : ChangesPage)
      → is_empty page.changes ≡ false
      → Filled rows page page
  unfolding last_cursor
  Filled-none rows page e = record {
    taken = [];
    left = rows;
    split = refl;
    notes = sym (append-nil (notes_of page.changes));
    cursor = refl;
    progress = λ h. absurd (clash page.changes e h);
  }
    where
      clash : (cs : List MemoryReadNote) → is_empty cs ≡ false → cs ≡ [] → ⊥
      clash [] e h = cc
      clash (c ∷ cs) e h = cc

  pub changes_loop-Filled :
      (s : Store) (budget : ℕ) (rows : List MemoryNote) (before page : ChangesPage)
      → changes_loop is_intact sizes s budget rows before ≡ ok page
      → Filled rows before page
  unfolding changes_loop last_cursor read_note
  changes_loop-Filled s budget [] before page h = subst (Filled [] before) (ok-ok h) (record {
    taken = [];
    left = [];
    split = refl;
    notes = sym (append-nil (notes_of before.changes));
    cursor = refl;
    progress = λ _. inl refl;
  })
  changes_loop-Filled s budget (row ∷ rows) before page h =
      elim (Bool-cases
        (ltb budget (sizes.changes_bytes (with_change is_intact sizes s before row)))) [
          | inr fits ↦
              let f =
                changes_loop-Filled s budget rows (with_change is_intact sizes s before row) page
                  (rw fits at h) in
              record {
                taken = row ∷ f.taken;
                left = f.left;
                split = ap (λ t. row ∷ t) f.split;
                notes =
                    f.notes
                    ∙ ap (λ t. t ++ f.taken) (notes_of-append before.changes _)
                    ∙ append_assoc (notes_of before.changes) (row ∷ []) f.taken;
                cursor = f.cursor;
                progress = λ _. inr refl;
              }
          | inl over ↦ elim (Bool-cases (is_empty before.changes)) [
            | inl none_yet ↦ absurd (refused (rw (over, none_yet) at h))
            | inr some_there ↦
                subst (Filled (row ∷ rows) before) (ok-ok (rw (over, some_there) at h))
                  (Filled-none (row ∷ rows) before some_there)
          ]
        ]
    where
      refused : ◌≡◌ {A = Result ChangesPage} (err invalid_argument) (ok page) → ⊥
      refused h = cc

-- A page: a prefix of the changes that were left, and the cursor that leaves the rest.
