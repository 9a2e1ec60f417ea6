-- ===== src/Control/Tasks/Search.antt =====
-- task-service.ts, `reaches`: the search decides reachability.
use mathlib.Core.Path.{subst}
use bidirectional_bridge_cla.Prelude.{
  ℕ, zero, suc, ◌+◌, ◌<◌, ◌≡◌, refl, sym, ap, ◌∙◌, ◌⊎◌, inl, inr, Bool, true, false, ◌||◌, Option,
  none, some, List, [], ◌∷◌, ◌++◌, reverse, arith, ◌==◌, length, includes, Bool-cases, ==_iff,
  ==_refl,
}
use bidirectional_bridge_cla.Protocol.Records.{TaskId}
use bidirectional_bridge_cla.Control.Store.{Store, get_dependencies}
use bidirectional_bridge_cla.Control.Tasks.Dependencies.{reaches_loop, reaches}
use bidirectional_bridge_cla.Control.Tasks.Reach.{
  Reach, Explored, explored_lem, or_cases, or_left, or_right, includes-pushed, reaches_loop-ends,
  reaches_loop-true, open_edges,
}

-- `false` means that no visited task and none on the stack reaches the target.
reaches_loop-false :
    (fuel : ℕ) (s : Store) (to : TaskId) (seen stack : List TaskId) (x : TaskId)
    → reaches_loop fuel s to seen stack ≡ some false
    → Explored s to seen stack
    → (includes seen x || includes stack x) ≡ true
    → Reach s x to
    → ⊥
unfolding reaches_loop
reaches_loop-false zero s to seen stack x h e i r = elim (no h) [ ]
  where
    no : ◌≡◌ {A = Option Bool} none (some false) → ⊥
    no h = cc
reaches_loop-false (suc fuel) s to seen [] x h e i r =
    explored_lem s to seen x e (unempty (includes seen x) i) r
  where
    unempty : (b : Bool) → (b || false) ≡ true → b ≡ true
    unempty b h = ground arith
reaches_loop-false (suc fuel) s to seen (c ∷ stack) x h e i r = elim (Bool-cases (c == to)) [
  | inl a ↦ no (rw a at h)
  | inr a ↦ elim (Bool-cases (includes seen c)) [
    | inl b ↦
        reaches_loop-false fuel s to seen stack x (rw (a, b) at h)
          (λ v j. ((e v j).0, λ w d. skip b w ((e v j).1 w d))) (skip b x i) r
    | inr b ↦
        reaches_loop-false fuel s to (c ∷ seen) (reverse (get_dependencies s c) ++ stack) x
          (rw (a, b) at h) (λ v j. visited a v (or_cases (c == v) (includes seen v) j)) (move x i) r
  ]
]
  where
    no : ◌≡◌ {A = Option Bool} (some true) (some false) → ⊥
    no h = cc

    -- A task on the stack that has been visited.
    skip :
        includes seen c ≡ true
        → (w : TaskId) → (includes seen w || (c == w || includes stack w)) ≡ true
        → (includes seen w || includes stack w) ≡ true
    skip b w h = elim (Bool-cases (c == w)) [
      | inl hit ↦
          or_left (includes seen w) (includes stack w)
            (ap (includes seen) (sym ((==_iff c w).0 hit)) ∙ b)
      | inr miss ↦ rw miss at h
    ]

    pushed : List TaskId
    pushed = reverse (get_dependencies s c) ++ stack

    moved : (a b d q : Bool) → (a || (b || d)) ≡ true → ((b || a) || (q || d)) ≡ true
    moved a b d q h = ground arith

    -- What was visited or on the stack is so after the visit.
    move :
        (w : TaskId)
        → (includes seen w || (c == w || includes stack w)) ≡ true
        → ((c == w || includes seen w) || includes pushed w) ≡ true
    move w h =
        ap (λ z. (c == w || includes seen w) || z) (includes-pushed (get_dependencies s c) stack w)
        ∙ moved (includes seen w) (c == w) (includes stack w) (includes (get_dependencies s c) w) h

    visited :
        (c == to) ≡ false
        → (v : TaskId) → ((c == v) ≡ true) ⊎ (includes seen v ≡ true)
        → ((v == to) ≡ false)
          × ((w : TaskId)
              → includes (get_dependencies s v) w ≡ true
              → ((c == w || includes seen w) || includes pushed w) ≡ true)
    visited a v (inl hit) = (
      ap (λ z. z == to) (sym ((==_iff c v).0 hit)) ∙ a,
      λ w d. or_right (c == w || includes seen w) (includes pushed w) (
          includes-pushed (get_dependencies s c) stack w
          ∙ or_left (includes (get_dependencies s c) w) (includes stack w)
              (ap (λ z. includes (get_dependencies s z) w) ((==_iff c v).0 hit) ∙ d)),
    )
    visited a v (inr j) = ((e v j).0, λ w d. move w ((e v j).1 w d))

-- The search of `reaches` ends for every pair of tasks, within the rounds that the model gives it,
-- and its answer is whether the one reaches the other along dependency edges.
pub reaches-Reach :
    (s : Store) (from to : TaskId)
    → (reaches s from to ≡ some true) × Reach s from to
      ⊎ (reaches s from to ≡ some false) × (Reach s from to → ⊥)
unfolding reaches open_edges
reaches-Reach s from to =
    let (b, e) =
      reaches_loop-ends _ s to [] (from ∷ []) (enough (open_edges-none s.dependencies)) in
    decided b e
  where
    open_edges-none : (edges : List (TaskId × TaskId)) → open_edges [] edges ≡ length edges
    open_edges-none [] = refl
    open_edges-none ((f, t) ∷ edges) = ap suc (open_edges-none edges)

    enough : {n m : ℕ} → n ≡ m → 1 + n < suc (suc m)
    enough e = omega arith

    start : (x : TaskId) → includes (from ∷ []) x ≡ true → from ≡ x
    start x h = (==_iff from x).0 (only (from == x) h)
      where
        only : (b : Bool) → (b || false) ≡ true → b ≡ true
        only b h = ground arith

    decided :
        (b : Bool)
        → reaches_loop (suc (suc (length s.dependencies))) s to [] (from ∷ []) ≡ some b
        → (reaches_loop (suc (suc (length s.dependencies))) s to [] (from ∷ []) ≡ some true)
            × Reach s from to
          ⊎ (reaches_loop (suc (suc (length s.dependencies))) s to [] (from ∷ []) ≡ some false)
            × (Reach s from to → ⊥)
    decided true e =
        let (x, i, r) =
          reaches_loop-true (suc (suc (length s.dependencies))) s to [] (from ∷ []) e in
        inl (e, subst (λ z. Reach s z to) (sym (start x i)) r)
    decided false e = inr (
      e,
      λ r.
          reaches_loop-false (suc (suc (length s.dependencies))) s to [] (from ∷ []) from e
            (λ v j. elim (never j) [ ]) (rw (==_refl from) refl) r,
    )
      where
        never : false ≡ true → ⊥
        never j = cc
