-- ===== src/Control/Tasks/Reach.antt =====
-- task-service.ts, `reaches`: the search ends, and it decides reachability along dependency edges.
use mathlib.Core.Path.{subst}
use mathlib.Core.List.{reverse-cons}
use bidirectional_bridge_cla.Prelude.{
  ℕ, zero, suc, ◌+◌, ◌<◌, ◌≡◌, refl, sym, ap, ◌∙◌, ◌⊎◌, inl, inr, Bool, true, false, ◌||◌, some,
  List, [], ◌∷◌, ◌++◌, reverse, arith, ◌==◌, length, length-append, includes, if◌then◌else◌,
  Bool-cases, ==_iff, ==_refl,
}
use bidirectional_bridge_cla.Protocol.Records.{TaskId}
use bidirectional_bridge_cla.Control.Store.{Store, targets, insert_ascending, get_dependencies}
use bidirectional_bridge_cla.Control.Tasks.Dependencies.{reaches_loop}

pub includes-append :
    (xs ys : List ℕ) (a : ℕ) → includes (xs ++ ys) a ≡ (includes xs a || includes ys a)
includes-append [] ys a = refl
includes-append (x ∷ xs) ys a = ground (arith, includes-append xs ys a)

includes-reverse : (xs : List ℕ) (a : ℕ) → includes (reverse xs) a ≡ includes xs a
includes-reverse [] a = refl
includes-reverse (x ∷ xs) a =
    ap (λ z. includes z a) (reverse-cons x xs)
    ∙ includes-append (reverse xs) (x ∷ []) a
    ∙ ground (arith, includes-reverse xs a)

length-reverse : (xs : List ℕ) → length (reverse xs) ≡ length xs
length-reverse [] = refl
length-reverse (x ∷ xs) =
    ap (λ z. length z) (reverse-cons x xs)
    ∙ length-append (reverse xs) (x ∷ [])
    ∙ omega (arith, length-reverse xs)

length-insert_ascending : (x : ℕ) (ys : List ℕ) → length (insert_ascending x ys) ≡ suc (length ys)
unfolding insert_ascending
length-insert_ascending x [] = refl
length-insert_ascending x (y ∷ ys) = ground (arith, length-insert_ascending x ys)

-- The edges whose start has not been visited.
unfoldable pub open_edges : List TaskId → List (TaskId × TaskId) → ℕ
open_edges seen [] = 0
open_edges seen ((from, to) ∷ edges) =
    let rest = open_edges seen edges in if includes seen from then rest else suc rest

open_edges-visit :
    (c : TaskId) (seen : List TaskId) (edges : List (TaskId × TaskId))
    → includes seen c ≡ false
    → open_edges (c ∷ seen) edges + length (targets c edges) ≡ open_edges seen edges
unfolding open_edges targets
open_edges-visit c seen [] h = refl
open_edges-visit c seen ((from, to) ∷ edges) h = elim (Bool-cases (from == c)) [
  | inl hit ↦
      rw (hit, (==_iff from c).0 hit, ==_refl c, h, length-insert_ascending to (targets c edges))
        (omega (arith, open_edges-visit c seen edges h))
  | inr miss ↦
      rw (miss, flipped from miss) (counted (includes seen from) (open_edges-visit c seen edges h))
]
  where
    flipped : (from : ℕ) → (from == c) ≡ false → (c == from) ≡ false
    flipped from m = ground arith

    counted :
        (b : Bool)
        → open_edges (c ∷ seen) edges + length (targets c edges) ≡ open_edges seen edges
        → (if b then open_edges (c ∷ seen) edges else suc (open_edges (c ∷ seen) edges))
            + length (targets c edges)
          ≡ (if b then open_edges seen edges else suc (open_edges seen edges))
    counted true e = e
    counted false e = omega (arith, e)

-- Each round takes one task from the stack, and a task that is visited for the first time puts
-- back as many as it has edges.
pub reaches_loop-ends :
    (fuel : ℕ) (s : Store) (to : TaskId) (seen stack : List TaskId)
    → length stack + open_edges seen s.dependencies < fuel
    → (b : Bool) × (reaches_loop fuel s to seen stack ≡ some b)
unfolding reaches_loop get_dependencies
reaches_loop-ends zero s to seen stack h = elim (none_left h) [ ]
  where
    none_left : {n : ℕ} → n < 0 → ⊥
    none_left h = omega arith
reaches_loop-ends (suc fuel) s to seen [] h = (false, refl)
reaches_loop-ends (suc fuel) s to seen (c ∷ stack) h = elim (Bool-cases (c == to)) [
  | inl a ↦ (true, rw a refl)
  | inr a ↦ elim (Bool-cases (includes seen c)) [
    | inl b ↦ let (r, e) = reaches_loop-ends fuel s to seen stack (omega arith) in (r, rw (a, b) e)
    | inr b ↦
        let (r, e) =
          reaches_loop-ends fuel s to (c ∷ seen) (reverse (targets c s.dependencies) ++ stack) (
            smaller (open_edges-visit c seen s.dependencies b) (
              length-append (reverse (targets c s.dependencies)) stack
              ∙ ap (λ n. n + length stack) (length-reverse (targets c s.dependencies)))) in
        (r, rw (a, b) e)
  ]
]
  where
    smaller :
        {x : ℕ}
        → open_edges (c ∷ seen) s.dependencies + length (targets c s.dependencies)
          ≡ open_edges seen s.dependencies
        → x ≡ length (targets c s.dependencies) + length stack
        → x + open_edges (c ∷ seen) s.dependencies < fuel
    smaller e f = omega arith

-- `to` is reached from `from` along dependency edges.
pub data Reach (s : Store) : TaskId → TaskId → Type 0 where
  here : (x : TaskId) → Reach s x x
  along : (x y z : TaskId) → includes (get_dependencies s x) y ≡ true → Reach s y z → Reach s x z

pub or_cases : (a b : Bool) → (a || b) ≡ true → (a ≡ true) ⊎ (b ≡ true)
or_cases true b h = inl refl
or_cases false b h = inr h

pub or_left : (a b : Bool) → a ≡ true → (a || b) ≡ true
or_left a b h = ground arith

pub or_right : (a b : Bool) → b ≡ true → (a || b) ≡ true
or_right a b h = ground arith

-- What a visit pushes.
pub includes-pushed :
    (ds stack : List TaskId) (a : TaskId)
    → includes (reverse ds ++ stack) a ≡ (includes ds a || includes stack a)
includes-pushed ds stack a =
    includes-append (reverse ds) stack a ∙ ap (λ b. b || includes stack a) (includes-reverse ds a)

-- `true` means that some task on the stack reaches the target.
pub reaches_loop-true :
    (fuel : ℕ) (s : Store) (to : TaskId) (seen stack : List TaskId)
    → reaches_loop fuel s to seen stack ≡ some true
    → (x : TaskId) × (includes stack x ≡ true) × Reach s x to
unfolding reaches_loop
reaches_loop-true zero s to seen stack h = cc
reaches_loop-true (suc fuel) s to seen [] h = cc
reaches_loop-true (suc fuel) s to seen (c ∷ stack) h = elim (Bool-cases (c == to)) [
  | inl a ↦ (c, rw (==_refl c) refl, subst (Reach s c) ((==_iff c to).0 a) (here c))
  | inr a ↦ elim (Bool-cases (includes seen c)) [
    | inl b ↦
        let (x, i, r) = reaches_loop-true fuel s to seen stack (rw (a, b) at h) in
        (x, or_right (c == x) (includes stack x) i, r)
    | inr b ↦
        let (x, i, r) =
          reaches_loop-true fuel s to (c ∷ seen) (reverse (get_dependencies s c) ++ stack)
            (rw (a, b) at h) in
        elim (or_cases (includes (get_dependencies s c) x) (includes stack x)
          (sym (includes-pushed (get_dependencies s c) stack x) ∙ i)) [
            | inl d ↦ (c, rw (==_refl c) refl, along c x to d r)
            | inr j ↦ (x, or_right (c == x) (includes stack x) j, r)
          ]
  ]
]

-- No visited task is the target, and its edges lead to tasks that are visited or on the stack.
abbrev pub Explored : Store → TaskId → List TaskId → List TaskId → Type 0
Explored s to seen stack =
    (v : TaskId)
    → includes seen v ≡ true
    → ((v == to) ≡ false)
      × ((w : TaskId)
          → includes (get_dependencies s v) w ≡ true
          → (includes seen w || includes stack w) ≡ true)

pub explored_lem :
    (s : Store) (to : TaskId) (seen : List TaskId) (x : TaskId)
    → Explored s to seen []
    → includes seen x ≡ true
    → Reach s x to
    → ⊥
explored_lem s to seen x e i (here _) = clash (sym (==_refl x) ∙ (e x i).0)
  where
    clash : true ≡ false → ⊥
    clash h = cc
explored_lem s to seen x e i (along _ y _ d r) =
    explored_lem s to seen y e (unempty (includes seen y) ((e x i).1 y d)) r
  where
    unempty : (b : Bool) → (b || false) ≡ true → b ≡ true
    unempty b h = ground arith
