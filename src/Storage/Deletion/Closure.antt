-- ===== src/Storage/Deletion/Closure.antt =====
-- findAllDependentsRecursiveInTx of internal/storage/issueops/delete.go: the set that it returns.
use bd.Prelude.{
  ℕ, zero, suc, ◌≡◌, ◌↔◌, ◌⊎◌, refl, sym, ap, subst, true, Bool-cases, inl, inr, List, [], ◌∷◌, ◌+◌,
  length, map, select, drop, take, In, In-append, In-map_intro, In-map_elim, In-select, List-cases,
  arith,
}
use bd.Prelude.Text.{Text, contains, contains_iff}
use bd.Types.DependencyType.{Dependency}
use bd.Storage.Dependencies.{Edge, edge}
use bd.Storage.Dependencies.Walks.{Walk}
use bd.Storage.Blocked.{put_all}
use bd.Storage.Blocked.Queries.{contains-put_all}
use bd.Storage.Deletion.{
  dependents, Visit, visit, visit_all, process_batch, found, find_loop, find_all_dependents,
  delete_batch_size,
}
use bd.Storage.Deletion.Search.{In-dependents}

-- The edges of all types.
abbrev pub all_edges : List Dependency → List Edge
all_edges deps = map edge deps

-- A walk of any length, zero included, leads from the issue to one of `ids`.
abbrev pub Reaches : List Dependency → List Text → Text → Type 0
Reaches deps ids x = (id : Text) × In id ids × (n : ℕ) × Walk (all_edges deps) x id n

-- What one visit, and the visits of a round, do to the set and the queue.
record Grows (xs : List Text) (s t : Visit) : Type 0 where
  result_iff : (y : Text) → In y t.result ↔ (In y s.result ⊎ In y xs)
  queue_kept : (y : Text) → In y s.to_process → In y t.to_process
  queue_from : (y : Text) → In y t.to_process → In y s.to_process ⊎ In y xs
  new_queued : (y : Text) → In y t.result → In y s.result ⊎ In y t.to_process

visit-Grows : (x : Text) (s : Visit) → Grows (x ∷ []) s (visit s x)
unfolding visit
visit-Grows x s = elim (Bool-cases (contains s.result x)) [
  | inl e ↦ record {
    result_iff = λ y. elim (Bool-cases (contains s.result y)) [
      | inl q ↦ ground (arith, contains_iff s.result y)
      | inr q ↦ ground (
        arith,
        contains_iff s.result y,
        λ (r : y ≡ x). subst (λ z. contains s.result z ≡ true) (sym r) e,
      )
    ];
    queue_kept = λ y m. ground arith;
    queue_from = λ y m. ground arith;
    new_queued = λ y m. ground arith;
  }
  | inr e ↦ record {
    result_iff = λ y. ground arith;
    queue_kept = λ y m. ground (arith, In-append y s.to_process (x ∷ []));
    queue_from = λ y m. ground (arith, In-append y s.to_process (x ∷ []));
    new_queued = λ y m. ground (arith, In-append y s.to_process (x ∷ []));
  }
]

visit_all-Grows : (xs : List Text) (s : Visit) → Grows xs s (visit_all s xs)
unfolding visit_all
visit_all-Grows [] s = record {
  result_iff = λ y. ground arith;
  queue_kept = λ y m. m;
  queue_from = λ y m. inl m;
  new_queued = λ y m. inl m;
}
visit_all-Grows (x ∷ xs) s =
    let t = visit s x in
    let first = visit-Grows x s in
    let rest = visit_all-Grows xs t in
    record {
      result_iff = λ y. ground (arith, first.result_iff y, rest.result_iff y);
      queue_kept = λ y m. ground (arith, first.queue_kept y, rest.queue_kept y);
      queue_from = λ y m. ground (arith, first.queue_from y, rest.queue_from y);
      new_queued = λ y m. ground (arith, first.new_queued y, rest.new_queued y, rest.queue_kept y);
    }

module _ (deps : List Dependency) where
  In-dependents_intro :
      (batch : List Text) (x y : Text)
      → In (x, y) (all_edges deps)
      → In y batch
      → In x (dependents deps batch)
  unfolding dependents
  In-dependents_intro batch x y m n =
      let (d, k, e) = In-map_elim edge (x, y) deps m in
      let target : y ≡ d.depends_on_id = ap (λ (z : Edge). z.1) e in
      let hit : contains batch d.depends_on_id ≡ true =
        (contains_iff batch d.depends_on_id).1 (subst (λ z. In z batch) target n) in
      subst (λ z. In z (dependents deps batch)) (sym (ap (λ (z : Edge). z.0) e))
        (In-map_intro (λ (r : Dependency). r.issue_id) d
          (select (λ r. contains batch r.depends_on_id) deps)
          ((In-select (λ (r : Dependency). contains batch r.depends_on_id) d deps).1 (k, hit)))

  In-dependents_edge :
      (batch : List Text) (x : Text)
      → In x (dependents deps batch)
      → (y : Text) × In y batch × In (x, y) (all_edges deps)
  In-dependents_edge batch x m =
      let (d, k, t, e) = In-dependents deps batch x m in
      (
        d.depends_on_id,
        (contains_iff batch d.depends_on_id).0 t,
        subst (λ z. In {A = Edge} (z, d.depends_on_id) (all_edges deps)) (sym e)
            (In-map_intro edge d deps k),
      )

In-take-drop :
    {A : Type 0} (n : ℕ) (x : A) (xs : List A) → In x xs → In x (take n xs) ⊎ In x (drop n xs)
In-take-drop zero x xs m = inr m
In-take-drop (suc n) x [] m = absurd m
In-take-drop (suc n) x (y ∷ xs) (inl e) = inl (inl e)
In-take-drop (suc n) x (y ∷ xs) (inr m) = ground (arith, In-take-drop n x xs m)

In-take : {A : Type 0} (n : ℕ) (x : A) (xs : List A) → In x (take n xs) → In x xs
In-take zero x xs m = absurd m
In-take (suc n) x [] m = absurd m
In-take (suc n) x (y ∷ xs) (inl e) = inl e
In-take (suc n) x (y ∷ xs) (inr m) = inr (In-take n x xs m)

In-drop : {A : Type 0} (n : ℕ) (x : A) (xs : List A) → In x (drop n xs) → In x xs
In-drop zero x xs m = m
In-drop (suc n) x [] m = absurd m
In-drop (suc n) x (y ∷ xs) m = inr (In-drop n x xs m)

module _ (deps : List Dependency) (ids : List Text) where
  record Inv (s : Visit) : Type 0 where
    started : (x : Text) → In x ids → In x s.result
    sound : (x : Text) → In x s.result → Reaches deps ids x
    queued : (x : Text) → In x s.to_process → In x s.result
    closed :
        (x y : Text)
        → In (x, y) (all_edges deps)
        → In y s.result
        → In y s.to_process ⊎ In x s.result

  Inv-process_batch : (s : Visit) → Inv s → Inv (process_batch deps s)
  unfolding process_batch
  Inv-process_batch s inv =
      let batch = take delete_batch_size s.to_process in
      let kept = drop delete_batch_size s.to_process in
      let g =
        visit_all-Grows (dependents deps batch) (record { result = s.result; to_process = kept }) in
      record {
        started = λ x m. ground (arith, inv.started x, g.result_iff x);
        sound = λ x m. elim ((g.result_iff x).0 m) [
          | inl old ↦ inv.sound x old
          | inr new ↦
              let (y, n, e) = In-dependents_edge deps batch x new in
              let (id, i, k, w) =
                inv.sound y (inv.queued y (In-take delete_batch_size y s.to_process n)) in
              (id, i, suc k, (y, e, w))
        ];
        queued = λ x m. ground (
          arith,
          g.queue_from x m,
          g.result_iff x,
          In-drop delete_batch_size x s.to_process,
          inv.queued x,
        );
        closed = λ x y e m. ground (
          arith,
          g.new_queued y m,
          g.queue_kept y,
          g.result_iff x,
          inv.closed x y e,
          In-take-drop delete_batch_size y s.to_process,
          In-dependents_intro deps batch x y e,
        );
      }

  find_loop-Inv :
      (fuel : ℕ) (s : Visit) (r : List Text)
      → find_loop deps fuel s ≡ found r
      → Inv s
      → (t : Visit) × Inv t × (t.to_process ≡ []) × (t.result ≡ r)
  unfolding find_loop
  find_loop-Inv zero s r h inv = elim (List-cases s.to_process) [
    | inl empty ↦ (s, inv, empty, ground (arith, empty))
    | inr (x, xs, q) ↦ ground (arith, q)
  ]
  find_loop-Inv (suc fuel) s r h inv = elim (List-cases s.to_process) [
    | inl empty ↦ (s, inv, empty, ground (arith, empty))
    | inr (x, xs, q) ↦
        find_loop-Inv fuel (process_batch deps s) r (ground (arith, q)) (Inv-process_batch s inv)
  ]

  In-start : (x : Text) → In x (put_all [] ids) ↔ In x ids
  In-start x =
      ground (arith, contains-put_all ids [] x, contains_iff ids x, contains_iff (put_all [] ids) x)

  start-Inv : Inv (record { result = put_all [] ids; to_process = ids })
  start-Inv = record {
    started = λ x m. (In-start x).1 m;
    sound = λ x m. (x, (In-start x).0 m, 0, refl);
    queued = λ x m. (In-start x).1 m;
    closed = λ x y e m. inl ((In-start y).0 m);
  }

  all_found :
      (t : Visit)
      → Inv t
      → t.to_process ≡ []
      → (n : ℕ) (x id : Text) → In id ids
      → Walk (all_edges deps) x id n
      → In x t.result
  all_found t inv empty zero x id i w = subst (λ y. In y t.result) (sym w) (inv.started id i)
  all_found t inv empty (suc n) x id i (y, e, w) =
      let later = all_found t inv empty n y id i w in ground (arith, empty, inv.closed x y e later)

-- If findAllDependentsRecursiveInTx returns a set, it holds exactly the given issues and those that
-- depend on one of them directly or through others, by dependencies of any type, cycles included.
pub find_all_dependents_iff :
    (deps : List Dependency) (ids r : List Text)
    → find_all_dependents deps ids ≡ found r
    → (x : Text) → In x r ↔ Reaches deps ids x
unfolding find_all_dependents
find_all_dependents_iff deps ids r h x =
    let (t, inv, empty, same) =
      find_loop-Inv deps ids (length deps + length ids)
        (record { result = put_all [] ids; to_process = ids }) r h (start-Inv deps ids) in
    (
      λ m. inv.sound x (subst (λ (ys : List Text). In x ys) (sym same) m),
      λ (id, i, n, w).
          subst (λ (ys : List Text). In x ys) same (all_found deps ids t inv empty n x id i w),
    )
