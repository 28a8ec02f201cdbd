-- ===== src/Storage/Deletion/Search.antt =====
-- findAllDependentsRecursiveInTx of internal/storage/issueops/delete.go: the search ends, and what its
-- rounds do to the set and to the queue.
use bd.Prelude.{
  ℕ, zero, suc, ◌+◌, ◌≤◌, ◌<◌, ◌≡◌, ◌≢◌, refl, ap, List-cases, true, false, not, Bool-cases, inl,
  inr, List, [], ◌∷◌, map, select, drop, take, length, length-append, length-drop, In, In-map_intro,
  In-map_elim, In-select, arith, subst, sym,
}
use bd.Prelude.Text.{Text, contains, eq_iff}
use bd.Storage.Blocked.{put_all}
use bd.Types.DependencyType.{Dependency}
use bd.Storage.Deletion.{
  dependents, Visit, visit, visit_all, process_batch, out_of_fuel, find_loop, find_all_dependents,
  delete_batch_size,
}

-- The rows whose issue is not in the set yet.
abbrev fresh : List Dependency → List Text → ℕ
fresh deps result = length (select (λ d. not (contains result d.issue_id)) deps)

fresh-le-length : (deps : List Dependency) (result : List Text) → fresh deps result ≤ length deps
fresh-le-length [] result = omega arith
fresh-le-length (d ∷ deps) result = ground (arith, fresh-le-length deps result)

fresh-cons :
    (deps : List Dependency) (x : Text) (result : List Text)
    → fresh deps (x ∷ result) ≤ fresh deps result
fresh-cons [] x result = omega arith
fresh-cons (d ∷ deps) x result = ground (arith, fresh-cons deps x result)

fresh-drops :
    (deps : List Dependency) (x : Text) (result : List Text)
    → In x (map (λ (d : Dependency). d.issue_id) deps)
    → contains result x ≡ false
    → fresh deps (x ∷ result) < fresh deps result
fresh-drops [] x result m h = absurd m
fresh-drops (d ∷ deps) x result (inl e) h =
    let missing : contains result d.issue_id ≡ false = subst (λ y. contains result y ≡ false) e h in
    ground (arith, eq_iff d.issue_id x, sym e, fresh-cons deps x result)
fresh-drops (d ∷ deps) x result (inr m) h = ground (arith, fresh-drops deps x result m h)

abbrev work : List Dependency → Visit → ℕ
work deps s = fresh deps s.result + length s.to_process

visit-work :
    (deps : List Dependency) (x : Text) (s : Visit)
    → In x (map (λ (d : Dependency). d.issue_id) deps)
    → work deps (visit s x) ≤ work deps s
unfolding visit
visit-work deps x s m = elim (Bool-cases (contains s.result x)) [
  | inl e ↦ ground arith
  | inr e ↦ ground (arith, length-append s.to_process (x ∷ []), fresh-drops deps x s.result m e)
]

visit_all-work :
    (deps : List Dependency) (xs : List Text) (s : Visit)
    → ((x : Text) → In x xs → In x (map (λ (d : Dependency). d.issue_id) deps))
    → work deps (visit_all s xs) ≤ work deps s
unfolding visit_all
visit_all-work deps [] s h = omega arith
visit_all-work deps (x ∷ xs) s h = omega (
  arith,
  visit_all-work deps xs (visit s x) (λ y m. h y (inr m)),
  visit-work deps x s (h x (inl refl)),
)

pub In-dependents :
    (deps : List Dependency) (batch : List Text) (x : Text)
    → In x (dependents deps batch)
    → (d : Dependency) × In d deps × (contains batch d.depends_on_id ≡ true) × (x ≡ d.issue_id)
unfolding dependents
In-dependents deps batch x m =
    let (d, n, e) =
      In-map_elim (λ (d : Dependency). d.issue_id) x
        (select (λ d. contains batch d.depends_on_id) deps) m in
    let (k, t) = (In-select (λ (d : Dependency). contains batch d.depends_on_id) d deps).0 n in
    (d, k, t, e)

-- A round takes from the queue, and adds to it only issues that it takes from the fresh rows.
process_batch-work :
    (deps : List Dependency) (s : Visit)
    → 0 < length s.to_process
    → work deps (process_batch deps s) < work deps s
unfolding process_batch
process_batch-work deps s h =
    let v : Visit = record {
      result = s.result;
      to_process = drop delete_batch_size s.to_process;
    } in
    omega (
      arith,
      length-drop delete_batch_size s.to_process,
      visit_all-work deps (dependents deps (take delete_batch_size s.to_process)) v (λ x m.
          let (d, k, t, e) = In-dependents deps (take delete_batch_size s.to_process) x m in
          subst (λ y. In y (map (λ (d : Dependency). d.issue_id) deps)) (sym e)
            (In-map_intro (λ (d : Dependency). d.issue_id) d deps k)),
    )

find_loop_ends :
    (deps : List Dependency) (fuel : ℕ) (s : Visit)
    → work deps s ≤ fuel
    → find_loop deps fuel s ≢ out_of_fuel
unfolding find_loop
find_loop_ends deps zero s h e = elim (List-cases s.to_process) [
  | inl empty ↦ ground (arith, empty)
  | inr (x, xs, q) ↦ omega (arith, ap length q)
]
find_loop_ends deps (suc fuel) s h e = elim (List-cases s.to_process) [
  | inl empty ↦ ground (arith, empty)
  | inr (x, xs, q) ↦
      let shrinks = process_batch-work deps s (omega (arith, ap length q)) in
      ground (arith, q, find_loop_ends deps fuel (process_batch deps s) (omega (arith, shrinks)))
]

-- The search of findAllDependentsRecursiveInTx ends: as many rounds as there are ids and rows of
-- dependencies are enough for any graph, cyclic or not.
pub find_all_dependents_ends :
    (deps : List Dependency) (ids : List Text) → find_all_dependents deps ids ≢ out_of_fuel
unfolding find_all_dependents
find_all_dependents_ends deps ids =
    find_loop_ends deps (length deps + length ids)
      (record { result = put_all [] ids; to_process = ids })
      (omega (arith, fresh-le-length deps (put_all [] ids)))
