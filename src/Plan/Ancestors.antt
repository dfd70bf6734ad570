-- ===== src/Plan/Ancestors.antt =====
-- `ancestors`, of `ExecutionPlan._validate_artifact_edges` (app/orchestration/plan.py): the work
-- items that an item waits for, directly or not.
use project_os.Base.{
  String, ℕ, zero, suc, ◌+◌, ◌≤◌, ◌≡◌, ◌≢◌, refl, true, false, none, some, List, [], ◌∷◌, ◌++◌,
  ◌==◌, string_eq, elem, length, length-append, if◌then◌else◌, arith, inl, inr, Bool-cases,
  Option-cases, beq_refl,
}
use mathlib.Core.List.{reverse, reverse-append}
use project_os.WorkItem.{WorkItem, dependency_ids}
use project_os.Plan.{by_id}

-- How the walk ends: with the set that it found, at an id of no item (KeyError), or out of fuel.
pub data Walk : Type 0 where
  found : List String → Walk
  unknown : String → Walk
  spent : Walk

-- `pending` has the end of the program's list first: `pop` takes its head.
unfoldable pub ancestors_from : ℕ → List WorkItem → List String → List String → Walk
ancestors_from fuel items result [] = found result
ancestors_from zero items result (parent ∷ pending) = spent
ancestors_from (suc fuel) items result (parent ∷ pending) = elim (elem parent result) [
  | true ↦ ancestors_from fuel items result pending
  | false ↦ elim (by_id parent items) [
    | none ↦ unknown parent
    | some item ↦
        ancestors_from fuel items (parent ∷ result) (reverse (dependency_ids item) ++ pending)
  ]
]

-- Each edge is pushed once, so the number of edges bounds the rounds.
abbrev pub edge_count : List WorkItem → ℕ
edge_count [] = 0
edge_count (item ∷ items) = length (dependency_ids item) + edge_count items

unfoldable pub ancestors : List WorkItem → WorkItem → Walk
unfolding ancestors_from
ancestors items item =
    ancestors_from (length (dependency_ids item) + edge_count items) items []
      (reverse (dependency_ids item))

-- The edges of the items that are not yet in the result.
weight : List String → List WorkItem → ℕ
weight result [] = 0
weight result (item ∷ items) =
    (if elem item.id result then 0 else length (dependency_ids item)) + weight result items

weight-cons-le :
    (p : String) (result : List String) (items : List WorkItem)
    → weight (p ∷ result) items ≤ weight result items
unfolding weight
weight-cons-le p result [] = omega arith
weight-cons-le p result (item ∷ items) = ground (arith, weight-cons-le p result items)

weight-add-le :
    (p : String) (result : List String) (items : List WorkItem) {item : WorkItem}
    → by_id p items ≡ some item
    → elem p result ≡ false
    → weight (p ∷ result) items + length (dependency_ids item) ≤ weight result items
unfolding weight
weight-add-le p result [] h n = cc
weight-add-le p result (first ∷ items) {item} h n = elim (Bool-cases (first.id == p)) [
  | inl t ↦
      let same = (string_eq.beq_iff first.id p).0 t in
      ground (arith, weight-cons-le p result items, beq_refl p)
  | inr f ↦ ground (arith, weight-add-le p result items {item = item})
]

weight-le_edges :
    (result : List String) (items : List WorkItem) → weight result items ≤ edge_count items
unfolding weight
weight-le_edges result [] = omega arith
weight-le_edges result (item ∷ items) = ground (arith, weight-le_edges result items)

length-reverse {ℓ} : {A : Type ℓ} (xs : List A) → length (reverse xs) ≡ length xs
length-reverse [] = refl
length-reverse (x ∷ xs) =
    rw (reverse-append (x ∷ []) xs)
      (omega (arith, length-append (reverse xs) (x ∷ []), length-reverse xs))

module _ (fuel : ℕ) (items : List WorkItem) (result : List String) (p : String)
    (pending : List String) where
  ancestors_from-seen :
      elem p result ≡ true
      → ancestors_from (suc fuel) items result (p ∷ pending)
        ≡ ancestors_from fuel items result pending
  unfolding ancestors_from
  ancestors_from-seen h = rw (h, ancestors_from)

  ancestors_from-unknown :
      elem p result ≡ false
      → by_id p items ≡ none
      → ancestors_from (suc fuel) items result (p ∷ pending) ≡ unknown p
  unfolding ancestors_from
  ancestors_from-unknown h e = rw (h, e, ancestors_from)

  ancestors_from-new :
      {item : WorkItem}
      → elem p result ≡ false
      → by_id p items ≡ some item
      → ancestors_from (suc fuel) items result (p ∷ pending)
        ≡ ancestors_from fuel items (p ∷ result) (reverse (dependency_ids item) ++ pending)
  unfolding ancestors_from
  ancestors_from-new h e = rw (h, e, ancestors_from)

ancestors_from-ne-spent :
    (fuel : ℕ) (items : List WorkItem) (result pending : List String)
    → length pending + weight result items ≤ fuel
    → ancestors_from fuel items result pending ≢ spent
ancestors_from-ne-spent fuel items result [] h = unfold ancestors_from in λ q. cc
ancestors_from-ne-spent zero items result (p ∷ pending) h = absurd (omega arith)
ancestors_from-ne-spent (suc fuel) items result (p ∷ pending) h =
    elim (Bool-cases (elem p result)) [
      | inl seen ↦
          rw (ancestors_from-seen fuel items result p pending seen)
            (ancestors_from-ne-spent fuel items result pending (omega arith))
      | inr new ↦ elim (Option-cases (by_id p items)) [
        | inl e ↦ rw (ancestors_from-unknown fuel items result p pending new e) (λ q. cc)
        | inr (item, e) ↦
            let next = reverse (dependency_ids item) in
            rw (ancestors_from-new fuel items result p pending new e) (
              ancestors_from-ne-spent fuel items (p ∷ result) (next ++ pending) (
                omega (
                  arith,
                  weight-add-le p result items e new,
                  length-append next pending,
                  length-reverse (dependency_ids item),
                )))
      ]
    ]

-- The walk, with a round for each dependency of the item and for each edge, always ends: with the
-- set, or at an id that no item has.
pub ancestors-ne-spent : (items : List WorkItem) (item : WorkItem) → ancestors items item ≢ spent
unfolding ancestors
ancestors-ne-spent items item =
    ancestors_from-ne-spent _ items [] _
      (omega (arith, length-reverse (dependency_ids item), weight-le_edges [] items))
