-- ===== src/Plan/Accepted.antt =====
-- What an accepted plan is: its ids are distinct, its dependencies are work items of it, and it is
-- acyclic.
use project_os.Base.{
  String, ◌≡◌, ◌≢◌, ◌↔◌, ◌⊎◌, inl, inr, raise, refl, ap, true, not, List, [], ◌∷◌, Memᴰ, string_eq,
  ok, refuse_if, refuse_if-eq-ok, >>-eq-ok, distinct, subset, length, keys, arith,
}
use native.Mathlib.Nat.{le_refl}
use project_os.WorkItem.{WorkItem}
use project_os.Graph.{Peeled, resolved_all, cycle, spent, peel, IsAcyclic, IsClosed}
use project_os.Graph.Acyclic.{peel-ne-spent}
use project_os.Graph.Sound.{peel_sound}
use project_os.Graph.Complete.{peel_complete}
use project_os.Plan.{ExecutionPlan, item_ids, dependencies}
use project_os.Plan.Delivery.{validate_plan}
use project_os.Plan.Edges.{PlanError, cyclic, validate_artifact_edges}
use project_os.Plan.Init.{check_fields, check_items, ensure_acyclic, no_errors, as_check, validate}

pub record IsAccepted (items : List WorkItem) : Type 0 where
  pub distinct_ids : distinct (item_ids items) ≡ true
  pub closed : IsClosed (dependencies items)
  pub acyclic : IsAcyclic (dependencies items)

pub keys-dependencies : (items : List WorkItem) → keys (dependencies items) ≡ item_ids items
keys-dependencies [] = refl
keys-dependencies (item ∷ items) = ap (◌∷◌ item.id) (keys-dependencies items)

check_items-closed :
    (known : List String) (items : List WorkItem)
    → check_items known items ≡ ok tt
    → (node : String × List String) → Memᴰ node (dependencies items)
    → subset node.1 known ≡ true
unfolding check_items
check_items-closed known [] h node m = elim m [ ]
check_items-closed known (item ∷ items) h node (Memᴰ.head e) = rw e (ground arith)
check_items-closed known (item ∷ items) h node (Memᴰ.tail m) =
    check_items-closed known items (ground arith) node m

ensure_acyclic-ok :
    (items : List WorkItem)
    → ensure_acyclic items ≡ ok tt
    → (order : List String) × (peel (length (dependencies items)) [] (dependencies items)
        ≡ resolved_all order)
unfolding ensure_acyclic
ensure_acyclic-ok items h = go (peel (length (dependencies items)) [] (dependencies items)) refl h
  where
    go :
        (p : Peeled String)
        → peel (length (dependencies items)) [] (dependencies items) ≡ p
        → as_check p ≡ ok tt
        → (order : List String) × (peel (length (dependencies items)) [] (dependencies items)
            ≡ resolved_all order)
    go (resolved_all order) e h = (order, e)
    go (cycle left) e h = cc
    go spent e h = cc

-- A plan that passes its checks is accepted in this sense.
pub validate-IsAccepted :
    (plan : ExecutionPlan) → validate plan ≡ ok tt → IsAccepted plan.work_items
unfolding validate
validate-IsAccepted plan h =
    let items = plan.work_items in
    let (c1, h1) = >>-eq-ok (check_fields plan) _ h in
    let (c2, h2) =
      >>-eq-ok (refuse_if (not (distinct (item_ids items))) PlanError.repeated_item_id) _ h1 in
    let (c3, h3) = >>-eq-ok (no_errors (validate_plan items)) _ h2 in
    let (c4, h4) = >>-eq-ok (check_items (item_ids items) items) _ h3 in
    let (c5, h5) = >>-eq-ok (ensure_acyclic items) (validate_artifact_edges plan) h4 in
    let (order, p) = ensure_acyclic-ok items c5 in
    let one : distinct (item_ids items) ≡ true =
      ground
        (arith, refuse_if-eq-ok (not (distinct (item_ids items))) PlanError.repeated_item_id c2) in
    record {
      distinct_ids = one;
      closed = λ node m.
          rw (keys-dependencies items) (check_items-closed (item_ids items) items c4 node m);
      acyclic = peel_sound _ (dependencies items) order (rw (keys-dependencies items) one) p;
    }

-- The check always ends: it passes, or it refuses the ids that are left in a cycle.
ensure_acyclic-ends :
    (items : List WorkItem)
    → (ensure_acyclic items ≡ ok tt)
      ⊎ ((left : List String) × (ensure_acyclic items ≡ raise (cyclic left)))
unfolding ensure_acyclic
ensure_acyclic-ends items =
    go (peel (length (dependencies items)) [] (dependencies items))
      (peel-ne-spent (length (dependencies items)) [] (dependencies items) (le_refl _))
  where
    go :
        (p : Peeled String)
        → p ≢ spent
        → (as_check p ≡ ok tt) ⊎ ((left : List String) × (as_check p ≡ raise (cyclic left)))
    go (resolved_all order) ended = inl refl
    go (cycle left) ended = inr (left, refl)
    go spent ended = absurd (ended refl)

-- With distinct ids and known dependencies, the check for cycles passes exactly on the plans that
-- have a rank that falls along every dependency, and where it does not pass it raises the error of a
-- cycle: its loop always ends.
pub ensure_acyclic_iff :
    (items : List WorkItem)
    → distinct (item_ids items) ≡ true
    → IsClosed (dependencies items)
    → ((ensure_acyclic items ≡ ok tt) ↔ IsAcyclic (dependencies items))
      × ((ensure_acyclic items ≡ ok tt)
          ⊎ ((left : List String) × (ensure_acyclic items ≡ raise (cyclic left))))
unfolding ensure_acyclic
ensure_acyclic_iff items one closed = (
  (
    λ h.
        let (order, p) = ensure_acyclic-ok items h in
        peel_sound (length (dependencies items)) (dependencies items) order
          (rw (keys-dependencies items) one) p,
    λ (rank, falls).
        let (order, p) =
          peel_complete (dependencies items) closed rank falls (length (dependencies items))
            (le_refl _) in
        rw p,
  ),
  ensure_acyclic-ends items,
)
