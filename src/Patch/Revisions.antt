-- ===== src/Patch/Revisions.antt =====
-- What the loop over the plan's items does in `apply_patch` (app/planner/patch.py), as a relation.
use project_os.Base.{
  String, ◌≡◌, refl, ap, sym, subst, Bool, true, false, not, ◌&&◌, ◌||◌, Option, none, some, List,
  [], ◌∷◌, Memᴰ, ◌==◌, string_eq, option_eq, elem, filter, any, all, ◌∙◌, ok, raise, >>=-eq-ok,
  arith, inl, inr, Bool-cases, Option-cases, Result,
}
use project_os.WorkItem.{WorkItem, Digest}
use project_os.WorkItem.Init.{init}
use project_os.WorkItem.Kept.{init_keeps, init_keeps_digest}
use project_os.Plan.{item_ids}
use project_os.Patch.{PatchOperation, PatchError, item_error, raising}
use project_os.Patch.Apply.{
  Draft, revised, change_of, keep, replace, drop_item, revise_item, revise_items,
}

-- Every item is dropped, kept as it is, or made again with a new objective.
pub data Revises (digest : Digest) (remove_ids : List String) (changes : List PatchOperation)
    : List WorkItem → Draft → Type 0 where
  done :
      {draft : Draft}
      → draft.next_items ≡ []
      → draft.invalidated ≡ []
      → Revises digest remove_ids changes [] draft
  dropped :
      {item : WorkItem} {items : List WorkItem} {draft : Draft}
      → elem item.id remove_ids ≡ true
      → Revises digest remove_ids changes items draft
      → Revises digest remove_ids changes (item ∷ items) (drop_item item draft)
  kept :
      {item : WorkItem} {items : List WorkItem} {draft : Draft}
      → elem item.id remove_ids ≡ false
      → change_of changes item ≡ none
      → Revises digest remove_ids changes items draft
      → Revises digest remove_ids changes (item ∷ items) (keep item draft)
  replaced :
      {item : WorkItem} {items : List WorkItem} {draft : Draft} (op : PatchOperation)
      (made : WorkItem)
      → elem item.id remove_ids ≡ false
      → change_of changes item ≡ some op
      → init digest (revised op.objective item) ≡ ok made
      → Revises digest remove_ids changes items draft
      → Revises digest remove_ids changes (item ∷ items) (replace made draft)

abbrev returns : (Draft → Draft) → Result PatchError (Draft → Draft)
returns step = ok step

-- What a modification leaves as it is: the identity of an item, its place in the graph and its
-- contract.
pub record IsRevisionOf (old new : WorkItem) : Type 0 where
  pub same_id : new.id ≡ old.id
  pub same_dependencies : new.dependencies ≡ old.dependencies
  pub same_mode : new.execution_mode ≡ old.execution_mode
  pub same_contract : new.contract_digest ≡ old.contract_digest

abbrev pub is_sealed : WorkItem → Bool
is_sealed item = elim item.contract_digest [ none ↦ false | some digest ↦ true ]

abbrev pub is_changed : Option PatchOperation → Bool
is_changed none = false
is_changed (some op) = true

unrevised : (item : WorkItem) → IsRevisionOf item item
unrevised item = record {
  same_id = refl;
  same_dependencies = refl;
  same_mode = refl;
  same_contract = refl;
}

pub raising-eq-ok :
    {E : Type 0} {F : Type 0} {A : Type 0} (wrap : E → F) (run : Result E A) {a : A}
    → raising wrap run ≡ ok a
    → run ≡ ok a
raising-eq-ok wrap (ok a) h = ground arith
raising-eq-ok wrap (raise e) h = cc

module _ (digest : Digest) (remove_ids : List String) (changes : List PatchOperation) where
  step_revises :
      (item : WorkItem) (items : List WorkItem) (draft : Draft) {step : Draft → Draft}
      → revise_item digest remove_ids changes item ≡ ok step
      → Revises digest remove_ids changes items draft
      → Revises digest remove_ids changes (item ∷ items) (step draft)
  step_revises item items draft {step} h rest = elim (Bool-cases (elem item.id remove_ids)) [
    | inl t ↦
        let same : returns (drop_item item) ≡ ok step = rw t at h in
        subst (λ s. Revises digest remove_ids changes (item ∷ items) (s draft)) (ok_injective same)
          (dropped t rest)
    | inr f ↦ elim (Option-cases (change_of changes item)) [
      | inl n ↦
          let same : returns (keep item) ≡ ok step = rw (f, n) at h in
          subst (λ s. Revises digest remove_ids changes (item ∷ items) (s draft))
            (ok_injective same) (kept f n rest)
      | inr (op, o) ↦
          let (made, m, last) =
            >>=-eq-ok (raising item_error (init digest (revised op.objective item))) _
              (rw (f, o) at h) in
          subst (λ s. Revises digest remove_ids changes (item ∷ items) (s draft))
            (ok_injective last)
            (replaced op made f o
              (raising-eq-ok item_error (init digest (revised op.objective item)) m) rest)
    ]
  ]
    where
      ok_injective : {f g : Draft → Draft} → returns f ≡ ok g → f ≡ g
      ok_injective h = cc

  made_again :
      (op : PatchOperation) (item made : WorkItem)
      → is_sealed item ≡ true
      → init digest (revised op.objective item) ≡ ok made
      → IsRevisionOf item made
  made_again op item made s i =
      let (key, deps, mode) = init_keeps digest (revised op.objective item) i in
      record {
        same_id = key;
        same_dependencies = deps;
        same_mode = mode;
        same_contract = sealed item.contract_digest refl;
      }
    where
      sealed :
          (d : Option String)
          → item.contract_digest ≡ d
          → made.contract_digest ≡ item.contract_digest
      sealed none e = absurd (ground arith)
      sealed (some d) e = init_keeps_digest digest (revised op.objective item) e i ∙ sym e

  pub revise_items-Revises :
      (items : List WorkItem) {draft : Draft}
      → revise_items digest remove_ids changes items ≡ ok draft
      → Revises digest remove_ids changes items draft
  unfolding revise_items
  revise_items-Revises [] h = done (ground arith) (ground arith)
  revise_items-Revises (item ∷ items) {draft} h =
      let (step, s, h1) = >>=-eq-ok (revise_item digest remove_ids changes item) _ h in
      let (before, r, h2) = >>=-eq-ok (revise_items digest remove_ids changes items) _ h1 in
      let same : step before ≡ draft = cc in
      subst (Revises digest remove_ids changes (item ∷ items)) same
        (step_revises item items before s (revise_items-Revises items r))

  -- The ids of the new items are those that are not removed, in their order.
  pub item_ids-revised :
      {items : List WorkItem} {draft : Draft}
      → Revises digest remove_ids changes items draft
      → item_ids draft.next_items ≡ filter (λ key. not (elem key remove_ids)) (item_ids items)
  item_ids-revised (done n i) = rw n refl
  item_ids-revised (dropped t r) = let rest = item_ids-revised r in ground arith
  item_ids-revised (kept f n r) = let rest = item_ids-revised r in ground arith
  item_ids-revised (replaced {item} op made f o m r) =
      let rest = item_ids-revised r in
      let (same, d, e) = init_keeps digest (revised op.objective item) m in ground arith

  -- An item that no operation is about is still there.
  pub mem-revised :
      {items : List WorkItem} {draft : Draft} {item : WorkItem}
      → Revises digest remove_ids changes items draft
      → Memᴰ item items
      → elem item.id remove_ids ≡ false
      → change_of changes item ≡ none
      → Memᴰ item draft.next_items
  mem-revised (done n i) m f c = elim m [ ]
  mem-revised (dropped t r) (Memᴰ.head same) f c =
      let here = ap (λ (w : WorkItem). elem w.id remove_ids) same in absurd (ground arith)
  mem-revised (dropped t r) (Memᴰ.tail m) f c = mem-revised r m f c
  mem-revised (kept g n r) (Memᴰ.head same) f c = Memᴰ.head same
  mem-revised (kept g n r) (Memᴰ.tail m) f c = Memᴰ.tail (mem-revised r m f c)
  mem-revised (replaced op made g o i r) (Memᴰ.head same) f c =
      let here = ap (change_of changes) same in absurd (ground arith)
  mem-revised (replaced op made g o i r) (Memᴰ.tail m) f c = Memᴰ.tail (mem-revised r m f c)

  -- Every new item is an old one, or one made from it.
  pub revised-mem :
      {items : List WorkItem} {draft : Draft} {new : WorkItem}
      → all is_sealed items ≡ true
      → Revises digest remove_ids changes items draft
      → Memᴰ new draft.next_items
      → (old : WorkItem) × Memᴰ old items × IsRevisionOf old new
  revised-mem {new = new} s (done n i) m =
      let none_left = subst (Memᴰ new) n m in elim none_left [ ]
  revised-mem s (dropped t r) m =
      let (old, o, rest) = revised-mem (ground arith) r m in (old, Memᴰ.tail o, rest)
  revised-mem {new = new} s (kept {item} f n r) (Memᴰ.head same) =
      (item, Memᴰ.head refl, subst (IsRevisionOf item) (sym same) (unrevised item))
  revised-mem s (kept f n r) (Memᴰ.tail m) =
      let (old, o, rest) = revised-mem (ground arith) r m in (old, Memᴰ.tail o, rest)
  revised-mem {new = new} s (replaced {item} op made f o i r) (Memᴰ.head same) = (
    item,
    Memᴰ.head refl,
    subst (IsRevisionOf item) (sym same) (made_again op item made (ground arith) i),
  )
  revised-mem s (replaced op made f o i r) (Memᴰ.tail m) =
      let (old, o', rest) = revised-mem (ground arith) r m in (old, Memᴰ.tail o', rest)

  abbrev pub is_touched : WorkItem → Bool
  is_touched item = elem item.id remove_ids || is_changed (change_of changes item)

  -- The ids that are invalidated are those of the items that are dropped or made again.
  pub invalidated-revised :
      {items : List WorkItem} {draft : Draft} (key : String)
      → Revises digest remove_ids changes items draft
      → elem key draft.invalidated ≡ any (λ item. key == item.id && is_touched item) items
  invalidated-revised key (done n i) = rw i refl
  invalidated-revised key (dropped t r) = let rest = invalidated-revised key r in ground arith
  invalidated-revised key (kept f n r) = let rest = invalidated-revised key r in ground arith
  invalidated-revised key (replaced {item} op made f o i r) =
      let rest = invalidated-revised key r in
      let (same, d, e) = init_keeps digest (revised op.objective item) i in ground arith
