-- ===== src/Patch/Targets.antt =====
-- Which items a patch is about (app/planner/patch.py): the ids of its modifications and removals.
use project_os.Base.{
  String, ◌≡◌, refl, ap, sym, ◌∙◌, Bool, true, false, not, ◌&&◌, ◌||◌, Option, none, some, List, [],
  ◌∷◌, ◌++◌, map, ◌==◌, string_eq, option_eq, elem, all, elem-append, ok, refuse_if,
  refuse_if-eq-ok, >>-eq-ok, arith, inl, inr, Bool-cases, Option-cases,
}
use project_os.WorkItem.{WorkItem}
use project_os.Patch.{
  PatchOperation, given, texts_given, referenced_ids, modified, removed, unknown_item,
  completed_item,
}
use project_os.Patch.Checks.{check_targets}
use project_os.Patch.Apply.{change_of}
use project_os.Patch.Revisions.{is_changed}

-- The ids that the modifications and the removals name.
abbrev pub target_ids : List PatchOperation → List String
target_ids operations = referenced_ids (modified operations ++ removed operations)

texts_given-append :
    (xs ys : List (Option String)) → texts_given (xs ++ ys) ≡ texts_given xs ++ texts_given ys
texts_given-append [] ys = refl
texts_given-append (none ∷ xs) ys = texts_given-append xs ys
texts_given-append (some x ∷ xs) ys = elim (Bool-cases (x == "")) [
  | inl t ↦ rw t (texts_given-append xs ys)
  | inr f ↦ rw f (ap (◌∷◌ x) (texts_given-append xs ys))
]

map-append :
    (xs ys : List PatchOperation)
    → map (λ (op : PatchOperation). op.work_item_id) (xs ++ ys)
      ≡ map (λ (op : PatchOperation). op.work_item_id) xs
        ++ map (λ (op : PatchOperation). op.work_item_id) ys
map-append [] ys = refl
map-append (x ∷ xs) ys = ap (◌∷◌ x.work_item_id) (map-append xs ys)

pub elem-referenced_ids :
    (key : String) (xs ys : List PatchOperation)
    → elem key (referenced_ids (xs ++ ys))
      ≡ (elem key (referenced_ids xs) || elem key (referenced_ids ys))
elem-referenced_ids key xs ys =
    rw
      (
        map-append xs ys,
        texts_given-append (map (λ (op : PatchOperation). op.work_item_id) xs)
            (map (λ (op : PatchOperation). op.work_item_id) ys),
      )
      (elem-append key (referenced_ids xs) (referenced_ids ys))

-- Each of them is the id of an item, and not that of a completed one unless that is allowed.
pub check_targets_lem :
    (ids completed : List String) (allow : Bool) (operations : List PatchOperation)
    → check_targets ids completed allow operations ≡ ok tt
    → (key : String) → elem key (referenced_ids operations) ≡ true
    → (elem key ids ≡ true) × ((elem key completed && not allow) ≡ false)
unfolding check_targets
check_targets_lem ids completed allow [] h key m = cc
check_targets_lem ids completed allow (op ∷ operations) h key m =
    elim (Option-cases op.work_item_id) [
      | inl n ↦ absurd (let refused = rw n at h in cc)
      | inr (name, o) ↦
          let (c1, h1) =
            >>-eq-ok (refuse_if (name == "" || not (elem name ids)) unknown_item) _ (rw o at h) in
          let (c2, h2) =
            >>-eq-ok (refuse_if (elem name completed && not allow) (completed_item name)) _ h1 in
          let named = refuse_if-eq-ok (name == "" || not (elem name ids)) unknown_item c1 in
          let free = refuse_if-eq-ok (elem name completed && not allow) (completed_item name) c2 in
          let there : elem key
                (texts_given (some name ∷ map (λ (o : PatchOperation). o.work_item_id) operations))
              ≡ true =
            rw o at m in
          elim (Bool-cases (key == name)) [
            | inl t ↦
                let same = sym ((string_eq.beq_iff key name).0 t) in
                (
                  ap (λ k. elem k ids) (sym same) ∙ (ground arith),
                  ap (λ k. elem k completed && not allow) (sym same) ∙ free,
                )
            | inr f ↦ check_targets_lem ids completed allow operations h2 key (ground arith)
          ]
    ]

-- Each of them names an item.
abbrev is_named : PatchOperation → Bool
is_named op = given op.work_item_id

check_targets_named :
    (ids completed : List String) (allow : Bool) (operations : List PatchOperation)
    → check_targets ids completed allow operations ≡ ok tt
    → all is_named operations ≡ true
unfolding check_targets
check_targets_named ids completed allow [] h = refl
check_targets_named ids completed allow (op ∷ operations) h = elim (Option-cases op.work_item_id) [
  | inl n ↦ absurd (let refused = rw n at h in cc)
  | inr (name, o) ↦
      let (c1, h1) =
        >>-eq-ok (refuse_if (name == "" || not (elem name ids)) unknown_item) _ (rw o at h) in
      let (c2, h2) =
        >>-eq-ok (refuse_if (elem name completed && not allow) (completed_item name)) _ h1 in
      let named = refuse_if-eq-ok (name == "" || not (elem name ids)) unknown_item c1 in
      rw o (ground (arith, check_targets_named ids completed allow operations h2))
]

all-append :
    (p : PatchOperation → Bool) (xs ys : List PatchOperation)
    → all p (xs ++ ys) ≡ true
    → all p xs ≡ true
all-append p [] ys h = refl
all-append p (x ∷ xs) ys h = ground (arith, all-append p xs ys)

found_of_named :
    (changes : List PatchOperation) (item : WorkItem)
    → all is_named changes ≡ true
    → is_changed (change_of changes item) ≡ elem item.id (referenced_ids changes)
found_of_named [] item n = refl
found_of_named (op ∷ changes) item n = elim (Option-cases op.work_item_id) [
  | inl o ↦ absurd (let unnamed = rw o at n in cc)
  | inr (name, o) ↦
      let kept : (given (some name) && all is_named changes) ≡ true = rw o at n in
      let rest = found_of_named changes item (ground arith) in
      let nonempty : (name == "") ≡ false = ground arith in
      elim (Bool-cases (name == item.id)) [
        | inl t ↦ rw (o, t, nonempty, flipped name item.id t) refl
        | inr f ↦ rw (o, f, nonempty, flipped_not name item.id f) rest
      ]
]
  where
    flipped : (a b : String) → (a == b) ≡ true → (b == a) ≡ true
    flipped a b h = ground (arith, string_eq.beq_iff a b, string_eq.beq_iff b a)

    flipped_not : (a b : String) → (a == b) ≡ false → (b == a) ≡ false
    flipped_not a b h = ground (arith, string_eq.beq_iff a b, string_eq.beq_iff b a)

-- A modification is found for an item exactly where one names it.
pub is_changed-change_of :
    (ids completed : List String) (allow : Bool) (operations : List PatchOperation)
    (item : WorkItem)
    → check_targets ids completed allow (modified operations ++ removed operations) ≡ ok tt
    → is_changed (change_of (modified operations) item)
      ≡ elem item.id (referenced_ids (modified operations))
is_changed-change_of ids completed allow operations item h =
    found_of_named (modified operations) item (
      all-append is_named (modified operations) (removed operations)
        (check_targets_named ids completed allow (modified operations ++ removed operations) h))
