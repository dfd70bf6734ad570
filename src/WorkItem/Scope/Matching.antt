-- ===== src/WorkItem/Scope/Matching.antt =====
-- What matches the paths of a repair that was checked matches those of the work item, at the gate
-- (app/orchestration/work_item.py, app/domain/code/git_service.py).
use project_os.Base.{
  ℕ, String, ◌≡◌, refl, Bool, true, false, not, ◌||◌, List, [], ◌∷◌, ◌++◌, Memᴰ, string_eq, list_eq,
  option_eq, all, all-mem, any, any-mem, any_intro, elem, elem-mem, mem-elem, subset, subset-elem,
  codes, glob, if◌then◌else◌, Bool-cases, nat_eq, inl, inr, ok, arith,
}
use project_os.Execution.{mode_eq}
use project_os.WorkItem.Paths.{slash, ends, single_stars, within_pattern}
use project_os.WorkItem.Scope.{
  is_wild, is_inside, check_revised, normalized, matches_one, matches_any,
}
use project_os.WorkItem.Scope.Literal.{glob_literal, glob-single_stars_literal}

-- No pattern ends with a slash, which the write gate would extend.
abbrev pub no_directories : List String → Bool
no_directories = all (λ pattern. not (ends (codes pattern) (slash ∷ [])))

-- A path that was checked is one of the wildcards, or matches one of the patterns.
check_revised-mem :
    (allowed paths : List String)
    → check_revised allowed paths ≡ ok tt
    → {path : String} → Memᴰ path paths
    → (if is_wild path then elem path allowed else is_inside allowed path) ≡ true
unfolding check_revised
check_revised-mem allowed [] h m = elim m [ ]
check_revised-mem allowed (p ∷ paths) h (Memᴰ.head e) = rw e (ground arith)
check_revised-mem allowed (p ∷ paths) h (Memᴰ.tail m) =
    check_revised-mem allowed paths (ground arith) m

normalized_plain :
    (pattern : String)
    → ends (codes pattern) (slash ∷ []) ≡ false
    → normalized pattern ≡ codes pattern
normalized_plain pattern h = rw h refl

pub or_right : (a b : Bool) → b ≡ true → (a || b) ≡ true
or_right a b h = ground arith

-- What matches a pattern without a slash at its end in the check matches it at the gate.
matches_one_of_within :
    (pattern path : String) (candidate : List ℕ)
    → ends (codes pattern) (slash ∷ []) ≡ false
    → candidate ≡ codes path
    → within_pattern (codes path) (codes pattern) ≡ true
    → matches_one candidate pattern ≡ true
unfolding within_pattern
matches_one_of_within pattern path candidate bare same h =
    let at_gate : glob candidate (single_stars (normalized pattern)) ≡ true =
      rw (normalized_plain pattern bare, same) h in
    or_right _ (glob candidate (single_stars (normalized pattern))) at_gate

-- A candidate that matches a checked path matches a pattern.
matches-checked :
    (allowed : List String) (path : String) (candidate : List ℕ)
    → no_directories allowed ≡ true
    → ends (codes path) (slash ∷ []) ≡ false
    → (if is_wild path then elem path allowed else is_inside allowed path) ≡ true
    → matches_one candidate path ≡ true
    → any (matches_one candidate) allowed ≡ true
matches-checked allowed path candidate plain bare h m = elim (Bool-cases (is_wild path)) [
  | inl wild ↦ any_intro (matches_one candidate) allowed (elem-mem path allowed (ground arith)) m
  | inr literal ↦
      let inside : is_inside allowed path ≡ true = ground arith in
      let (pattern, pm, t) =
        any-mem (λ pattern. within_pattern (codes path) (codes pattern)) allowed inside in
      let no_slash =
        all-mem (λ pattern. not (ends (codes pattern) (slash ∷ []))) allowed plain pm in
      let m' : (glob candidate (codes path) || glob candidate (single_stars (codes path))) ≡ true =
        rw (normalized_plain path bare) at m in
      let same = is_path literal m' in
      any_intro (matches_one candidate) allowed pm
        (matches_one_of_within pattern path candidate (ground arith) same t)
]
  where
    is_path :
        is_wild path ≡ false
        → (glob candidate (codes path) || glob candidate (single_stars (codes path))) ≡ true
        → candidate ≡ codes path
    is_path literal either = elim (Bool-cases (glob candidate (codes path))) [
      | inl t ↦ glob_literal (codes path) candidate literal t
      | inr f ↦ glob-single_stars_literal (codes path) candidate literal (ground arith)
    ]

-- What the gate's pattern list grants to the repaired item it grants to the original.
pub matches_any-checked :
    (allowed paths : List String) (path : List ℕ)
    → no_directories allowed ≡ true
    → no_directories paths ≡ true
    → check_revised allowed paths ≡ ok tt
    → matches_any path paths ≡ true
    → matches_any path allowed ≡ true
unfolding matches_any
matches_any-checked allowed paths path plain plain' h m =
    let candidates = path ∷ (codes "workspace/" ++ path) ∷ [] in
    let (candidate, cm, t) = any-mem (λ c. any (matches_one c) paths) candidates m in
    let (granted, gm, q) = any-mem (matches_one candidate) paths t in
    let bare = all-mem (λ pattern. not (ends (codes pattern) (slash ∷ []))) paths plain' gm in
    any_intro (λ c. any (matches_one c) allowed) candidates cm
      (matches-checked allowed granted candidate plain (ground arith)
        (check_revised-mem allowed paths h gm) q)

-- Fewer denied patterns deny less.
pub matches_any-subset :
    (xs ys : List String) (path : List ℕ)
    → subset xs ys ≡ true
    → matches_any path ys ≡ false
    → matches_any path xs ≡ false
unfolding matches_any
matches_any-subset xs ys path sub h = elim (Bool-cases (matches_any path xs)) [
  | inl t ↦
      let candidates = path ∷ (codes "workspace/" ++ path) ∷ [] in
      let (candidate, cm, q) = any-mem (λ c. any (matches_one c) xs) candidates t in
      let (pattern, pm, r) = any-mem (matches_one candidate) xs q in
      let there = elem-mem pattern ys (subset-elem pattern xs ys sub (mem-elem xs pm)) in
      let found =
        any_intro (λ c. any (matches_one c) ys) candidates cm
          (any_intro (matches_one candidate) ys there r) in
      cc
  | inr f ↦ f
]
