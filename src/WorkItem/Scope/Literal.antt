-- ===== src/WorkItem/Scope/Literal.antt =====
-- A pattern with none of the characters `*`, `?`, `[` and `]` matches itself only.
use project_os.Base.{
  ℕ, zero, suc, ◌≡◌, ◌≤◌, refl, true, false, List, [], ◌∷◌, nat_eq, nat_beq_iff, glob, tokens,
  literal, matches, nat_beq, length, arith,
}
use project_os.WorkItem.Paths.{single_stars, has_glob}

single_stars_literal :
    (pattern : List ℕ) → has_glob pattern ≡ false → single_stars pattern ≡ pattern
single_stars_literal [] h = refl
single_stars_literal (c ∷ []) h = refl
single_stars_literal (c ∷ d ∷ p) h = ground (arith, single_stars_literal (d ∷ p))

tokens_literal :
    (fuel c : ℕ) (p : List ℕ)
    → has_glob (c ∷ p) ≡ false
    → (tokens (suc fuel) (c ∷ p) ≡ literal c ∷ tokens fuel p) × (has_glob p ≡ false)
tokens_literal fuel c p h =
    let star_no : nat_beq c b'*' ≡ false = ground arith in
    let any_no : nat_beq c b'?' ≡ false = ground arith in
    let bracket_no : nat_beq c b'[' ≡ false = ground arith in
    (rw (star_no, any_no, bracket_no) refl, ground arith)

matches_literal :
    (fuel : ℕ) (pattern name : List ℕ)
    → length pattern ≤ fuel
    → has_glob pattern ≡ false
    → matches (tokens fuel pattern) name ≡ true
    → name ≡ pattern
matches_literal zero [] [] l h m = refl
matches_literal zero [] (d ∷ name) l h m = cc
matches_literal zero (c ∷ p) name l h m = absurd (omega arith)
matches_literal (suc fuel) [] [] l h m = refl
matches_literal (suc fuel) [] (d ∷ name) l h m = cc
matches_literal (suc fuel) (c ∷ p) [] l h m =
    let (shape, later) = tokens_literal fuel c p h in
    let step : matches (literal c ∷ tokens fuel p) [] ≡ true = rw shape at m in cc
matches_literal (suc fuel) (c ∷ p) (d ∷ name) l h m =
    let (shape, later) = tokens_literal fuel c p h in
    let step : matches (literal c ∷ tokens fuel p) (d ∷ name) ≡ true = rw shape at m in
    let here : d ≡ c = (nat_beq_iff d c).0 (ground arith) in
    let rest = matches_literal fuel p name (omega arith) later (ground arith) in
    λ i. here i ∷ rest i

pub glob_literal :
    (pattern name : List ℕ) → has_glob pattern ≡ false → glob name pattern ≡ true → name ≡ pattern
unfolding glob
glob_literal pattern name h m = matches_literal (length pattern) pattern name (omega arith) h m

pub glob-single_stars_literal :
    (pattern name : List ℕ)
    → has_glob pattern ≡ false
    → glob name (single_stars pattern) ≡ true
    → name ≡ pattern
glob-single_stars_literal pattern name h m =
    glob_literal pattern name h (rw (single_stars_literal pattern h) at m)
