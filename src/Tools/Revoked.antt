-- ===== src/Tools/Revoked.antt =====
-- What `revoke` does to the active grants of a store (app/tool_manager/grants.py).
use project_os.Base.{
  ℕ, String, ◌≡◌, ◌↔◌, ◌⊎◌, refl, ap, sym, ◌∙◌, subst, true, false, Option, List, [], ◌∷◌, Memᴰ,
  ◌==◌, string_eq, elem, elem-map_of_mem, filter_test, mem-filter, filter-mem, map, mem_map,
  mem-map, find?, ok, arith, inl, inr, Bool-cases, Option-cases,
}
use project_os.Tools.{CapabilityGrant, is_active}
use project_os.Tools.Grants.{
  GrantFiles, read_all, write_all, is_own, list_all, list_active, revoke_first, revoke, parsed,
}
use project_os.Tools.Written.{mem-read_written, read_written-mem, parsed-listed, listed_once}
use project_os.Tools.Once.{ids, once_named}

-- Revoking changes no id,
ids-revoke_first :
    (grant_id : String) (grants : List CapabilityGrant)
    → ids (revoke_first grant_id grants) ≡ ids grants
ids-revoke_first grant_id [] = refl
ids-revoke_first grant_id (x ∷ grants) = elim (Bool-cases (x.grant_id == grant_id)) [
  | inl t ↦ rw t refl
  | inr f ↦ rw f (ap (◌∷◌ x.grant_id) (ids-revoke_first grant_id grants))
]

-- keeps the grants of other ids,
revoke_first-keeps :
    (grant_id : String) {other : CapabilityGrant} (grants : List CapabilityGrant)
    → Memᴰ other grants
    → (other.grant_id == grant_id) ≡ false
    → Memᴰ other (revoke_first grant_id grants)
revoke_first-keeps grant_id [] m n = elim m [ ]
revoke_first-keeps grant_id (x ∷ grants) (Memᴰ.head e) n =
    let apart = ap (λ (w : CapabilityGrant). w.grant_id == grant_id) (sym e) ∙ n in
    rw apart (Memᴰ.head e)
revoke_first-keeps grant_id (x ∷ grants) (Memᴰ.tail m) n =
    elim (Bool-cases (x.grant_id == grant_id)) [
      | inl t ↦ rw t (Memᴰ.tail m)
      | inr f ↦ rw f (Memᴰ.tail (revoke_first-keeps grant_id grants m n))
    ]

-- and leaves nothing else but a revoked grant.
revoke_first-only :
    (grant_id : String) {other : CapabilityGrant} (grants : List CapabilityGrant)
    → (grant_id == "") ≡ false
    → once_named (ids grants) ≡ true
    → Memᴰ other (revoke_first grant_id grants)
    → (Memᴰ other grants × ((other.grant_id == grant_id) ≡ false)) ⊎ (other.status ≡ "revoked")
revoke_first-only grant_id [] n o m = elim m [ ]
revoke_first-only grant_id {other} (x ∷ grants) n o m = elim (Bool-cases (x.grant_id == grant_id)) [
  | inl t ↦ replaced t (rw t at m)
  | inr f ↦ kept f (rw f at m) (revoke_first-only grant_id grants n (ground arith))
]
  where
    not_again :
        x.grant_id == grant_id ≡ true → Memᴰ other grants → (other.grant_id == grant_id) ≡ false
    not_again t k = elim (Bool-cases (other.grant_id == grant_id)) [
      | inl e ↦
          let first = (string_eq.beq_iff x.grant_id grant_id).0 t in
          let second = (string_eq.beq_iff other.grant_id grant_id).0 e in
          let there = elem-map_of_mem (λ (w : CapabilityGrant). w.grant_id) grants k in
          let moved = ap (λ key. elem key (ids grants)) (second ∙ sym first) in
          let named = ap (λ key. key == "") first in absurd (ground arith)
      | inr f ↦ f
    ]

    replaced :
        x.grant_id == grant_id ≡ true
        → Memᴰ other (record x { status = "revoked" } ∷ grants)
        → (Memᴰ other (x ∷ grants) × ((other.grant_id == grant_id) ≡ false))
          ⊎ (other.status ≡ "revoked")
    replaced t (Memᴰ.head e) = inr (ap (λ (w : CapabilityGrant). w.status) e)
    replaced t (Memᴰ.tail k) = inl (Memᴰ.tail k, not_again t k)

    kept :
        x.grant_id == grant_id ≡ false
        → Memᴰ other (x ∷ revoke_first grant_id grants)
        → (Memᴰ other (revoke_first grant_id grants)
            → (Memᴰ other grants × ((other.grant_id == grant_id) ≡ false))
              ⊎ (other.status ≡ "revoked"))
        → (Memᴰ other (x ∷ grants) × ((other.grant_id == grant_id) ≡ false))
          ⊎ (other.status ≡ "revoked")
    kept f (Memᴰ.head e) rec =
        inl (Memᴰ.head e, ap (λ (w : CapabilityGrant). w.grant_id == grant_id) e ∙ f)
    kept f (Memᴰ.tail k) rec = elim (rec k) [
      | inl both ↦ inl (Memᴰ.tail both.0, both.1)
      | inr r ↦ inr r
    ]

revoke-eq-ok :
    (trace_id grant_id : String) (files : GrantFiles) {grant : CapabilityGrant} {after : GrantFiles}
    → revoke trace_id grant_id files ≡ ok (grant, after)
    → write_all (revoke_first grant_id (list_all trace_id files)) files ≡ after
unfolding revoke
revoke-eq-ok trace_id grant_id files {grant} {after} h =
    elim (Option-cases (find? (λ grant. grant.grant_id == grant_id) (list_all trace_id files))) [
      | inl n ↦ absurd (let e = rw (n, revoke) at h in cc)
      | inr (found, f) ↦ let e = rw (f, revoke) at h in cc
    ]

module _ (parse_time : String → Option ℕ) (now : ℕ) where
  revoked_inactive :
      (grant : CapabilityGrant) → grant.status ≡ "revoked" → is_active parse_time now grant ≡ false
  unfolding is_active
  revoked_inactive grant r = let e = ap (λ s. s == "active") r in ground arith

  -- After a revocation exactly those grants are active that were active before and have another id.
  pub list_active-revoke :
      (trace_id grant_id : String) (files : GrantFiles) {grant : CapabilityGrant}
      {after : GrantFiles} (other : CapabilityGrant)
      → revoke trace_id grant_id files ≡ ok (grant, after)
      → (grant_id == "") ≡ false
      → (other.grant_id == "") ≡ false
      → Memᴰ other (list_active parse_time now trace_id after).0 ↔ (
          Memᴰ other (list_active parse_time now trace_id files).0
          × ((other.grant_id == grant_id) ≡ false))
  unfolding list_active list_all
  list_active-revoke trace_id grant_id files {grant} {after} other h n n' =
      let before = list_all trace_id files in
      let written = revoke_first grant_id before in
      let same = revoke-eq-ok trace_id grant_id files h in
      let once = listed_once trace_id files in
      let once' = ap once_named (ids-revoke_first grant_id before) ∙ once in
      (
        λ m.
            let here = mem-filter (is_active parse_time now) (list_all trace_id after) m in
            let active = filter_test (is_active parse_time now) (list_all trace_id after) m in
            let (raw, r, from) =
              mem-map parsed (read_all after)
                (mem-filter (is_own trace_id) (map parsed (read_all after)) here) in
            let kept =
              read_written-mem written files (subst (λ f. Memᴰ raw (read_all f)) (sym same) r) in
            elim (revoke_first-only grant_id before n once kept) [
              | inl both ↦
                  let it = sym (parsed-listed trace_id files both.0) ∙ from in
                  (
                    filter-mem (is_active parse_time now) before
                        (subst (λ g. Memᴰ g before) it both.0) active,
                    ap (λ (g : CapabilityGrant). g.grant_id == grant_id) (sym from) ∙ both.1,
                  )
              | inr r ↦
                  let its = ap (λ (g : CapabilityGrant). g.status) (sym from) ∙ r in
                  absurd (let e = revoked_inactive other its in cc)
            ],
        λ both.
            let old = mem-filter (is_active parse_time now) before both.0 in
            let active = filter_test (is_active parse_time now) before both.0 in
            let own = filter_test (is_own trace_id) (map parsed (read_all files)) old in
            let kept = revoke_first-keeps grant_id before old both.1 in
            let read = mem-read_written written files once' n' kept in
            let there = subst (λ f. Memᴰ other (read_all f)) same read in
            filter-mem (is_active parse_time now) (list_all trace_id after)
              (filter-mem (is_own trace_id) (map parsed (read_all after))
                (subst (λ g. Memᴰ g (map parsed (read_all after)))
                  (parsed-listed trace_id files old) (mem_map parsed (read_all after) there))
                own)
              active,
      )
