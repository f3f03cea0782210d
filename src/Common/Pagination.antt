-- ===== src/Common/Pagination.antt =====
-- Pages of a list: src/common/pagination.
use native.Mathlib.Nat.{mul-le-mul_right}
use spawn_backend.Prelude.{
  ℕ, ◌+◌, ◌-◌, ◌*◌, ◌≤◌, ◌<◌, ◌≡◌, Bool, true, ◌↔◌, arith, tests, zero, suc, ltb, ltb→lt, lt→ltb,
  ◌==◌, if◌then◌else◌, inl, inr, Bool-cases,
}
use spawn_backend.Protocol.Arithmetic.Rounding.{ceiling, ceiling_bounds}

pub record PageMeta : Type 0 where
  pub page : ℕ
  pub limit : ℕ
  pub total : ℕ
  pub total_pages : ℕ
  pub has_next : Bool

-- `Math.ceil(total / limit)`: the query's validation gives a limit from 1 to 100.
unfoldable pub page_count : ℕ → ℕ → ℕ
page_count total limit = if total == 0 then 0 else ceiling total limit

-- `pageMeta`.
unfoldable pub page_meta : ℕ → ℕ → ℕ → PageMeta
page_meta page limit total =
    let total_pages = page_count total limit in
    record {
      page = page;
      limit = limit;
      total = total;
      total_pages = total_pages;
      has_next = ltb page total_pages;
    }

-- `PaginationDto.skip`, for a page of at least 1.
unfoldable pub skip : ℕ → ℕ → ℕ
skip page limit = (page - 1) * limit

skip_lem : (page limit : ℕ) → 1 ≤ page → (page - 1) * limit + limit ≡ page * limit
skip_lem zero limit p = absurd (omega arith)
skip_lem (suc n) limit p = let e : suc n - 1 ≡ n = omega arith in rw e (omega arith)

count_lem :
    (page limit total : ℕ) → 1 ≤ limit → ((page < page_count total limit) ↔ (page * limit < total))
unfolding page_count
count_lem page limit total l = elim (Bool-cases (total == 0)) [
  | inl empty ↦ rw empty (ground arith)
  | inr full ↦
      let pages = ceiling total limit in
      let (covers, tight) = ceiling_bounds total limit l in
      rw full (
        λ h. let up : page + 1 ≤ pages = h' h in omega (arith, mul-le-mul_right limit up),
        λ h. elim (Bool-cases (ltb page pages)) [
          | inl less ↦ omega tests
          | inr more ↦
              let down : pages ≤ page = ground arith in
              absurd (omega (arith, mul-le-mul_right limit down))
        ],
      )
]
  where
    h' : page < ceiling total limit → page + 1 ≤ ceiling total limit
    h' h = omega arith

-- For a page and a limit of at least 1: there is a next page exactly when items lie behind the ones
-- that this page skips and shows.
pub has_next_iff :
    (page limit total : ℕ)
    → 1 ≤ page
    → 1 ≤ limit
    → ((page_meta page limit total).has_next ≡ true) ↔ (skip page limit + limit < total)
unfolding page_meta skip
has_next_iff page limit total p l =
    let e : (page - 1) * limit + limit ≡ page * limit = skip_lem page limit p in
    let c = count_lem page limit total l in
    rw e (
      λ h. c.0 (ltb→lt page (page_count total limit) h),
      λ h. lt→ltb page (page_count total limit) (c.1 h),
    )
