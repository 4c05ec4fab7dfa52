-- ===== src/Pagination/Laws.antt =====
-- The pages of a collection, taken together.
use realmroot.Prelude.{
  ℕ, true, Option, some, List, ◌+◌, ◌-◌, ◌*◌, ◌/◌, ◌%◌, ◌≤◌, ◌<◌, ◌≡◌, ◌↔◌, arith, nat_eq, all, leb,
  ltb, subst, Bool-cases, inl, inr, ◌&&◌, not, sym,
}
use native.Mathlib.Nat.{
  le-div_iff_mul-le, div-lt_iff_lt-mul, div-add-mod', lt-div-mul-add, div-mul-le_self,
  mul-div_cancel,
}
use realmroot.Pagination.{
  PaginationQuery, PaginationMetadata, pagination_input, pagination_metadata, ceil_div, is_metadata,
  Link, pagination_link_header, parse_query, exact_below,
}

nat_eq-zero : (n : ℕ) → nat_eq n 0 ≡ true → n ≡ 0
nat_eq-zero n h = ground arith

whole : {a r x : ℕ} → x + r ≡ a → r ≡ 0 → a ≤ x
whole h k = omega arith

lt_le : {a b : ℕ} → a < b → a ≤ b
lt_le h = omega arith

next_page : (x b : ℕ) → (x + 1) * b ≡ x * b + b
next_page x b = omega arith

le-ceil_div : (a b : ℕ) → 0 < b → a ≤ ceil_div a b * b
le-ceil_div a b h = elim (Bool-cases (nat_eq (a % b) 0)) [
  | inl e ↦ rw e (whole (div-add-mod' a b) (nat_eq-zero (a % b) e))
  | inr e ↦ rw e (subst (λ n. a ≤ n) (sym (next_page (a / b) b)) (lt_le (lt-div-mul-add h)))
]

between : {x y : ℕ} → x ≤ y → y < x + 1 → x ≡ y
between h k = omega arith

page_of : {p y : ℕ} → 1 ≤ p → p - 1 ≡ y → p ≡ y + 1
page_of h e = omega arith

page_before : {p y : ℕ} → p ≡ y + 1 → p - 1 ≡ y
page_before e = omega arith

pred_succ : {p : ℕ} → 1 ≤ p → p - 1 + 1 ≡ p
pred_succ h = omega arith

succ_le : {x y : ℕ} → x < y → x + 1 ≤ y
succ_le h = omega arith

lt_of_lt_le : {x y z : ℕ} → x < y → y ≤ z → x < z
lt_of_lt_le h k = omega arith

offset_iff : (x b i : ℕ) → 0 < b → ((x * b ≤ i) × (i < x * b + b)) ↔ (x ≡ i / b)
offset_iff x b i h = (
  λ both.
      between ((le-div_iff_mul-le h).1 both.0)
        ((div-lt_iff_lt-mul h).1 (subst (λ n. i < n) (sym (next_page x b)) both.1)),
  λ e. rw e (div-mul-le_self i b, lt-div-mul-add h),
)

-- An item of a collection of `total` is within the limit and offset of a page exactly when that page is
-- the one that the metadata reports for the item's own offset, and it is one of the total pages.
pub index_on_page :
    (q : PaginationQuery) (total i : ℕ)
    → 1 ≤ q.page
    → 1 ≤ q.page_size
    → i < total
    → ((((pagination_input q).offset ≤ i)
          × (i < (pagination_input q).offset + (pagination_input q).limit))
        ↔ (q.page ≡ (pagination_metadata (record { limit = q.page_size; offset = i }) total).page))
      × ((pagination_metadata (record { limit = q.page_size; offset = i }) total).page
          ≤ (pagination_metadata (pagination_input q) total).total_pages)
unfolding pagination_input pagination_metadata
index_on_page q total i hp hs hi = (
  (
    λ both. page_of hp ((offset_iff (q.page - 1) q.page_size i hs).0 both),
    λ e. (offset_iff (q.page - 1) q.page_size i hs).1 (page_before e),
  ),
  succ_le ((div-lt_iff_lt-mul hs).1 (lt_of_lt_le hi (le-ceil_div total q.page_size hs))),
)

valid_metadata : (x b n : ℕ) → 1 ≤ b → (leb 1 (x + 1) && (ltb 0 b && nat_eq n n)) ≡ true
valid_metadata x b n h = ground arith

parse_query-bounds :
    (page size : Option ℕ) (q : PaginationQuery)
    → parse_query page size ≡ some q
    → (1 ≤ q.page) × (1 ≤ q.page_size)
unfolding parse_query
parse_query-bounds page size q h = ground arith

-- Where the offset and the total are below 2 ^ 53, the metadata for a query that was parsed reports the
-- page that was asked for, and passes the schema of metadata.
pub parsed_query_round_trip :
    (page size : Option ℕ) (q : PaginationQuery) (total : ℕ)
    → parse_query page size ≡ some q
    → (q.page - 1) * q.page_size < exact_below
    → total < exact_below
    → ((pagination_metadata (pagination_input q) total).page ≡ q.page)
      × (is_metadata (pagination_metadata (pagination_input q) total) ≡ true)
unfolding parse_query pagination_input pagination_metadata is_metadata
parsed_query_round_trip page size q total h exact_offset exact_total =
    let (hp, hs) = parse_query-bounds page size q h in
    (
      rw (mul-div_cancel (q.page - 1) hs) (pred_succ hp),
      valid_metadata ((q.page - 1) * q.page_size / q.page_size) q.page_size
          (ceil_div total q.page_size) hs,
    )

-- The links of a page that is one of the total pages lead to other pages, each one of the total pages.
pub links_in_range :
    (m : PaginationMetadata) (links : List Link)
    → 1 ≤ m.page
    → m.page ≤ m.total_pages
    → pagination_link_header m ≡ some links
    → all (λ l. leb 1 l.page && (leb l.page m.total_pages && not (nat_eq l.page m.page))) links
      ≡ true
unfolding pagination_link_header
links_in_range m links h k e = ground arith
