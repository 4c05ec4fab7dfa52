-- ===== src/Pagination.antt =====
-- shared/api/pagination.ts and server/http/middleware/pagination.ts: the pages of a collection.
-- Numbers are natural numbers, and the definitions are the source's as long as the offset and the total
-- are below 2 ^ 53, where a JavaScript number is exact and the rounding of a quotient is right. The page
-- is the caller's, so that an offset beyond that can be asked for: there the source rounds it. A page
-- size is at least 1 by the schema of a query, so that no division by 0 happens.
pub mod Laws
use realmroot.Prelude.{
  ℕ, String, Bool, true, false, Option, none, some, List, [], ◌∷◌, ◌++◌, ◌+◌, ◌-◌, ◌*◌, ◌/◌, ◌%◌,
  ◌&&◌, leb, ltb, nat_eq, get_or, if◌then◌else◌,
}

-- 2 ^ 53
abbrev pub exact_below : ℕ
exact_below = 9007199254740992

pub record PaginationQuery : Type 0 where
  pub page : ℕ
  pub page_size : ℕ

pub record PaginationMetadata : Type 0 where
  pub page : ℕ
  pub page_size : ℕ
  pub total_items : ℕ
  pub total_pages : ℕ

pub record PaginationInput : Type 0 where
  pub limit : ℕ
  pub offset : ℕ

-- `paginationQuerySchema`, once its texts are numbers
unfoldable pub parse_query : Option ℕ → Option ℕ → Option PaginationQuery
parse_query page size =
    if leb 1 (get_or page 1) && (leb 1 (get_or size 20) && leb (get_or size 20) 100)
    then some (record { page = get_or page 1; page_size = get_or size 20 })
    else none

-- `Math.ceil(a / b)`
abbrev pub ceil_div : ℕ → ℕ → ℕ
ceil_div a b = if nat_eq (a % b) 0 then a / b else a / b + 1

-- `paginationMetadataSchema`
unfoldable pub is_metadata : PaginationMetadata → Bool
is_metadata pagination =
    leb 1 pagination.page
    && (ltb 0 pagination.page_size
        && nat_eq pagination.total_pages (ceil_div pagination.total_items pagination.page_size))

-- The source's quotients are doubles, right while the offset and the total are below `exact_below`.
unfoldable pub pagination_metadata : PaginationInput → ℕ → PaginationMetadata
pagination_metadata input total = record {
  page = input.offset / input.limit + 1;
  page_size = input.limit;
  total_items = total;
  total_pages = ceil_div total input.limit;
}

-- The source's product is a double: it is this number as long as that is below `exact_below`.
unfoldable pub pagination_input : PaginationQuery → PaginationInput
pagination_input query = record {
  limit = query.page_size;
  offset = (query.page - 1) * query.page_size;
}

-- What `link` puts in the query and in `rel`; the rest of the URL is that of the request.
pub record Link : Type 0 where
  pub page : ℕ
  pub page_size : ℕ
  pub relation : String

abbrev pub link : ℕ → ℕ → String → Link
link page page_size relation = record { page = page; page_size = page_size; relation = relation }

abbrev backward : PaginationMetadata → List Link
backward pagination =
    if ltb 1 pagination.page
    then link 1 pagination.page_size "first"
      ∷ link (pagination.page - 1) pagination.page_size "previous"
      ∷ []
    else []

abbrev forward : PaginationMetadata → List Link
forward pagination =
    if ltb pagination.page pagination.total_pages
    then link (pagination.page + 1) pagination.page_size "next"
      ∷ link pagination.total_pages pagination.page_size "last"
      ∷ []
    else []

-- `links.length ? ... : null`
abbrev not_empty : List Link → Option (List Link)
not_empty [] = none
not_empty (l ∷ ls) = some (l ∷ ls)

unfoldable pub pagination_link_header : PaginationMetadata → Option (List Link)
pagination_link_header pagination =
    if nat_eq pagination.total_pages 0
    then none
    else not_empty (backward pagination ++ forward pagination)
