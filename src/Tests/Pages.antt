-- ===== src/Tests/Pages.antt =====
-- The theorems on pages, tried on a collection of 45 items.
use realmroot.Prelude.{
  true, none, some, ◌≡◌, ◌≤◌, ◌<◌, ◌+◌, ◌↔◌, refl, arith, all, leb, nat_eq, not, ◌&&◌, List, [],
  ◌∷◌,
}
use realmroot.Pagination.{
  PaginationQuery, PaginationMetadata, pagination_input, pagination_metadata, is_metadata,
  parse_query, pagination_link_header, Link, link,
}
use realmroot.Pagination.Laws.{index_on_page, parsed_query_round_trip, links_in_range}

abbrev second : PaginationQuery
second = record { page = 2; page_size = 20 }

index_on_page_example :
    ((((pagination_input second).offset ≤ 39)
        × (39 < (pagination_input second).offset + (pagination_input second).limit))
      ↔ (second.page ≡ (pagination_metadata (record { limit = 20; offset = 39 }) 45).page))
    × ((pagination_metadata (record { limit = 20; offset = 39 }) 45).page
        ≤ (pagination_metadata (pagination_input second) 45).total_pages)
index_on_page_example = index_on_page second 45 39 (omega arith) (omega arith) (omega arith)

second_parsed : parse_query (some 2) none ≡ some second
unfolding parse_query
second_parsed = refl

parsed_query_round_trip_example :
    ((pagination_metadata (pagination_input second) 45).page ≡ 2)
    × (is_metadata (pagination_metadata (pagination_input second) 45) ≡ true)
parsed_query_round_trip_example =
    parsed_query_round_trip (some 2) none second 45 second_parsed (omega arith) (omega arith)

abbrev second_of_three : PaginationMetadata
second_of_three = record { page = 2; page_size = 20; total_items = 45; total_pages = 3 }

abbrev four_links : List Link
four_links = link 1 20 "first" ∷ link 1 20 "previous" ∷ link 3 20 "next" ∷ link 3 20 "last" ∷ []

second_links : pagination_link_header second_of_three ≡ some four_links
unfolding pagination_link_header
second_links = refl

links_in_range_example :
    all (λ l. leb 1 l.page && (leb l.page 3 && not (nat_eq l.page 2))) four_links ≡ true
links_in_range_example =
    links_in_range second_of_three four_links (omega arith) (omega arith) second_links
