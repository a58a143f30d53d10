-- ===== src/Results/Trigram/Metadata.antt =====
-- Which row of the database is shown for a candidate.
use clipkitty.Base.{
  Bool, true, ◌&&◌, Option, none, some, String, str_eq, eq_iff, List, [], ◌∷◌, keep, any, last?,
  ◌≡◌, refl, ◌∙◌, sym, ap, arith,
}
use clipkitty.Base.Map.{IsEq, lookup, insert, lookup-insert}
use clipkitty.Results.Query.{
  ContentTypeFilter, all_types, text, images, links, colors, files, matches_db_type,
}
use clipkitty.Results.Trigram.{
  SearchRowMetadata, metadata_matches_filter, has_tag, RowMap, collect_rows, metadata_map,
}

-- The type of a row is the one that the filter is about.
abbrev pub is_of_type : Option ContentTypeFilter → String → Bool
is_of_type none db_type = true
is_of_type (some all_types) db_type = true
is_of_type (some text) db_type = str_eq "text" db_type
is_of_type (some images) db_type = str_eq "image" db_type
is_of_type (some links) db_type = str_eq "link" db_type
is_of_type (some colors) db_type = str_eq "color" db_type
is_of_type (some files) db_type = str_eq "file" db_type

-- Where items with a tag are asked for, the item is one of them.
abbrev pub is_tagged : Option (List String) → String → Bool
is_tagged none item_id = true
is_tagged (some ids) item_id = any (λ id. str_eq id item_id) ids

-- The last row of the item that passes both tests.
abbrev pub row_shown :
    Option ContentTypeFilter
    → Option (List String)
    → List SearchRowMetadata
    → String
    → Option SearchRowMetadata
row_shown filter tagged rows id = last? (
    keep
      (λ row.
        str_eq row.item_id id && (is_tagged tagged row.item_id && is_of_type filter row.db_type))
      rows)

-- The first of two that is there.
abbrev or_else : Option SearchRowMetadata → Option SearchRowMetadata → Option SearchRowMetadata
or_else none other = other
or_else (some row) other = some row

last?-cons :
    (row : SearchRowMetadata) (rows : List SearchRowMetadata)
    → last? (row ∷ rows) ≡ or_else (last? rows) (some row)
last?-cons row [] = refl
last?-cons row (next ∷ rows) =
    last?-cons next rows
    ∙ sym (or_else_some (last? rows) next row)
    ∙ sym (ap (λ found. or_else found (some row)) (last?-cons next rows))
  where
    or_else_some :
        (found : Option SearchRowMetadata) (next row : SearchRowMetadata)
        → or_else (or_else found (some next)) (some row) ≡ or_else found (some next)
    or_else_some none next row = refl
    or_else_some (some r) next row = refl

lookup-collect_rows :
    (id : String) (m : RowMap) (rows : List SearchRowMetadata)
    → lookup str_eq id (collect_rows m rows)
      ≡ or_else (last? (keep (λ row. str_eq row.item_id id) rows)) (lookup str_eq id m)
unfolding collect_rows
lookup-collect_rows id m [] = refl
lookup-collect_rows id m (row ∷ rows) =
    let later = lookup-collect_rows id (insert str_eq row.item_id row m) rows in
    let law : IsEq str_eq = record { eq_iff = λ a b. eq_iff a b } in
    let here = lookup-insert str_eq law row.item_id id row m in
    let ends = last?-cons row (keep (λ r. str_eq r.item_id id) rows) in
    ground (arith, later, here, ends)

metadata_matches_filter-is_of_type :
    (filter : Option ContentTypeFilter) (row : SearchRowMetadata)
    → metadata_matches_filter filter row ≡ is_of_type filter row.db_type
unfolding matches_db_type
metadata_matches_filter-is_of_type none row = refl
metadata_matches_filter-is_of_type (some all_types) row = refl
metadata_matches_filter-is_of_type (some text) row = ground arith
metadata_matches_filter-is_of_type (some images) row = ground arith
metadata_matches_filter-is_of_type (some links) row = ground arith
metadata_matches_filter-is_of_type (some colors) row = ground arith
metadata_matches_filter-is_of_type (some files) row = ground arith

has_tag-is_tagged :
    (tagged : Option (List String)) (row : SearchRowMetadata)
    → has_tag tagged row ≡ is_tagged tagged row.item_id
has_tag-is_tagged none row = refl
has_tag-is_tagged (some ids) row = refl

keep-keep :
    (p q r t : SearchRowMetadata → Bool)
    → ((row : SearchRowMetadata) → (p row && (r row && q row)) ≡ t row)
    → (rows : List SearchRowMetadata) → keep p (keep q (keep r rows)) ≡ keep t rows
keep-keep p q r t h [] = refl
keep-keep p q r t h (row ∷ rows) = ground (arith, keep-keep p q r t h rows, h row)

keep_all_tests :
    (filter : Option ContentTypeFilter) (tagged : Option (List String)) (id : String)
    (rows : List SearchRowMetadata)
    → keep
        (λ row. str_eq row.item_id id)
        (keep (metadata_matches_filter filter) (keep (has_tag tagged) rows))
      ≡ keep
          (λ row.
            str_eq row.item_id id
            && (is_tagged tagged row.item_id && is_of_type filter row.db_type))
          rows
keep_all_tests filter tagged id rows =
    keep-keep (λ row. str_eq row.item_id id) (metadata_matches_filter filter) (has_tag tagged) _
      (λ row.
        ap (λ b. str_eq row.item_id id && (has_tag tagged row && b))
          (metadata_matches_filter-is_of_type filter row)
        ∙ ap (λ b. str_eq row.item_id id && (b && is_of_type filter row.db_type))
            (has_tag-is_tagged tagged row))
      rows

or_else-none : (found : Option SearchRowMetadata) → or_else found none ≡ found
or_else-none none = refl
or_else-none (some row) = refl

-- The map that the search makes of the rows has for each item the row that is shown.
pub lookup-metadata_map :
    (filter : Option ContentTypeFilter) (tagged : Option (List String))
    (rows : List SearchRowMetadata) (id : String)
    → lookup str_eq id (metadata_map filter tagged rows) ≡ row_shown filter tagged rows id
unfolding metadata_map lookup
lookup-metadata_map filter tagged rows id =
    lookup-collect_rows id [] (keep (metadata_matches_filter filter) (keep (has_tag tagged) rows))
    ∙ or_else-none _
    ∙ ap last? (keep_all_tests filter tagged id rows)
