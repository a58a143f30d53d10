-- ===== src/Results/Query.antt =====
-- Queries and filters: `SearchQuery` of purr/src/search.rs, and the filters of purr/src/interface.rs.
use clipkitty.Base.{
  ltb, ◌==◌, Bool, true, not, Option, none, some, String, str_eq, List, [], ◌∷◌, any, length,
  is_empty, if◌then◌else◌,
}
use clipkitty.Ranking.Chars.{Text, Unicode, trim, trim_start}
use clipkitty.Highlight.Analysis.{min_trigram_query_len}

pub data SearchQuery : Type 0 where
  plain : Text → SearchQuery
  prefer_prefix : Text → Text → SearchQuery  -- raw_text, stripped_text

-- `strip_prefix('^')`; the circumflex is 94.
abbrev pub strip_caret : Text → Option Text
strip_caret [] = none
strip_caret (c ∷ s) = if c == 94 then some s else none

unfoldable pub parse : Unicode → Text → SearchQuery
parse u query =
    let trimmed : Text = trim u query in
    elim (strip_caret trimmed) [
      | none ↦ plain trimmed
      | some rest ↦
          let stripped : Text = trim_start u rest in
          if not (is_empty stripped) then prefer_prefix trimmed stripped else plain trimmed
    ]

abbrev pub raw_text : SearchQuery → Text
raw_text (plain text) = text
raw_text (prefer_prefix raw _) = raw

abbrev pub recall_text : SearchQuery → Text
recall_text (plain text) = text
recall_text (prefer_prefix _ stripped) = stripped

unfoldable pub uses_short_query_path : SearchQuery → Bool
uses_short_query_path q = ltb (length (recall_text q)) min_trigram_query_len

pub data ContentTypeFilter : Type 0 where
  all_types : ContentTypeFilter
  text : ContentTypeFilter
  images : ContentTypeFilter
  links : ContentTypeFilter
  colors : ContentTypeFilter
  files : ContentTypeFilter

abbrev pub database_types : ContentTypeFilter → Option (List String)
database_types all_types = none
database_types text = some ("text" ∷ [])
database_types images = some ("image" ∷ [])
database_types links = some ("link" ∷ [])
database_types colors = some ("color" ∷ [])
database_types files = some ("file" ∷ [])

unfoldable pub matches_db_type : ContentTypeFilter → String → Bool
matches_db_type filter db_type = elim (database_types filter) [
  | none ↦ true
  | some types ↦ any (λ t. str_eq t db_type) types
]

pub data ItemTag : Type 0 where
  bookmark : ItemTag

pub data ItemQueryFilter : Type 0 where
  all_items : ItemQueryFilter
  content_type : ContentTypeFilter → ItemQueryFilter
  tagged : ItemTag → ItemQueryFilter

unfoldable pub split_filter : ItemQueryFilter → Option ContentTypeFilter × Option ItemTag
split_filter all_items = (none, none)
split_filter (content_type filter) = (some filter, none)
split_filter (tagged tag) = (none, some tag)
