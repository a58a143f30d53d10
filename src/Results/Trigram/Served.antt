-- ===== src/Results/Trigram/Served.antt =====
-- The rows of a search that nobody cancels.
use clipkitty.Base.{
  ℕ, suc, ltb, leb, Bool, true, false, ◌&&◌, ◌||◌, Option, none, some, String, str_eq, List, [],
  ◌∷◌, is_empty, ◌≡◌, refl, sym, ◌∙◌, inl, inr, Bool-cases, Option-cases,
}
use mathlib.Core.Path.{subst}
use clipkitty.Base.Map.{lookup}
use clipkitty.Ranking.Chars.{Text, Unicode, byte_len}
use clipkitty.Search.Admission.{SearchCandidate, content_of}
use clipkitty.Highlight.Types.{MatchedExcerpt, ListPresentationProfile}
use clipkitty.Presentation.Items.{ExcerptPlaceholder}
use clipkitty.Presentation.Items.Made.{
  matched_excerpt_for_cached_match-some, placeholder_for_deferred_match-some,
}
use clipkitty.Results.Query.{SearchQuery, raw_text, ContentTypeFilter, ItemTag}
use clipkitty.Results.Outcome.{Result, ok, Token, Progress, check, cached, value, from_database}
use clipkitty.Results.Trigram.{
  SearchRowMetadata, RowPresentation, matched, deferred, ItemMatch, RowMap, metadata_map, Answers,
  asked_by_index, search_trigram_lazy, is_eager, eager_match, deferred_match, item_match,
  cache_context, build_rows, ids_of, tagged_ids_of, rows_of_candidates, search_trigram_query,
}
use clipkitty.Results.Trigram.Metadata.{row_shown, lookup-metadata_map}

-- No check is answered by yes.
abbrev pub never : Token
never i = false

-- A row's place among the results, its candidate and its metadata.
abbrev pub Place : Type 0
Place = ℕ × SearchCandidate × SearchRowMetadata

-- The candidates that have a row, in their order, numbered from a place on.
abbrev pub placed : (String → Option SearchRowMetadata) → ℕ → List SearchCandidate → List Place
placed row_of i [] = []
placed row_of i (c ∷ cs) = elim (row_of c.id) [
  | none ↦ placed row_of i cs
  | some row ↦ (i, c, row) ∷ placed row_of (suc i) cs
]

placed-none :
    (row_of : String → Option SearchRowMetadata) (i : ℕ) (c : SearchCandidate)
    (cs : List SearchCandidate)
    → row_of c.id ≡ none
    → placed row_of i (c ∷ cs) ≡ placed row_of i cs
placed-none row_of i c cs e = rw (e, placed) refl

placed-some :
    (row_of : String → Option SearchRowMetadata) (i : ℕ) (c : SearchCandidate)
    (cs : List SearchCandidate) (row : SearchRowMetadata)
    → row_of c.id ≡ some row
    → placed row_of i (c ∷ cs) ≡ (i, c, row) ∷ placed row_of (suc i) cs
placed-some row_of i c cs row e = rw (e, placed) refl

placed-is_empty :
    (row_of : String → Option SearchRowMetadata) (cs : List SearchCandidate)
    → is_empty cs ≡ true
    → [] ≡ placed row_of 0 cs
placed-is_empty row_of [] e = refl
placed-is_empty row_of (c ∷ cs) e = absurd (cc e)

-- The first row, and those of the first twenty-four that have at most a kilobyte of content.
abbrev pub at_once : ℕ → SearchCandidate → Bool
at_once i c = ltb i 1 || (leb (byte_len (content_of c.match_context)) 1024 && ltb i 24)

module _ (query : Text) (profile : ListPresentationProfile) where
  -- A row that is presented at once has its excerpt; another has a placeholder and the request by
  -- which the excerpt is asked for.
  abbrev pub IsPresented : Bool → SearchCandidate → SearchRowMetadata → RowPresentation → Type 0
  IsPresented true c row presentation = (e : MatchedExcerpt) × (presentation ≡ matched e)
  IsPresented false c row presentation =
      (placeholder : ExcerptPlaceholder) × (presentation
        ≡ deferred
            (record {
              item_id = c.id;
              query = query;
              presentation_profile = profile;
              content_hash = row.content_hash;
            })
            placeholder)

  abbrev pub Presents : Place → ItemMatch → Type 0
  Presents (i, c, row) m = (m.item_metadata ≡ row) × IsPresented (at_once i c) c row m.presentation

  abbrev pub AllPresent : List Place → List ItemMatch → Type 0
  AllPresent [] [] = Unit
  AllPresent [] (_ ∷ _) = ⊥
  AllPresent (_ ∷ _) [] = ⊥
  AllPresent (x ∷ xs) (m ∷ ms) = Presents x m × AllPresent xs ms

  -- A search that ends with these rows.
  abbrev pub Serves : List Place → Result (List ItemMatch) × Progress → Type 0
  Serves places ended = (ms : List ItemMatch) × (ended.0 ≡ ok ms) × AllPresent places ms

module _ (u : Unicode) (query : Text) (profile : ListPresentationProfile) where
  item_match-ok :
      (i : ℕ) (c : SearchCandidate) (row : SearchRowMetadata) (p : Progress)
      → (m : ItemMatch) × (p' : Progress) × (item_match u never query profile i c row p
          ≡ (ok m, p'))
        × Presents query profile (i, c, row) m
  unfolding item_match eager_match deferred_match is_eager check cached
  item_match-ok i c row p = elim (Bool-cases (at_once i c)) [
    | inl e ↦
        let (excerpt, made) =
          matched_excerpt_for_cached_match-some u c.id query profile (check never p).1.cache in
        rw (e, item_match, made) (_, _, refl, (refl, (excerpt, refl)))
    | inr e ↦
        let (placeholder, made) =
          placeholder_for_deferred_match-some u c.id query row.content_hash row.baseline_excerpt
            c.match_context profile p.cache in
        rw (e, item_match, made) (_, _, refl, (refl, (placeholder, refl)))
  ]

  module _ (rows : RowMap) (row_of : String → Option SearchRowMetadata)
      (agree : (id : String) → lookup str_eq id rows ≡ row_of id) where
    build_rows-Serves :
        (i : ℕ) (cs : List SearchCandidate) (p : Progress)
        → Serves query profile (placed row_of i cs) (build_rows u never query profile rows i cs p)
    unfolding build_rows check cached
    build_rows-Serves i [] p = ([], refl, tt)
    build_rows-Serves i (c ∷ cs) p =
        let p1 : Progress = (check never p).1 in
        elim (Option-cases (lookup str_eq c.id rows)) [
          | inl e ↦
              rw (e, build_rows, placed-none row_of i c cs (sym (agree c.id) ∙ e))
                (build_rows-Serves i cs p1)
          | inr (row, e) ↦
              let p2 : Progress = (cached (cache_context u never query profile c row) p1).1 in
              let (m, p3, built, of_row) = item_match-ok i c row p2 in
              let p4 : Progress = (check never p3).1 in
              let (ms, served, kept) = build_rows-Serves (suc i) cs p4 in
              rw
                (e, build_rows, built, served, placed-some row_of i c cs row (sym (agree c.id) ∙ e))
                (m ∷ ms, refl, (of_row, kept))
        ]

-- What the database answers about a tag, where one is asked for.
abbrev pub TagAnswer : Answers → List String → Option ItemTag → Option (List String) → Type 0
TagAnswer a ids none tagged = tagged ≡ none
TagAnswer a ids (some tag) tagged =
    (with_tag : List String) × (a.tagged ids tag ≡ value with_tag) × (tagged ≡ some with_tag)

tagged_ids_of-ok :
    (a : Answers) (ids : List String) (tag : Option ItemTag) (tagged : Option (List String))
    (p : Progress)
    → TagAnswer a ids tag tagged
    → tagged_ids_of a ids tag p ≡ (ok tagged, p)
unfolding from_database
tagged_ids_of-ok a ids none tagged p e = rw e refl
tagged_ids_of-ok a ids (some tag) tagged p (with_tag, answered, e) =
    rw (answered, e, from_database) refl

module _ (u : Unicode) (query : SearchQuery) (profile : ListPresentationProfile)
    (filter : Option ContentTypeFilter) (tag : Option ItemTag) (a : Answers)
    (cs : List SearchCandidate) (rows : List SearchRowMetadata) (tagged : Option (List String))
    (some_text : is_empty (raw_text query) ≡ false) (recalled : a.candidates ≡ value cs)
    (fetched : a.rows (ids_of cs) ≡ value rows) (tags : TagAnswer a (ids_of cs) tag tagged) where
  rows_of_candidates-Serves :
      (p : Progress)
      → Serves
          (raw_text query)
          profile
          (placed (row_shown filter tagged rows) 0 cs)
          (rows_of_candidates u never query profile filter tag a cs p)
  unfolding rows_of_candidates from_database check
  rows_of_candidates-Serves p =
      rw (fetched, from_database, tagged_ids_of-ok a (ids_of cs) tag tagged (check never p).1 tags)
        (build_rows-Serves u (raw_text query) profile (metadata_map filter tagged rows)
          (row_shown filter tagged rows) (lookup-metadata_map filter tagged rows) 0 cs
          (check never p).1)

  -- The progress when the index has answered.
  abbrev after_index : Progress → Progress
  after_index p = (check never (asked_by_index a.index_checks p).1).1

  search_trigram_lazy-ok :
      (p : Progress) → search_trigram_lazy never query a p ≡ (ok cs, after_index p)
  unfolding search_trigram_lazy check
  search_trigram_lazy-ok p = rw (some_text, recalled, search_trigram_lazy) refl

  -- Where no check is answered by yes, the query is not blank, and the index and the database answer
  -- without an error, a search of a long query ends with rows: for each candidate in turn the last
  -- row of its item that is of the type and among the tagged items asked for, if there is one. The
  -- first row, and those of short contents among the first twenty-four, are presented with an
  -- excerpt, the others with the request for it.
  pub search_trigram_query-Serves :
      (p : Progress)
      → Serves
          (raw_text query)
          profile
          (placed (row_shown filter tagged rows) 0 cs)
          (search_trigram_query u never query profile filter tag a p)
  unfolding search_trigram_query check
  search_trigram_query-Serves p =
      let p1 : Progress = (check never p).1 in
      elim (Bool-cases (is_empty cs)) [
        | inl e ↦
            rw (search_trigram_lazy-ok p1, e)
              (
                [],
                refl,
                subst (λ places. AllPresent (raw_text query) profile places [])
                    (placed-is_empty (row_shown filter tagged rows) cs e) tt,
              )
        | inr e ↦ rw (search_trigram_lazy-ok p1, e) (rows_of_candidates-Serves (after_index p1))
      ]
