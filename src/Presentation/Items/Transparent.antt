-- ===== src/Presentation/Items/Transparent.antt =====
-- The cache does not change the analysis of an item.
use clipkitty.Base.{ℕ, some, String, ◌≡◌, refl, sym, inl, inr, Option-cases}
use mathlib.Core.Path.{subst}
use clipkitty.Ranking.Chars.{Text, Unicode}
use clipkitty.Highlight.Analysis.{analyze_content_for_query}
use clipkitty.Presentation.Cache.{get}
use clipkitty.Presentation.Cache.Sound.{IsSound, get-IsSound, get-hit, insert_analysis-IsSound}
use clipkitty.Presentation.Items.{State, analysis_for_item}

-- Where every cached entry is the analysis of a content that was seen, with the entry's hash, and the
-- hash tells this content, itself one of them, from the others that were seen, an item's analysis is
-- that which is computed without a cache, and the cache is left in the same condition.
pub analysis_for_item-transparent :
    (u : Unicode) (hash : Text → ℕ) (Seen : Text → Type 0) (item_id : String) (content query : Text)
    (s : State)
    → IsSound u hash Seen s
    → Seen content
    → ((c : Text) → Seen c → hash c ≡ hash content → c ≡ content)
    → ((analysis_for_item u hash item_id content query s).0
        ≡ analyze_content_for_query u content query)
      × IsSound u hash Seen (analysis_for_item u hash item_id content query s).1
unfolding analysis_for_item
analysis_for_item-transparent u hash Seen item_id content query s sound seen alone =
    let s' : State = (get u hash query item_id content s).1 in
    let sound' : IsSound u hash Seen s' = get-IsSound u hash Seen query item_id content s sound in
    elim (Option-cases (get u hash query item_id content s).0) [
      | inr (a, hit) ↦
          let (c, seen_c, hashed, analyzed) =
            get-hit u hash Seen query item_id content s a sound hit in
          rw (hit, analysis_for_item)
            (
              sym (
                  subst (λ t. analyze_content_for_query u t query ≡ some a) (alone c seen_c hashed)
                    analyzed),
              sound',
            )
      | inl miss ↦ elim (Option-cases (analyze_content_for_query u content query)) [
        | inl blank ↦ rw (miss, blank, analysis_for_item) (refl, sound')
        | inr (a, analyzed) ↦
            rw (miss, analyzed, analysis_for_item)
              (
                refl,
                insert_analysis-IsSound u hash Seen query item_id content a s' seen analyzed sound',
              )
      ]
    ]
