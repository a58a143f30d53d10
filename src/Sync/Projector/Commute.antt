-- ===== src/Sync/Projector/Commute.antt =====
-- Events of different domains do not interfere. An update is a revision of the live state, made
-- when its base version is the current counter of its domain; revisions of different domains
-- commute.
use clipkitty.Base.{
  ℕ, ℤ, ◌≡◌, refl, ap, ◌∙◌, Bool, true, false, not, ◌&&◌, String, Option, none, some, arith,
  saturating_add, ◌==◌, if◌then◌else◌,
}
use clipkitty.Sync.Types.{
  VersionDomain, ItemEventPayload, item_created, text_edited, bookmark_set, bookmark_cleared,
  item_deleted, item_touched, link_metadata_updated, image_description_updated, unknown,
  LiveItemState, ItemAggregate, live, ApplyResult, applied,
}
use clipkitty.Sync.Projector.{apply_event, with_text, with_link_metadata, with_image_description}
use clipkitty.Sync.Projector.Domains.{counter, written, same_domain}

-- The payloads that rewrite a live item and keep it live.
abbrev pub is_update : ItemEventPayload → Bool
is_update (item_created _) = false
is_update (item_deleted _) = false
is_update (unknown _ _) = false
is_update _ = true

abbrev differ : Option (VersionDomain × ℕ) → Option (VersionDomain × ℕ) → Bool
differ (some (d, _)) (some (e, _)) = not (same_domain d e)
differ _ _ = false

-- Two updates that write different domains.
abbrev pub independent : ItemEventPayload → ItemEventPayload → Bool
independent p q = (is_update p && is_update q) && differ (written p) (written q)

-- The base version of the payload is the current counter of its domain.
abbrev at_base : Option (VersionDomain × ℕ) → LiveItemState → Bool
at_base none l = false
at_base (some (d, base)) l = base == counter d l.versions

abbrev pub ready : ItemEventPayload → LiveItemState → Bool
ready p l = at_base (written p) l

-- What an update makes of the live state.
pub revise : (String → String) → ItemEventPayload → LiveItemState → LiveItemState
revise h (text_edited t _) l = record {
  snapshot = record (l.snapshot) {
    content_text = t;
    content_hash = h t;
    type_specific = with_text t l.snapshot.type_specific;
  };
  versions = record (l.versions) { content = saturating_add l.versions.content 1 };
}
revise h (bookmark_set _) l = record {
  snapshot = record (l.snapshot) { is_bookmarked = true };
  versions = record (l.versions) { bookmark = saturating_add l.versions.bookmark 1 };
}
revise h (bookmark_cleared _) l = record {
  snapshot = record (l.snapshot) { is_bookmarked = false };
  versions = record (l.versions) { bookmark = saturating_add l.versions.bookmark 1 };
}
revise h (item_touched at _) l = record {
  snapshot = record (l.snapshot) { timestamp_unix = at };
  versions = record (l.versions) { touch = saturating_add l.versions.touch 1 };
}
revise h (link_metadata_updated m _) l = record {
  snapshot = record (l.snapshot) { type_specific = with_link_metadata m l.snapshot.type_specific };
  versions = record (l.versions) { metadata = saturating_add l.versions.metadata 1 };
}
revise h (image_description_updated t _) l = record {
  snapshot = record (l.snapshot) {
    content_text = t;
    type_specific = with_image_description t l.snapshot.type_specific;
  };
  versions = record (l.versions) { content = saturating_add l.versions.content 1 };
}
revise h _ l = l

-- The aggregate that an event leaves where it applies.
abbrev pub applied_aggregate : ApplyResult → Option ItemAggregate
applied_aggregate (applied delta) = some delta.new_aggregate
applied_aggregate _ = none

abbrev pub after :
    (String → String) → ℤ → Option ItemAggregate → ItemEventPayload → Option ItemAggregate
after h now none p = none
after h now (some a) p = applied_aggregate (apply_event h now (some a) p)

module _ (h : String → String) (now : ℤ) where
  -- On a live item an update applies exactly when its base version is the current counter, and
  -- then it revises the live state.
  pub apply_event-revises :
      (p : ItemEventPayload) (l : LiveItemState)
      → is_update p ≡ true
      → applied_aggregate (apply_event h now (some (live l)) p)
        ≡ (if ready p l then some (live (revise h p l)) else none)
  unfolding apply_event revise
  apply_event-revises (text_edited t b) l u = ground arith
  apply_event-revises _ l u = ground arith

  ready-revise :
      (p q : ItemEventPayload) (l : LiveItemState)
      → independent p q ≡ true
      → ready q (revise h p l) ≡ ready q l
  unfolding revise
  ready-revise (text_edited t b) (text_edited t' b') l i = ground arith
  ready-revise (text_edited t b) _ l i = ground arith
  ready-revise (bookmark_set b) (text_edited t' b') l i = ground arith
  ready-revise (bookmark_set b) _ l i = ground arith
  ready-revise (bookmark_cleared b) (text_edited t' b') l i = ground arith
  ready-revise (bookmark_cleared b) _ l i = ground arith
  ready-revise (item_touched t b) (text_edited t' b') l i = ground arith
  ready-revise (item_touched t b) _ l i = ground arith
  ready-revise (link_metadata_updated m b) (text_edited t' b') l i = ground arith
  ready-revise (link_metadata_updated m b) _ l i = ground arith
  ready-revise (image_description_updated t b) (text_edited t' b') l i = ground arith
  ready-revise (image_description_updated t b) _ l i = ground arith
  ready-revise _ q l i = absurd (ground arith)

  revise_comm :
      (p q : ItemEventPayload) (l : LiveItemState)
      → independent p q ≡ true
      → revise h q (revise h p l) ≡ revise h p (revise h q l)
  unfolding revise with_text with_link_metadata with_image_description
  revise_comm (text_edited t b) (text_edited t' b') l i = ground arith
  revise_comm (text_edited t b) _ l i = ground arith
  revise_comm (bookmark_set b) (text_edited t' b') l i = ground arith
  revise_comm (bookmark_set b) _ l i = ground arith
  revise_comm (bookmark_cleared b) (text_edited t' b') l i = ground arith
  revise_comm (bookmark_cleared b) _ l i = ground arith
  revise_comm (item_touched t b) (text_edited t' b') l i = ground arith
  revise_comm (item_touched t b) _ l i = ground arith
  revise_comm (link_metadata_updated m b) (text_edited t' b') l i = ground arith
  revise_comm (link_metadata_updated m b) _ l i = ground arith
  revise_comm (image_description_updated t b) (text_edited t' b') l i = ground arith
  revise_comm (image_description_updated t b) _ l i = ground arith
  revise_comm _ q l i = absurd (ground arith)

  independent-is_update :
      (p q : ItemEventPayload)
      → independent p q ≡ true
      → (is_update p ≡ true) × (is_update q ≡ true)
  independent-is_update p q i = ground arith

  differ_symm : (x y : Option (VersionDomain × ℕ)) → differ x y ≡ differ y x
  differ_symm none none = refl
  differ_symm none (some y) = refl
  differ_symm (some x) none = refl
  differ_symm (some (d, b)) (some (e, c)) = ground arith

  independent_symm : (p q : ItemEventPayload) → independent p q ≡ true → independent q p ≡ true
  independent_symm p q i = ground (arith, differ_symm (written p) (written q))

  after-ready :
      (p : ItemEventPayload) (l : LiveItemState)
      → is_update p ≡ true
      → ready p l ≡ true
      → after h now (some (live l)) p ≡ some (live (revise h p l))
  after-ready p l u r = rw (apply_event-revises p l u, r)

  after-both :
      (p q : ItemEventPayload) (l : LiveItemState)
      → independent p q ≡ true
      → ready p l ≡ true
      → ready q l ≡ true
      → after h now (after h now (some (live l)) p) q ≡ some (live (revise h q (revise h p l)))
  after-both p q l i rp rq =
      let (up, uq) = independent-is_update p q i in
      ap (λ o. after h now o q) (after-ready p l up rp)
      ∙ after-ready q (revise h p l) uq (ready-revise p q l i ∙ rq)

  -- Two updates of different domains that each apply to a live item both apply in either order,
  -- and the two orders end in the same aggregate.
  pub apply_event_comm :
      (p q : ItemEventPayload) (l : LiveItemState)
      → independent p q ≡ true
      → ready p l ≡ true
      → ready q l ≡ true
      → (a : ItemAggregate) × (after h now (after h now (some (live l)) p) q ≡ some a)
        × (after h now (after h now (some (live l)) q) p ≡ some a)
  apply_event_comm p q l i rp rq = (
    live (revise h q (revise h p l)),
    after-both p q l i rp rq,
    rw (revise_comm p q l i) (after-both q p l (independent_symm p q i) rq rp),
  )
