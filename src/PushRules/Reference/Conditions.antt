-- ===== src/PushRules/Reference/Conditions.antt =====
-- A prepared rule matches exactly where the conditions that it was made of all hold.
use mtxclient.Shared.{
  String, ◌≡◌, refl, Bool, Bool-cases, Option-cases, inl, inr, eq_iff, true, false, not, ◌&&◌, ◌||◌,
  Option, none, some, List, [], ◌∷◌, ◌++◌, all, arith, str_eq, lookup,
}
use mtxclient.Libraries.Re2.{Re2Library}
use mtxclient.PushRules.Types.{
  PushCondition, RelationType, unsupported, rel_type_eq, RoomContext, NonCompoundJsonValue,
}
use mtxclient.PushRules.Values.{PushJsonValue, Event, RelatedEvents, ok}
use mtxclient.PushRules.Optimized.{
  IsCondition, ContainsCondition, OptimizedRule, PatternCondition, pattern_matches, is_matches,
  contains_matches, count_matches, related_matches, displayname_matches, levels_match, with_sender,
  has, matches,
}
use mtxclient.PushRules.Build.{
  add_condition, add_all, construct_re_from_pattern, member_count_condition, related_condition,
}
use mtxclient.PushRules.Reference.{
  TextOrAbsent, SenderIsText, level_suffices, sender_allows, condition_holds,
}

all-concat {ℓ} :
    {A : Type ℓ} (p : A → Bool) (xs : List A) (y : A) → all p (xs ++ y ∷ []) ≡ (all p xs && p y)
all-concat p [] y = ground arith
all-concat p (x ∷ xs) y = ground (arith, all-concat p xs y)

module _ (re2 : Re2Library) (ev : Event) (ctx : RoomContext)
    (related : List (RelationType × RelatedEvents)) where
  -- `matches` with no exception
  unfoldable pub holds : OptimizedRule re2 → Bool
  holds rule =
      not (rule.no_mentions_field && has "content.m\\.mentions" ev)
      && all (count_matches ctx) rule.membercounts
      && all (sender_allows ctx ev) rule.notification_levels
      && all (λ cond. pattern_matches re2 cond ev) rule.patterns
      && all (λ cond. is_matches cond ev) rule.is
      && all (λ cond. contains_matches cond ev) rule.contains
      && all (related_matches re2 related) rule.related_event_patterns
      && (not rule.check_displayname || displayname_matches re2 ctx ev)

  abbrev pub holds_if_kept : Option (OptimizedRule re2) → Bool
  holds_if_kept none = false
  holds_if_kept (some rule) = holds rule

  -- One more condition is one more conjunct.
  abbrev IsOneMore : OptimizedRule re2 → PushCondition → Type 0
  IsOneMore rule cond =
      holds_if_kept (add_condition re2 rule cond)
      ≡ (holds rule && condition_holds re2 ev ctx related cond)

  module _ (rule : OptimizedRule re2) (cond : PushCondition) where
    event_match-IsOneMore : IsOneMore rule (record cond { kind = "event_match" })
    unfolding holds add_condition condition_holds
    event_match-IsOneMore = ground (
      arith,
      all-concat (λ (c : PatternCondition re2). pattern_matches re2 c ev) rule.patterns
          (record {
            field = cond.key;
            pattern = some (construct_re_from_pattern re2 cond.pattern cond.key);
          }),
    )

    property_is-IsOneMore :
        (v : Option NonCompoundJsonValue)
        → IsOneMore rule (record cond { kind = "event_property_is"; value = v })
    unfolding holds add_condition condition_holds
    property_is-IsOneMore none = ground arith
    property_is-IsOneMore (some v) = ground (
      arith,
      all-concat (λ (c : IsCondition). is_matches c ev) rule.is
          (record { field = cond.key; value = v }),
    )

    property_contains-IsOneMore :
        (v : Option NonCompoundJsonValue)
        → IsOneMore rule (record cond { kind = "event_property_contains"; value = v })
    unfolding holds add_condition condition_holds
    property_contains-IsOneMore none = ground arith
    property_contains-IsOneMore (some v) = ground (
      arith,
      all-concat (λ (c : ContainsCondition). contains_matches c ev) rule.contains
          (record { field = cond.key; value = v }),
    )

    related_event_match-IsOneMore :
        IsOneMore rule (record cond { kind = "im.nheko.msc3664.related_event_match" })
    unfolding holds add_condition condition_holds related_condition
    related_event_match-IsOneMore = elim (Bool-cases (rel_type_eq cond.rel_type unsupported)) [
      | inl e ↦ rw e (ground arith)
      | inr e ↦ rw e (
          ground (
            arith,
            all-concat (related_matches re2 related) rule.related_event_patterns
                (related_condition re2 cond),
          ))
    ]

    display_name-IsOneMore : IsOneMore rule (record cond { kind = "contains_display_name" })
    unfolding holds add_condition condition_holds
    display_name-IsOneMore = ground arith

    member_count-IsOneMore : IsOneMore rule (record cond { kind = "room_member_count" })
    unfolding holds add_condition condition_holds
    member_count-IsOneMore =
        ground
          (arith, all-concat (count_matches ctx) rule.membercounts (member_count_condition cond.is))

    permission-IsOneMore : IsOneMore rule (record cond { kind = "sender_notification_permission" })
    unfolding holds add_condition condition_holds
    permission-IsOneMore =
        ground (arith, all-concat (sender_allows ctx ev) rule.notification_levels cond.key)

    kind : {k : String} → str_eq cond.kind k ≡ true → cond.kind ≡ k
    kind e = (eq_iff _ _).0 e

    add_condition-IsOneMore : IsOneMore rule cond
    add_condition-IsOneMore = elim (Bool-cases (str_eq cond.kind "event_match")) [
      | inl e ↦ rw (kind e) event_match-IsOneMore
      | inr n1 ↦ elim (Bool-cases (str_eq cond.kind "event_property_is")) [
        | inl e ↦ rw (kind e) (property_is-IsOneMore cond.value)
        | inr n2 ↦ elim (Bool-cases (str_eq cond.kind "event_property_contains")) [
          | inl e ↦ rw (kind e) (property_contains-IsOneMore cond.value)
          | inr n3 ↦ elim (Bool-cases (str_eq cond.kind "im.nheko.msc3664.related_event_match")) [
            | inl e ↦ rw (kind e) related_event_match-IsOneMore
            | inr n4 ↦ elim (Bool-cases (str_eq cond.kind "contains_display_name")) [
              | inl e ↦ rw (kind e) display_name-IsOneMore
              | inr n5 ↦ elim (Bool-cases (str_eq cond.kind "room_member_count")) [
                | inl e ↦ rw (kind e) member_count-IsOneMore
                | inr n6 ↦ elim (Bool-cases (str_eq cond.kind "sender_notification_permission")) [
                  | inl e ↦ rw (kind e) permission-IsOneMore
                  | inr n7 ↦
                      unfold add_condition condition_holds in
                      rw (n1, n2, n3, n4, n5, n6, n7) (ground arith)
                ]
              ]
            ]
          ]
        ]
      ]
    ]

  pub add_all_lem :
      (rule : OptimizedRule re2) (conditions : List PushCondition)
      → holds_if_kept (add_all re2 rule conditions)
        ≡ (holds rule && all (condition_holds re2 ev ctx related) conditions)
  unfolding add_all
  add_all_lem rule [] = ground arith
  add_all_lem rule (cond ∷ conditions) = elim (Option-cases (add_condition re2 rule cond)) [
    | inl dropped ↦ ground (arith, add_condition-IsOneMore rule cond, dropped)
    | inr (rule', kept) ↦
        ground (arith, add_condition-IsOneMore rule cond, kept, add_all_lem rule' conditions)
  ]

  matches_lem_for :
      (rule : OptimizedRule re2)
      → levels_match ctx ev rule.notification_levels
        ≡ ok (all (sender_allows ctx ev) rule.notification_levels)
      → matches re2 rule ev ctx related ≡ ok (holds rule)
  unfolding matches holds
  matches_lem_for rule e = rw e (ground arith)

with_sender_lem :
    (ctx : RoomContext) (n : String) (levels : List String) (sender : Option PushJsonValue)
    → TextOrAbsent sender
    → with_sender ctx (n ∷ levels) sender
      ≡ ok (all (λ key. level_suffices ctx key sender) (n ∷ levels))
unfolding with_sender
with_sender_lem ctx n levels none h = refl
with_sender_lem ctx n levels (some (PushJsonValue.string sender)) h = refl
with_sender_lem ctx n levels (some _) h = absurd h

levels_match_lem :
    (ctx : RoomContext) (ev : Event) (levels : List String)
    → SenderIsText ev
    → levels_match ctx ev levels ≡ ok (all (sender_allows ctx ev) levels)
unfolding levels_match
levels_match_lem ctx ev [] h = refl
levels_match_lem ctx ev (n ∷ levels) h = with_sender_lem ctx n levels (lookup "sender" ev) h

-- With a text for a sender `matches` does not throw.
pub matches_lem :
    (re2 : Re2Library) (ev : Event) (ctx : RoomContext)
    (related : List (RelationType × RelatedEvents)) (rule : OptimizedRule re2)
    → SenderIsText ev
    → matches re2 rule ev ctx related ≡ ok (holds re2 ev ctx related rule)
matches_lem re2 ev ctx related rule h =
    matches_lem_for re2 ev ctx related rule (levels_match_lem ctx ev rule.notification_levels h)
