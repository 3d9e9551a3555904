-- ===== src/PushRules/Reference/Idle.antt =====
-- Rules that change nothing: those that are disabled, and the legacy rules of an event with mentions.
use mathlib.Core.List.{filter_map, foldl}
use mtxclient.Shared.{
  String, ◌≡◌, ◌∙◌, refl, sym, ap, Bool, Bool-cases, inl, inr, true, false, not, ◌||◌, Option, none,
  some, List, [], ◌∷◌, any, keep, arith, str_eq, eq_iff, Map,
}
use mtxclient.Libraries.Json.{JsonLibrary}
use mtxclient.Libraries.Re2.{Re2Library}
use mtxclient.PushRules.Types.{PushRule, Ruleset, Relation, RelationType, RoomContext}
use mtxclient.PushRules.Values.{Event, RelatedEvents, ok}
use mtxclient.PushRules.Flatten.{flatten_event}
use mtxclient.PushRules.Optimized.{OptimizedRule, has}
use mtxclient.PushRules.Build.{
  optimize, optimize_content, add_sigil_rule, build, is_legacy, server_supports_mentions,
}
use mtxclient.PushRules.Evaluate.{evaluate, flatten_related}
use mtxclient.PushRules.Reference.{
  SenderIsText, applies, content_applies, first_actions, actions_for,
}
use mtxclient.PushRules.Reference.Rules.{evaluate-build}

-- The test of the constructor for a server with mentions.
abbrev pub is_user_mention : PushRule → Bool
is_user_mention rule = str_eq rule.rule_id ".m.rule.is_user_mention"

abbrev pub is_enabled : PushRule → Bool
is_enabled rule = rule.enabled

-- The rules without the disabled ones, but for the override rule by which support is told.
abbrev pub without_disabled : Ruleset → Ruleset
without_disabled rules = record {
  override_rules = keep (λ r. r.enabled || is_user_mention r) rules.override_rules;
  content = keep is_enabled rules.content;
  room = keep is_enabled rules.room;
  sender = keep is_enabled rules.sender;
  underride = keep is_enabled rules.underride;
}

filter_map-keep :
    {A : Type 0} (prepare : PushRule → Option A) (p : PushRule → Bool)
    → ((r : PushRule) → p r ≡ false → prepare r ≡ none)
    → (rules : List PushRule) → filter_map prepare (keep p rules) ≡ filter_map prepare rules
unfolding filter_map
filter_map-keep prepare p idle [] = refl
filter_map-keep prepare p idle (r ∷ rules) = elim (Bool-cases (p r)) [
  | inl kept ↦ rw kept (ground (arith, filter_map-keep prepare p idle rules))
  | inr dropped ↦ rw (dropped, idle r dropped) (filter_map-keep prepare p idle rules)
]

any-keep :
    (test p : PushRule → Bool)
    → ((r : PushRule) → p r ≡ false → test r ≡ false)
    → (rules : List PushRule) → any test (keep p rules) ≡ any test rules
any-keep test p idle [] = refl
any-keep test p idle (r ∷ rules) = elim (Bool-cases (p r)) [
  | inl kept ↦ rw kept (ap (λ b. test r || b) (any-keep test p idle rules))
  | inr dropped ↦ rw (dropped, idle r dropped) (any-keep test p idle rules)
]

foldl-keep :
    {M : Type 0} (step : M → PushRule → M) (p : PushRule → Bool)
    → ((r : PushRule) (m : M) → p r ≡ false → step m r ≡ m)
    → (rules : List PushRule) (m : M) → foldl step m (keep p rules) ≡ foldl step m rules
foldl-keep step p idle [] m = refl
foldl-keep step p idle (r ∷ rules) m = elim (Bool-cases (p r)) [
  | inl kept ↦ rw kept (foldl-keep step p idle rules (step m r))
  | inr dropped ↦ rw (dropped, idle r m dropped) (foldl-keep step p idle rules m)
]

first_actions-keep :
    (applies_to p : PushRule → Bool)
    → ((r : PushRule) → p r ≡ false → applies_to r ≡ false)
    → (rules : List PushRule)
    → first_actions applies_to (keep p rules) ≡ first_actions applies_to rules
unfolding first_actions
first_actions-keep applies_to p idle [] = refl
first_actions-keep applies_to p idle (r ∷ rules) = elim (Bool-cases (p r)) [
  | inl kept ↦ rw kept (ground (arith, first_actions-keep applies_to p idle rules))
  | inr dropped ↦ rw (dropped, idle r dropped) (first_actions-keep applies_to p idle rules)
]

supports-without_disabled :
    (rules : Ruleset)
    → server_supports_mentions (without_disabled rules) ≡ server_supports_mentions rules
supports-without_disabled rules =
    any-keep is_user_mention (λ r. r.enabled || is_user_mention r) (λ r e. ground arith)
      rules.override_rules

module _ (re2 : Re2Library) where
  optimize-disabled :
      (supports : Bool) (r : PushRule) → r.enabled ≡ false → optimize re2 supports r ≡ none
  unfolding optimize
  optimize-disabled supports r e = ground arith

  optimize_content-disabled :
      (supports : Bool) (r : PushRule) → r.enabled ≡ false → optimize_content re2 supports r ≡ none
  unfolding optimize_content
  optimize_content-disabled supports r e = ground arith

  add_sigil_rule-disabled :
      (sigil : String) (r : PushRule) (m : Map (OptimizedRule re2))
      → r.enabled ≡ false
      → add_sigil_rule re2 sigil m r ≡ m
  unfolding add_sigil_rule
  add_sigil_rule-disabled sigil r m e = ground arith

  -- Leaving out the disabled rules, but for the override rule by which the constructor tells whether
  -- the server supports mentions, gives the same prepared rules.
  pub build-without_disabled :
      (rules : Ruleset) → build re2 (without_disabled rules) ≡ build re2 rules
  unfolding build
  build-without_disabled rules =
      let supports = server_supports_mentions rules in
      rw (
        supports-without_disabled rules,
        filter_map-keep (optimize re2 supports) (λ r. r.enabled || is_user_mention r)
            (λ r e. optimize-disabled supports r (ground arith)) rules.override_rules,
        filter_map-keep (optimize re2 supports) is_enabled (optimize-disabled supports)
            rules.underride,
        filter_map-keep (optimize_content re2 supports) is_enabled
            (optimize_content-disabled supports) rules.content,
        foldl-keep (add_sigil_rule re2 "!") is_enabled (add_sigil_rule-disabled "!") rules.room [],
        foldl-keep (add_sigil_rule re2 "@") is_enabled (add_sigil_rule-disabled "@") rules.sender
            [],
      )

-- The rules without those that a server with mentions has replaced.
abbrev pub without_legacy : Ruleset → Ruleset
without_legacy rules = record rules {
  override_rules = keep (λ r. not (is_legacy r.rule_id)) rules.override_rules;
  content = keep (λ r. not (is_legacy r.rule_id)) rules.content;
  underride = keep (λ r. not (is_legacy r.rule_id)) rules.underride;
}

not-eq-false : (b : Bool) → not b ≡ false → b ≡ true
not-eq-false b e = ground arith

mention_is_new :
    (id : String) → not (is_legacy id) ≡ false → str_eq id ".m.rule.is_user_mention" ≡ false
mention_is_new id e = elim (Bool-cases (str_eq id ".m.rule.is_user_mention")) [
  | inl new ↦ cc (rw ((eq_iff id ".m.rule.is_user_mention").0 new) at e)
  | inr other ↦ other
]

supports-without_legacy :
    (rules : Ruleset)
    → server_supports_mentions (without_legacy rules) ≡ server_supports_mentions rules
supports-without_legacy rules =
    any-keep is_user_mention (λ r. not (is_legacy r.rule_id)) (λ r. mention_is_new r.rule_id)
      rules.override_rules

module _ (re2 : Re2Library) (ev : Event) (ctx : RoomContext)
    (related : List (RelationType × RelatedEvents))
    (mentions : has "content.m\\.mentions" ev ≡ true) where
  applies-legacy :
      (r : PushRule) → not (is_legacy r.rule_id) ≡ false → applies re2 ev ctx related true r ≡ false
  applies-legacy r e = rw (not-eq-false _ e, mentions) (ground arith)

  content_applies-legacy :
      (r : PushRule)
      → not (is_legacy r.rule_id) ≡ false
      → content_applies re2 ev ctx related true r ≡ false
  content_applies-legacy r e = rw (not-eq-false _ e, mentions) (ground arith)

  actions_for-without_legacy :
      (rules : Ruleset) (room_id sender : String)
      → server_supports_mentions rules ≡ true
      → actions_for re2 ev ctx related (without_legacy rules) room_id sender
        ≡ actions_for re2 ev ctx related rules room_id sender
  unfolding actions_for
  actions_for-without_legacy rules room_id sender supports =
      let is_new : PushRule → Bool = λ r. not (is_legacy r.rule_id) in
      rw (
        supports-without_legacy rules,
        supports,
        first_actions-keep (applies re2 ev ctx related true) is_new applies-legacy
            rules.override_rules,
        first_actions-keep (content_applies re2 ev ctx related true) is_new content_applies-legacy
            rules.content,
        first_actions-keep (applies re2 ev ctx related true) is_new applies-legacy rules.underride,
      )

-- Where an override rule shows that the server supports mentions and the event has a list of
-- mentions, the evaluation is the same without the three legacy rules, as override, content or
-- underride rules. The event has a text or nothing as its sender, and its `room_id` and `sender` can
-- be read as texts.
pub evaluate-without_legacy :
    (json : JsonLibrary) (re2 : Re2Library) (rules : Ruleset) (event : json.Json)
    (ctx : RoomContext) (related_events : List (Relation × json.Json)) (room_id sender : String)
    → SenderIsText (flatten_event json event)
    → json.value event "room_id" "" ≡ some room_id
    → json.value event "sender" "" ≡ some sender
    → server_supports_mentions rules ≡ true
    → has "content.m\\.mentions" (flatten_event json event) ≡ true
    → evaluate json re2 (build re2 (without_legacy rules)) event ctx related_events
      ≡ evaluate json re2 (build re2 rules) event ctx related_events
evaluate-without_legacy json re2 rules event ctx related_events room_id sender h p q supports
      mentions =
    evaluate-build json re2 (without_legacy rules) event ctx related_events room_id sender h p q
    ∙ ap ok (
        actions_for-without_legacy re2 (flatten_event json event) ctx
          (flatten_related json [] related_events) mentions rules room_id sender supports)
    ∙ sym (evaluate-build json re2 rules event ctx related_events room_id sender h p q)
