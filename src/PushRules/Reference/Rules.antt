-- ===== src/PushRules/Reference/Rules.antt =====
-- The constructor keeps the meaning of each rule, and `evaluate` finds the actions that the reference
-- gives.
use mathlib.Core.List.{filter_map, foldl}
use mtxclient.Shared.{
  String, ◌≡◌, refl, Bool, Bool-cases, Option-cases, inl, inr, true, not, ◌&&◌, Option, none, some,
  List, [], ◌∷◌, all, arith, if◌then◌else◌, lookup, lookup-insert, Map,
}
use mtxclient.Libraries.Json.{JsonLibrary}
use mtxclient.Libraries.Re2.{Re2Library}
use mtxclient.PushRules.Types.{
  PushCondition, PushRule, Ruleset, Action, Relation, RelationType, RoomContext,
}
use mtxclient.PushRules.Values.{Event, RelatedEvents, ok}
use mtxclient.PushRules.Flatten.{flatten_event}
use mtxclient.PushRules.Optimized.{OptimizedRule, empty_rule}
use mtxclient.PushRules.Build.{
  add_condition, add_all, add_conditions_to_rule, optimize, optimize_content, add_sigil_rule, build,
  is_legacy, server_supports_mentions, body_condition,
}
use mtxclient.PushRules.Evaluate.{
  ◌or_else◌, read_text, first_match, actions_of, flatten_related, evaluate,
}
use mtxclient.PushRules.Reference.{
  SenderIsText, condition_holds, is_replaced, applies, content_applies, first_actions, last_actions,
  is_for, or, or_nothing, actions_for,
}
use mtxclient.PushRules.Reference.Conditions.{holds, holds_if_kept, add_all_lem, matches_lem}

module _ (re2 : Re2Library) where
  actions-add_condition :
      (rule : OptimizedRule re2) (cond : PushCondition) (rule' : OptimizedRule re2)
      → add_condition re2 rule cond ≡ some rule'
      → rule'.actions ≡ rule.actions
  unfolding add_condition
  actions-add_condition rule cond rule' e = ground arith

  actions-add_all :
      (rule : OptimizedRule re2) (conditions : List PushCondition) (rule' : OptimizedRule re2)
      → add_all re2 rule conditions ≡ some rule'
      → rule'.actions ≡ rule.actions
  unfolding add_all
  actions-add_all rule [] rule' e = ground arith
  actions-add_all rule (cond ∷ conditions) rule' e =
      elim (Option-cases (add_condition re2 rule cond)) [
        | inl dropped ↦ ground arith
        | inr (next, kept) ↦ ground (
          arith,
          actions-add_condition rule cond next kept,
          actions-add_all next conditions rule',
        )
      ]

  pub actions-optimize :
      (supports : Bool) (rule : PushRule) (rule' : OptimizedRule re2)
      → optimize re2 supports rule ≡ some rule'
      → rule'.actions ≡ rule.actions
  unfolding optimize add_conditions_to_rule
  actions-optimize supports rule rule' e = elim (Bool-cases (supports && is_legacy rule.rule_id)) [
    | inl legacy ↦ ground (
      arith,
      actions-add_all (record (empty_rule re2) { actions = rule.actions; no_mentions_field = true })
          rule.conditions rule',
    )
    | inr other ↦ ground (
      arith,
      actions-add_all (record (empty_rule re2) { actions = rule.actions }) rule.conditions rule',
    )
  ]

  pub actions-optimize_content :
      (supports : Bool) (rule : PushRule) (rule' : OptimizedRule re2)
      → optimize_content re2 supports rule ≡ some rule'
      → rule'.actions ≡ rule.actions
  unfolding optimize_content add_conditions_to_rule
  actions-optimize_content supports rule rule' e =
      elim (Bool-cases (supports && is_legacy rule.rule_id)) [
        | inl legacy ↦ ground (
          arith,
          actions-add_all
              (record (empty_rule re2) { actions = rule.actions; no_mentions_field = true })
              (body_condition rule.pattern ∷ []) rule',
        )
        | inr other ↦ ground (
          arith,
          actions-add_all (record (empty_rule re2) { actions = rule.actions })
              (body_condition rule.pattern ∷ []) rule',
        )
      ]

module _ (re2 : Re2Library) (ev : Event) (ctx : RoomContext)
    (related : List (RelationType × RelatedEvents)) where
  abbrev kept : Option (OptimizedRule re2) → Bool
  kept = holds_if_kept re2 ev ctx related

  -- A rule with no condition yet.
  fresh_holds :
      (supports : Bool) (actions : List Action) (conditions : List PushCondition) (rule_id : String)
      → kept (
          add_conditions_to_rule re2 supports
            (record (empty_rule re2) { actions = actions })
            conditions
            rule_id)
        ≡ (not (is_replaced ev supports rule_id)
            && all (condition_holds re2 ev ctx related) conditions)
  unfolding add_conditions_to_rule holds
  fresh_holds supports actions conditions rule_id =
      elim (Bool-cases (supports && is_legacy rule_id)) [
        | inl legacy ↦
            rw
              (
                legacy,
                add_all_lem re2 ev ctx related
                    (record (empty_rule re2) { actions = actions; no_mentions_field = true })
                    conditions,
              )
              (ground arith)
        | inr other ↦
            rw
              (
                other,
                add_all_lem re2 ev ctx related (record (empty_rule re2) { actions = actions })
                    conditions,
              )
              (ground arith)
      ]

  pub optimize_holds :
      (supports : Bool) (rule : PushRule)
      → kept (optimize re2 supports rule) ≡ applies re2 ev ctx related supports rule
  unfolding optimize
  optimize_holds supports rule =
      ground (arith, fresh_holds supports rule.actions rule.conditions rule.rule_id)

  pub optimize_content_holds :
      (supports : Bool) (rule : PushRule)
      → kept (optimize_content re2 supports rule) ≡ content_applies re2 ev ctx related supports rule
  unfolding optimize_content
  optimize_content_holds supports rule =
      ground
        (arith, fresh_holds supports rule.actions (body_condition rule.pattern ∷ []) rule.rule_id)

  -- A list of prepared rules is searched as the list of their sources.
  pub first_match_lem :
      (prepare : PushRule → Option (OptimizedRule re2)) (applies_to : PushRule → Bool)
      → ((rule : PushRule) → kept (prepare rule) ≡ applies_to rule)
      → ((rule : PushRule) (rule' : OptimizedRule re2)
          → prepare rule ≡ some rule'
          → rule'.actions ≡ rule.actions)
      → SenderIsText ev
      → (rules : List PushRule)
      → first_match re2 (filter_map prepare rules) ev ctx related
        ≡ ok (first_actions applies_to rules)
  unfolding first_match first_actions filter_map
  first_match_lem prepare applies_to same keeps h [] = refl
  first_match_lem prepare applies_to same keeps h (rule ∷ rules) =
      elim (Option-cases (prepare rule)) [
        | inl dropped ↦ rw dropped (
            ground
              (arith, same rule, dropped, first_match_lem prepare applies_to same keeps h rules))
        | inr (rule', e) ↦
            rw (e, matches_lem re2 ev ctx related rule' h)
              (ground (
                arith,
                same rule,
                e,
                keeps rule rule' e,
                first_match_lem prepare applies_to same keeps h rules,
              ))
      ]

module _ (re2 : Re2Library) where
  actions_of-add_sigil_rule :
      (sigil id : String) (rule : PushRule) (m : Map (OptimizedRule re2))
      → actions_of re2 (lookup id (add_sigil_rule re2 sigil m rule))
        ≡ or
            (if is_for sigil id rule then some rule.actions else none)
            (actions_of re2 (lookup id m))
  unfolding add_sigil_rule
  actions_of-add_sigil_rule sigil id rule m =
      ground (
        arith,
        lookup-insert rule.rule_id id (record (empty_rule re2) { actions = rule.actions }) m,
      )

  -- The map of room or sender rules holds the last enabled rule of each id.
  add_sigil_rule_lem :
      (sigil id : String) (rules : List PushRule) (m : Map (OptimizedRule re2))
      → actions_of re2 (lookup id (foldl (add_sigil_rule re2 sigil) m rules))
        ≡ or (last_actions sigil id rules) (actions_of re2 (lookup id m))
  unfolding last_actions
  add_sigil_rule_lem sigil id [] m = refl
  add_sigil_rule_lem sigil id (rule ∷ rules) m = ground (
    arith,
    add_sigil_rule_lem sigil id rules (add_sigil_rule re2 sigil m rule),
    actions_of-add_sigil_rule sigil id rule m,
  )

  pub add_sigil_rules_lem :
      (sigil id : String) (rules : List PushRule)
      → actions_of re2 (lookup id (foldl (add_sigil_rule re2 sigil) [] rules))
        ≡ or (last_actions sigil id rules) none
  unfolding lookup
  add_sigil_rules_lem sigil id rules = add_sigil_rule_lem sigil id rules []

choose :
    (a b c d e : Option (List Action))
    → (a or_else b or_else or c none or_else or d none or_else e or_else ok [])
      ≡ ok (or_nothing (or a (or b (or c (or d e)))))
choose a b c d e = ground arith

module _ (json : JsonLibrary) (re2 : Re2Library) where
  open json use {Json, value}

  pub read_text_lem :
      (j : Json) (key s : String) → value j key "" ≡ some s → read_text json j key ≡ ok s
  unfolding read_text
  read_text_lem j key s e = rw (e, read_text)

  -- Where the event has a text or nothing as its sender, and `room_id` and `sender` can be read as
  -- texts, the evaluation of the prepared rules throws nothing and returns the actions that the
  -- reference gives for the rules as they were.
  pub evaluate-build :
      (rules : Ruleset) (event : Json) (ctx : RoomContext) (related_events : List (Relation × Json))
      (room_id sender : String)
      → SenderIsText (flatten_event json event)
      → value event "room_id" "" ≡ some room_id
      → value event "sender" "" ≡ some sender
      → evaluate json re2 (build re2 rules) event ctx related_events
        ≡ ok (
            actions_for re2
              (flatten_event json event)
              ctx
              (flatten_related json [] related_events)
              rules
              room_id
              sender)
  unfolding evaluate build actions_for
  evaluate-build rules event ctx related_events room_id sender h room_read sender_read =
      let ev = flatten_event json event in
      let related = flatten_related json [] related_events in
      let supports = server_supports_mentions rules in
      let plain_applies = applies re2 ev ctx related supports in
      let body_applies = content_applies re2 ev ctx related supports in
      let plain =
        first_match_lem re2 ev ctx related (optimize re2 supports) plain_applies
          (optimize_holds re2 ev ctx related supports) (actions-optimize re2 supports) h in
      let content =
        first_match_lem re2 ev ctx related (optimize_content re2 supports) body_applies
          (optimize_content_holds re2 ev ctx related supports)
          (actions-optimize_content re2 supports) h in
      rw (plain rules.override_rules, content rules.content, plain rules.underride)
        (rw
          (
            read_text_lem event "room_id" room_id room_read,
            read_text_lem event "sender" sender sender_read,
          )
          (rw
            (
              add_sigil_rules_lem re2 "!" room_id rules.room,
              add_sigil_rules_lem re2 "@" sender rules.sender,
            )
            (choose (first_actions plain_applies rules.override_rules)
              (first_actions body_applies rules.content) (last_actions "!" room_id rules.room)
              (last_actions "@" sender rules.sender)
              (first_actions plain_applies rules.underride))))
