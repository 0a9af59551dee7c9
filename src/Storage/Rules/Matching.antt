-- ===== src/Storage/Rules/Matching.antt =====
-- `find_matching_email_rule` finds the first of the rules that apply.
use mathlib.Core.List.{Memᴰ}
use mathlib.Core.List.Memᴰ.{head, tail}
use mathlib.Core.Option.{some_inj}
use ai_memmail.Prelude.{
  Bool, true, false, Option, none, some, List, [], ◌∷◌, ◌≡◌, refl, sym, subst, ◌∙◌, ap, arith,
  select, All, if◌then◌else◌,
}
use ai_memmail.Text.{Text}
use ai_memmail.Classification.{ResolvedEmailClassification, EmailRule}
use ai_memmail.Storage.Rules.{
  rule_applies, rule_before, insert_rule, sort_rules, first_rule, find_matching_email_rule,
}

rule_before_asymm : (a b : EmailRule) → rule_before a b ≡ true → rule_before b a ≡ false
unfolding rule_before
rule_before_asymm a b h = ground arith

rule_before_trans :
    (a b c : EmailRule)
    → rule_before a b ≡ false
    → rule_before b c ≡ false
    → rule_before a c ≡ false
unfolding rule_before
rule_before_trans a b c h k = ground arith

-- The first of two rules, where one is there.
abbrev first_of : EmailRule → Option EmailRule → Option EmailRule
first_of rule none = some rule
first_of rule (some r) = if rule_before r rule then some r else some rule

first_rule-insert :
    (rule : EmailRule) (rules : List EmailRule)
    → first_rule (insert_rule rule rules) ≡ first_of rule (first_rule rules)
unfolding insert_rule
first_rule-insert rule [] = refl
first_rule-insert rule (r ∷ rules) = ground arith

-- A rule of the list that no rule of the list comes before.
abbrev pub IsFirst : EmailRule → List EmailRule → Type 0
IsFirst r rules = Memᴰ r rules × All (λ q. rule_before q r ≡ false) rules

every_after :
    (a b : EmailRule) (rules : List EmailRule)
    → rule_before a b ≡ false
    → All (λ q. rule_before q a ≡ false) rules
    → All (λ q. rule_before q b ≡ false) rules
every_after a b [] h k = tt
every_after a b (q ∷ rules) h (k, ks) = (rule_before_trans q a b k h, every_after a b rules h ks)

irreflexive : (a : EmailRule) → rule_before a a ≡ false
unfolding rule_before
irreflexive a = ground arith

first_rule-none : (rules : List EmailRule) → first_rule (sort_rules rules) ≡ none → rules ≡ []
unfolding sort_rules
first_rule-none [] h = refl
first_rule-none (q ∷ rules) h = ground (arith, first_rule-insert q (sort_rules rules))

sort_rules-IsFirst :
    (rules : List EmailRule) (r : EmailRule)
    → first_rule (sort_rules rules) ≡ some r
    → IsFirst r rules
unfolding sort_rules
sort_rules-IsFirst [] r h = absurd (ground (arith, h))
sort_rules-IsFirst (rule ∷ rules) r h =
    compare_with (sort_rules-IsFirst rules) (first_rule (sort_rules rules)) refl
      (sym (first_rule-insert rule (sort_rules rules)) ∙ h)
  where
    compare_heads :
        (s : EmailRule)
        → IsFirst s rules
        → (b : Bool) → rule_before s rule ≡ b
        → (if b then some s else some rule) ≡ some r
        → IsFirst r (rule ∷ rules)
    compare_heads s first true e k =
        subst (λ (q : EmailRule). IsFirst q (rule ∷ rules)) (some_inj.0 k)
          (tail first.0, (rule_before_asymm s rule e, first.1))
    compare_heads s first false e k =
        subst (λ (q : EmailRule). IsFirst q (rule ∷ rules)) (some_inj.0 k)
          (head refl, (irreflexive rule, every_after s rule rules e first.1))

    compare_with :
        ((s : EmailRule) → first_rule (sort_rules rules) ≡ some s → IsFirst s rules)
        → (first : Option EmailRule) → first_rule (sort_rules rules) ≡ first
        → first_of rule first ≡ some r
        → IsFirst r (rule ∷ rules)
    compare_with later none e k =
        subst (λ (q : EmailRule). IsFirst q (rule ∷ rules)) (some_inj.0 k)
          (subst (λ (rest : List EmailRule). IsFirst rule (rule ∷ rest))
            (sym (first_rule-none rules e)) (head refl, (irreflexive rule, tt)))
    compare_with later (some s) e k = compare_heads s (later s e) (rule_before s rule) refl k

select-All :
    (p : EmailRule → Bool) (P : EmailRule → Type 0) (rules : List EmailRule)
    → All P (select p rules)
    → All (λ q. p q ≡ true → P q) rules
select-All p P [] h = tt
select-All p P (q ∷ rules) h = keep (select-All p P rules) (p q) refl h
  where
    keep :
        (All P (select p rules) → All (λ r. p r ≡ true → P r) rules)
        → (b : Bool) → p q ≡ b
        → All P (if b then q ∷ select p rules else select p rules)
        → All (λ q. p q ≡ true → P q) (q ∷ rules)
    keep later true e (k, ks) = ((λ _. k), later ks)
    keep later false e ks = ((λ f. absurd (ground (arith, e, f))), later ks)

select-Mem :
    (p : EmailRule → Bool) (r : EmailRule) (rules : List EmailRule)
    → Memᴰ r (select p rules)
    → Memᴰ r rules × (p r ≡ true)
select-Mem p r [] h = elim h [ ]
select-Mem p r (q ∷ rules) h = keep (select-Mem p r rules) (p q) refl h
  where
    keep :
        (Memᴰ r (select p rules) → Memᴰ r rules × (p r ≡ true))
        → (b : Bool) → p q ≡ b
        → Memᴰ r (if b then q ∷ select p rules else select p rules)
        → Memᴰ r (q ∷ rules) × (p r ≡ true)
    keep later true e (head f) = (head f, ap p f ∙ e)
    keep later true e (tail m) = let (n, k) = later m in (tail n, k)
    keep later false e m = let (n, k) = later m in (tail n, k)

-- The rule that is found is one of the rules and applies, and no rule that applies comes before it
-- in the order: those with topics first, then the smaller priority, then the smaller identifier.
pub find_matching_email_rule-first :
    (mailbox_id : Text) (c : ResolvedEmailClassification) (rules : List EmailRule) (r : EmailRule)
    → find_matching_email_rule mailbox_id c rules ≡ some r
    → Memᴰ r rules
      × (rule_applies mailbox_id c r ≡ true)
      × All (λ q. rule_applies mailbox_id c q ≡ true → rule_before q r ≡ false) rules
unfolding find_matching_email_rule
find_matching_email_rule-first mailbox_id c rules r h =
    let first = sort_rules-IsFirst (select (rule_applies mailbox_id c) rules) r h in
    let (m, k) = select-Mem (rule_applies mailbox_id c) r rules first.0 in
    (m, k, select-All (rule_applies mailbox_id c) (λ q. rule_before q r ≡ false) rules first.1)

-- No rule is found only where none applies.
pub find_matching_email_rule-none :
    (mailbox_id : Text) (c : ResolvedEmailClassification) (rules : List EmailRule)
    → find_matching_email_rule mailbox_id c rules ≡ none
    → All (λ q. rule_applies mailbox_id c q ≡ false) rules
unfolding find_matching_email_rule
find_matching_email_rule-none mailbox_id c rules h =
    none_applies rules (first_rule-none (select (rule_applies mailbox_id c) rules) h)
  where
    none_applies :
        (qs : List EmailRule)
        → select (rule_applies mailbox_id c) qs ≡ []
        → All (λ q. rule_applies mailbox_id c q ≡ false) qs
    none_applies [] e = tt
    none_applies (q ∷ qs) e = (ground (arith, e), none_applies qs (ground (arith, e)))
