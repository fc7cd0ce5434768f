-- ===== src/Pricing/Selection.antt =====
-- Which rule of a published set prices a job.
use kiosk_project.Base.{
  ◌≡◌, refl, true, false, Option, none, some, List, [], ◌∷◌, if◌then◌else◌, filter, All, ok, err,
  arith, Bool-cases, inl, inr, Result, or_throw,
}
use kiosk_project.Base.Int.{◌≤ℤ◌}
use kiosk_project.Base.Sorting.{insert_by, sort_by}
use kiosk_project.Pricing.{
  PricingErrorCode, PricingRule, PricingRuleSet, PricingUsage, rule_matches, higher_first,
  select_pricing_rule, pricing_rule_not_found, first,
}

-- Of two rules the one that the sort puts first.
abbrev ahead : PricingRule → Option PricingRule → PricingRule
ahead q none = q
ahead q (some r) = if higher_first q r then q else r

first-insert_by :
    (q : PricingRule) (rs : List PricingRule)
    → first (insert_by higher_first q rs) ≡ some (ahead q (first rs))
unfolding insert_by
first-insert_by q [] = refl
first-insert_by q (r ∷ rs) = ground arith

-- `r` is the first of the rules that match the usage with the highest priority among these.
pub data Best (usage : PricingUsage) : List PricingRule → PricingRule → Type 0 where
  head :
      {r : PricingRule} {rs : List PricingRule}
      → rule_matches usage r ≡ true
      → All (λ q. rule_matches usage q ≡ true → q.priority ≤ℤ r.priority) rs
      → Best usage (r ∷ rs) r
  later :
      {q r : PricingRule} {rs : List PricingRule}
      → (rule_matches usage q ≡ true → ¬ (r.priority ≤ℤ q.priority))
      → Best usage rs r
      → Best usage (q ∷ rs) r

abbrev Chosen : PricingUsage → List PricingRule → Option PricingRule → Type 0
Chosen usage rs none = All (λ q. rule_matches usage q ≡ false) rs
Chosen usage rs (some r) = Best usage rs r

no_higher :
    (usage : PricingUsage) (q r : PricingRule) (rs : List PricingRule)
    → r.priority ≤ℤ q.priority
    → All (λ p. rule_matches usage p ≡ true → p.priority ≤ℤ r.priority) rs
    → All (λ p. rule_matches usage p ≡ true → p.priority ≤ℤ q.priority) rs
no_higher usage q r [] h a = tt
no_higher usage q r (p ∷ rs) h a =
    ((λ m. let k : p.priority ≤ℤ r.priority = a.0 m in omega arith), no_higher usage q r rs h a.1)

-- No matching rule beats one that is as good as the best.
Best-highest :
    (usage : PricingUsage) {rs : List PricingRule} {r : PricingRule} (q : PricingRule)
    → Best usage rs r
    → r.priority ≤ℤ q.priority
    → All (λ p. rule_matches usage p ≡ true → p.priority ≤ℤ q.priority) rs
Best-highest usage q (head {r} {rs} m a) h = ((λ _. h), no_higher usage q r rs h a)
Best-highest usage q (later {q = p} {r} l b) h =
    ((λ m. let k : ¬ (r.priority ≤ℤ p.priority) = l m in omega arith), Best-highest usage q b h)

none_of :
    (usage : PricingUsage) (r : PricingRule) (rs : List PricingRule)
    → All (λ q. rule_matches usage q ≡ false) rs
    → All (λ q. rule_matches usage q ≡ true → q.priority ≤ℤ r.priority) rs
none_of usage r [] a = tt
none_of usage r (q ∷ rs) a = ((λ m. cc), none_of usage r rs a.1)

lower : (q r : PricingRule) → higher_first q r ≡ true → r.priority ≤ℤ q.priority
unfolding higher_first
lower q r e = ground arith

higher : (q r : PricingRule) → higher_first q r ≡ false → ¬ (r.priority ≤ℤ q.priority)
unfolding higher_first
higher q r e = ground arith

add_rule :
    (usage : PricingUsage) (q : PricingRule) (rs : List PricingRule) (o : Option PricingRule)
    → Chosen usage rs o
    → rule_matches usage q ≡ true
    → Chosen usage (q ∷ rs) (some (ahead q o))
add_rule usage q rs none c m = head m (none_of usage q rs c)
add_rule usage q rs (some r) c m = elim (Bool-cases (higher_first q r)) [
  | inl e ↦ rw e (head m (Best-highest usage q c (lower q r e)))
  | inr e ↦ rw e (later (λ _. higher q r e) c)
]

skip_rule :
    (usage : PricingUsage) (q : PricingRule) (rs : List PricingRule) (o : Option PricingRule)
    → Chosen usage rs o
    → rule_matches usage q ≡ false
    → Chosen usage (q ∷ rs) o
skip_rule usage q rs none c m = (m, c)
skip_rule usage q rs (some r) c m = later (λ t. cc) c

chosen :
    (usage : PricingUsage) (rs : List PricingRule)
    → Chosen usage rs (first (sort_by higher_first (filter (rule_matches usage) rs)))
unfolding sort_by
chosen usage [] = tt
chosen usage (q ∷ rs) = elim (Bool-cases (rule_matches usage q)) [
  | inl m ↦
      rw (m, first-insert_by q (sort_by higher_first (filter (rule_matches usage) rs)))
        (add_rule usage q rs _ (chosen usage rs) m)
  | inr m ↦ rw m (skip_rule usage q rs _ (chosen usage rs) m)
]

-- What selection promises: the best matching rule, or the error when no rule matches.
abbrev pub Selects : PricingUsage → List PricingRule → Result PricingErrorCode PricingRule → Type 0
Selects usage rs (ok r) = Best usage rs r
Selects usage rs (err e) = (e ≡ pricing_rule_not_found) × All (λ q. rule_matches usage q ≡ false) rs

Chosen-Selects :
    (usage : PricingUsage) (rs : List PricingRule) (o : Option PricingRule)
    → Chosen usage rs o
    → Selects usage rs (or_throw o pricing_rule_not_found)
Chosen-Selects usage rs none c = (refl, c)
Chosen-Selects usage rs (some r) c = c

-- Selection returns the earliest of the matching rules with the highest priority, and fails, with
-- the code for a missing rule, only when no rule of the set matches service, paper and colour.
pub select_pricing_rule-Selects :
    (rule_set : PricingRuleSet) (usage : PricingUsage)
    → Selects usage rule_set.rules (select_pricing_rule rule_set usage)
unfolding select_pricing_rule
select_pricing_rule-Selects rule_set usage =
    Chosen-Selects usage rule_set.rules _ (chosen usage rule_set.rules)
