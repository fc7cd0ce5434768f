-- ===== src/Pricing/Quote.antt =====
-- What a quote that the code returns adds up to.
use kiosk_project.Base.{
  ◌∙◌, sym, subst, ℕ, ◌+◌, ◌*◌, ◌≤◌, ◌≡◌, refl, List, [], ◌∷◌, All, ok, arith, ◌>>=◌, >>=-eq-ok,
  Result-cases, Bool-cases, inl, inr, ap,
}
use kiosk_project.Base.Int.{
  ℤ, pos, negsuc, pos_part, neg_part, ◌≤ℤ◌, ◌+ℤ◌, ◌-ℤ◌, ◌*ℤ◌, +ℤ_parts, int_laws, eq_of_parts,
}
use kiosk_project.Base.Numbers.{magnitude, max_ℤ}
use kiosk_project.Pricing.{
  total_of, before_tax_of, floored_of, breakdown, assert_rule_set, PricingRule, PricingRuleSet,
  PricingUsage, PricingDocumentUsage, QuoteBreakdown, RoundingMode, max_quote_amount_minor,
  assert_rule, document_sides, bounded_product, document_adjustment, duplex_adjustment,
  apply_basis_points, settle_amounts, calculate_quote, assert_usage, assert_within_limit,
  applies_before_tax, select_pricing_rule,
}
use kiosk_project.Pricing.BasisPoints.{apply_basis_points_le, apply_basis_points_nonneg}

pub record IsValidRule (rule : PricingRule) : Type 0 where
  pub unit_nonneg : pos 0 ≤ℤ rule.unit_amount_minor
  pub fee_nonneg : pos 0 ≤ℤ rule.service_fee_minor
  pub minimum_nonneg : pos 0 ≤ℤ rule.minimum_amount_minor
  pub tax_nonneg : pos 0 ≤ℤ rule.tax_basis_points
  pub discount_capped : magnitude rule.duplex_adjustment_basis_points ≤ 10000

assert_rule-IsValidRule :
    (rule : PricingRule) (u : Unit {0}) → assert_rule rule ≡ ok u → IsValidRule rule
unfolding assert_rule
assert_rule-IsValidRule rule u e = ground arith

-- The sides of the documents, which are all positive where `assertUsage` passes.
abbrev pub sides : List PricingDocumentUsage → ℕ
sides [] = 0
sides (d ∷ ds) = pos_part d.printed_sides + sides ds

abbrev AllPositive : List PricingDocumentUsage → Type 0
AllPositive = All (λ d. pos 1 ≤ℤ d.printed_sides)

document_sides_ok :
    (t s : ℤ) (ds : List PricingDocumentUsage)
    → document_sides t ds ≡ ok s
    → AllPositive ds × (s ≡ t +ℤ pos (sides ds))
unfolding document_sides
document_sides_ok t s [] e = (tt, eq_of_parts _ _ (ground (arith, +ℤ_parts t (pos 0))))
document_sides_ok t s (d ∷ ds) e = grind (int_laws, document_sides_ok (t +ℤ d.printed_sides) s ds)

product_pos : (a b : ℤ) → pos 0 ≤ℤ a → pos 0 ≤ℤ b → a *ℤ b ≡ pos (pos_part a * pos_part b)
unfolding ◌*ℤ◌
product_pos (pos a) (pos b) ha hb = ground arith
product_pos a (negsuc b) ha hb = absurd (omega arith)
product_pos (negsuc a) b ha hb = absurd (omega arith)

bounded_product_ok :
    (a b r : ℤ)
    → pos 0 ≤ℤ a
    → pos 0 ≤ℤ b
    → bounded_product a b ≡ ok r
    → (r ≡ pos (pos_part a * pos_part b)) × (pos_part a * pos_part b ≤ max_quote_amount_minor)
unfolding bounded_product
bounded_product_ok a b r ha hb e = ground (arith, product_pos a b ha hb)

module _ (rule : PricingRule) (valid : IsValidRule rule) (mode : RoundingMode) where
  -- One document is adjusted by no more than its own print charge.
  document_adjustment_le :
      (d : PricingDocumentUsage) (r : ℤ)
      → pos 1 ≤ℤ d.printed_sides
      → document_adjustment rule mode d ≡ ok r
      → magnitude r ≤ pos_part d.printed_sides * pos_part rule.unit_amount_minor
  unfolding document_adjustment
  document_adjustment_le d r h e = elim (Bool-cases d.duplex) [
    | inl p ↦
        let (amount, ea, er) =
          >>=-eq-ok (bounded_product d.printed_sides rule.unit_amount_minor) _
            (rw (p, document_adjustment) at e) in
        let (same, _) =
          bounded_product_ok d.printed_sides rule.unit_amount_minor amount (omega arith)
            valid.unit_nonneg ea in
        omega (
          arith,
          ap magnitude same,
          apply_basis_points_le amount rule.duplex_adjustment_basis_points mode r
              valid.discount_capped er,
        )
    | inr p ↦ let zero : ok (pos 0) ≡ ok r = rw (p, document_adjustment) at e in ground arith
  ]

  duplex_adjustment_le :
      (t r : ℤ) (ds : List PricingDocumentUsage)
      → AllPositive ds
      → duplex_adjustment rule mode t ds ≡ ok r
      → (t ≤ℤ r +ℤ pos (sides ds * pos_part rule.unit_amount_minor))
        × (r ≤ℤ t +ℤ pos (sides ds * pos_part rule.unit_amount_minor))
  unfolding duplex_adjustment
  duplex_adjustment_le t r [] a e = grind int_laws
  duplex_adjustment_le t r (d ∷ ds) a e =
      let (x, ex, er) = >>=-eq-ok (document_adjustment rule mode d) _ e in
      omega (int_laws, document_adjustment_le d x a.0 ex, duplex_adjustment_le (t +ℤ x) r ds a.1 er)

-- The breakdown is a sum: the total is the print charge, the duplex adjustment, the fee, what the
-- minimum adds and the tax; no part but the adjustment is negative, the total is no less than the
-- fee and the rule's minimum, and no more than the ceiling.
pub record AddsUp (rule : PricingRule) (q : QuoteBreakdown) : Type 0 where
  pub total_sums :
      q.total_minor
      ≡ q.print_amount_minor +ℤ q.duplex_adjustment_minor +ℤ q.service_fee_minor
        +ℤ q.minimum_adjustment_minor +ℤ q.tax_minor
  pub fee_kept : q.service_fee_minor ≡ rule.service_fee_minor
  pub fee_paid : q.service_fee_minor ≤ℤ q.subtotal_minor
  pub subtotal_paid : q.subtotal_minor ≤ℤ q.total_minor
  pub minimum_nonneg : pos 0 ≤ℤ q.minimum_adjustment_minor
  pub tax_nonneg : pos 0 ≤ℤ q.tax_minor
  pub at_least_minimum : rule.minimum_amount_minor ≤ℤ q.total_minor
  pub within_limit : q.total_minor ≤ℤ pos max_quote_amount_minor

within_limit_ok :
    (total : ℤ) (r q : QuoteBreakdown)
    → (assert_within_limit total >>= λ _. ok r) ≡ ok q
    → (total ≤ℤ pos max_quote_amount_minor) × (r ≡ q)
unfolding assert_within_limit
within_limit_ok total r q e = ground arith

floored_base :
    (rule : PricingRule) (print adjustment : ℤ)
    → pos 0 ≤ℤ print +ℤ adjustment +ℤ rule.service_fee_minor
    → floored_of rule print adjustment ≡ print +ℤ adjustment +ℤ rule.service_fee_minor
unfolding floored_of
floored_base rule print adjustment h = ground arith

sum_before : (base before tax : ℤ) → before +ℤ tax ≡ base +ℤ (before -ℤ base) +ℤ tax
sum_before base before tax = omega int_laws

sum_after :
    (gross base total tax : ℤ) → gross ≡ base +ℤ tax → total ≡ base +ℤ (total -ℤ gross) +ℤ tax
sum_after gross base total tax e = omega (int_laws, ap pos_part e, ap neg_part e)

diff_nonneg : (a b : ℤ) → a ≤ℤ b → pos 0 ≤ℤ b -ℤ a
diff_nonneg a b h = omega int_laws

le_add : (a t : ℤ) → pos 0 ≤ℤ t → a ≤ℤ a +ℤ t
le_add a t h = omega int_laws

add_le : (t a : ℤ) → pos 0 ≤ℤ t → a ≤ℤ t +ℤ a
add_le t a h = omega int_laws

add_nonneg : (a b : ℤ) → pos 0 ≤ℤ a → pos 0 ≤ℤ b → pos 0 ≤ℤ a +ℤ b
add_nonneg a b h k = omega int_laws

≤ℤ_trans : (a b c : ℤ) → a ≤ℤ b → b ≤ℤ c → a ≤ℤ c
≤ℤ_trans a b c h k = omega arith

max_ℤ-le : (a b : ℤ) → (a ≤ℤ max_ℤ a b) × (b ≤ℤ max_ℤ a b)
max_ℤ-le a b = ground arith

before_case :
    (base minimum tax : ℤ)
    → pos 0 ≤ℤ tax
    → let before = max_ℤ base minimum in
      (before +ℤ tax ≡ base +ℤ (before -ℤ base) +ℤ tax)
      × (base ≤ℤ before)
      × (before ≤ℤ before +ℤ tax)
      × (pos 0 ≤ℤ before -ℤ base)
      × (minimum ≤ℤ before +ℤ tax)
before_case base minimum tax t =
    let before = max_ℤ base minimum in
    let (at_base, at_minimum) = max_ℤ-le base minimum in
    (
      sum_before base before tax,
      at_base,
      le_add before tax t,
      diff_nonneg base before at_base,
      ≤ℤ_trans minimum before (before +ℤ tax) at_minimum (le_add before tax t),
    )

after_case :
    (base minimum tax : ℤ)
    → pos 0 ≤ℤ tax
    → let total = max_ℤ (base +ℤ tax) minimum in
      (total ≡ base +ℤ (total -ℤ (base +ℤ tax)) +ℤ tax)
      × (base ≤ℤ base)
      × (base ≤ℤ total)
      × (pos 0 ≤ℤ total -ℤ (base +ℤ tax))
      × (minimum ≤ℤ total)
after_case base minimum tax t =
    let total = max_ℤ (base +ℤ tax) minimum in
    let (at_base, at_minimum) = max_ℤ-le (base +ℤ tax) minimum in
    (
      sum_after (base +ℤ tax) base total tax refl,
      omega arith,
      ≤ℤ_trans base (base +ℤ tax) total (le_add base tax t) at_base,
      diff_nonneg (base +ℤ tax) total at_base,
      at_minimum,
    )

-- The money of a breakdown whose parts are not negative.
breakdown_sums :
    (rule_set : PricingRuleSet) (usage : PricingUsage) (rule : PricingRule)
    (print adjustment tax : ℤ)
    → let base = print +ℤ adjustment +ℤ rule.service_fee_minor in
      let q = breakdown rule_set usage rule print adjustment tax in
      pos 0 ≤ℤ base
      → pos 0 ≤ℤ tax
      → (q.total_minor ≡ base +ℤ q.minimum_adjustment_minor +ℤ tax)
        × (base ≤ℤ q.subtotal_minor)
        × (q.subtotal_minor ≤ℤ q.total_minor)
        × (pos 0 ≤ℤ q.minimum_adjustment_minor)
        × (rule.minimum_amount_minor ≤ℤ q.total_minor)
unfolding breakdown before_tax_of total_of
breakdown_sums rule_set usage rule print adjustment tax h t =
    let base : ℤ = print +ℤ adjustment +ℤ rule.service_fee_minor in
    elim (Bool-cases (applies_before_tax rule_set.minimum_application)) [
      | inl p ↦
          rw (p, floored_base rule print adjustment h)
            (before_case base rule.minimum_amount_minor tax t)
      | inr p ↦
          rw (p, floored_base rule print adjustment h)
            (after_case base rule.minimum_amount_minor tax t)
    ]

pub record IsValidUsage (usage : PricingUsage) : Type 0 where
  pub documents_positive : AllPositive usage.documents
  pub sides_counted : usage.printed_sides ≡ pos (sides usage.documents)
  pub some_sheet : pos 1 ≤ℤ usage.physical_sheets
  pub sheets_fit : usage.physical_sheets ≤ℤ usage.printed_sides

assert_usage-IsValidUsage :
    (usage : PricingUsage) (u : Unit {0}) → assert_usage usage ≡ ok u → IsValidUsage usage
unfolding assert_usage
assert_usage-IsValidUsage usage u e = elim (Result-cases (document_sides (pos 0) usage.documents)) [
  | inl (s, es) ↦
      let zero : pos 0 +ℤ pos (sides usage.documents) ≡ pos (sides usage.documents) =
        omega int_laws in
      ground
        (arith, document_sides_ok (pos 0) s usage.documents es, eq_of_parts s usage.printed_sides)
  | inr (x, ex) ↦ ground arith
]

-- A quote adds up; its print charge is the unit price of every printed side, and the duplex
-- adjustment takes off or adds at most that charge.
pub record IsPriced (rule : PricingRule) (usage : PricingUsage) (q : QuoteBreakdown) : Type 0 where
  pub adds_up : AddsUp rule q
  pub every_side :
      q.print_amount_minor ≡ pos (pos_part usage.printed_sides * pos_part rule.unit_amount_minor)
  pub adjustment_capped : magnitude q.duplex_adjustment_minor ≤ pos_part q.print_amount_minor

capped_by :
    (a : ℤ) (n : ℕ)
    → pos 0 ≤ℤ a +ℤ pos n
    → a ≤ℤ pos 0 +ℤ pos n
    → (magnitude a ≤ n) × (pos 0 ≤ℤ pos n +ℤ a)
capped_by (pos a) n h k = omega int_laws
capped_by (negsuc a) n h k = omega int_laws

-- The settled amounts are those of the breakdown, with a tax that is not negative.
settled :
    (rule_set : PricingRuleSet) (usage : PricingUsage) (rule : PricingRule) (print adjustment : ℤ)
    (q : QuoteBreakdown)
    → IsValidRule rule
    → pos 0 ≤ℤ before_tax_of rule_set rule (floored_of rule print adjustment)
    → settle_amounts rule_set usage rule print adjustment ≡ ok q
    → (tax : ℤ) × (pos 0 ≤ℤ tax)
      × (breakdown rule_set usage rule print adjustment tax ≡ q)
      × (q.total_minor ≤ℤ pos max_quote_amount_minor)
unfolding settle_amounts breakdown
settled rule_set usage rule print adjustment q v h e =
    let before : ℤ = before_tax_of rule_set rule (floored_of rule print adjustment) in
    let (tax, et, er) =
      >>=-eq-ok (apply_basis_points before rule.tax_basis_points rule_set.rounding) _ e in
    let (limit, same) =
      within_limit_ok (total_of rule_set rule (before +ℤ tax))
        (breakdown rule_set usage rule print adjustment tax) q er in
    (
      tax,
      apply_basis_points_nonneg before rule.tax_basis_points rule_set.rounding tax h v.tax_nonneg
          et,
      same,
      subst (λ r. r.total_minor ≤ℤ pos max_quote_amount_minor) same limit,
    )

before_nonneg :
    (rule_set : PricingRuleSet) (rule : PricingRule) (print adjustment : ℤ)
    → pos 0 ≤ℤ before_tax_of rule_set rule (floored_of rule print adjustment)
unfolding before_tax_of floored_of
before_nonneg rule_set rule print adjustment = ground arith

breakdown-AddsUp :
    (rule_set : PricingRuleSet) (usage : PricingUsage) (rule : PricingRule)
    (print adjustment tax : ℤ)
    → let q = breakdown rule_set usage rule print adjustment tax in
      IsValidRule rule
      → pos 0 ≤ℤ print +ℤ adjustment
      → pos 0 ≤ℤ tax
      → q.total_minor ≤ℤ pos max_quote_amount_minor
      → AddsUp rule q
unfolding breakdown
breakdown-AddsUp rule_set usage rule print adjustment tax v h t limit =
    let q = breakdown rule_set usage rule print adjustment tax in
    let base : ℤ = print +ℤ adjustment +ℤ rule.service_fee_minor in
    let (total, at_base, up, extra, minimum) =
      breakdown_sums rule_set usage rule print adjustment tax
        (add_nonneg (print +ℤ adjustment) rule.service_fee_minor h v.fee_nonneg) t in
    record {
      total_sums = total;
      fee_kept = refl;
      fee_paid =
          ≤ℤ_trans rule.service_fee_minor base q.subtotal_minor
            (add_le (print +ℤ adjustment) rule.service_fee_minor h) at_base;
      subtotal_paid = up;
      minimum_nonneg = extra;
      tax_nonneg = t;
      at_least_minimum = minimum;
      within_limit = limit;
    }

priced :
    (rule_set : PricingRuleSet) (usage : PricingUsage) (rule : PricingRule) (print adjustment : ℤ)
    (q : QuoteBreakdown)
    → IsValidRule rule
    → (n : ℕ) → print ≡ pos n
    → (magnitude adjustment ≤ n) × (pos 0 ≤ℤ pos n +ℤ adjustment)
    → n ≡ pos_part usage.printed_sides * pos_part rule.unit_amount_minor
    → settle_amounts rule_set usage rule print adjustment ≡ ok q
    → IsPriced rule usage q
unfolding breakdown
priced rule_set usage rule print adjustment q v n en (small, h) count e =
    let (tax, t, same, limit) =
      settled rule_set usage rule print adjustment q v
        (before_nonneg rule_set rule print adjustment) e in
    subst (IsPriced rule usage) same (record {
      adds_up =
          breakdown-AddsUp rule_set usage rule print adjustment tax v
            (subst (λ p. pos 0 ≤ℤ p +ℤ adjustment) (sym en) h) t
            (subst (λ r. r.total_minor ≤ℤ pos max_quote_amount_minor) (sym same) limit);
      every_side = en ∙ ap pos count;
      adjustment_capped = subst (λ p. magnitude adjustment ≤ pos_part p) (sym en) small;
    })

-- The adjustment stays within the print charge.
adjustment_fits :
    (usage : PricingUsage) (rule : PricingRule) (mode : RoundingMode) (print adjustment : ℤ)
    → IsValidRule rule
    → IsValidUsage usage
    → bounded_product usage.printed_sides rule.unit_amount_minor ≡ ok print
    → duplex_adjustment rule mode (pos 0) usage.documents ≡ ok adjustment
    → let n = pos_part usage.printed_sides * pos_part rule.unit_amount_minor in
      (print ≡ pos n) × ((magnitude adjustment ≤ n) × (pos 0 ≤ℤ pos n +ℤ adjustment))
adjustment_fits usage rule mode print adjustment v w ep ea =
    let n : ℕ = pos_part usage.printed_sides * pos_part rule.unit_amount_minor in
    let (same, _) =
      bounded_product_ok usage.printed_sides rule.unit_amount_minor print
        (omega (arith, w.some_sheet, w.sheets_fit)) v.unit_nonneg ep in
    let (low, high) =
      duplex_adjustment_le rule v mode (pos 0) adjustment usage.documents w.documents_positive ea in
    let count : sides usage.documents * pos_part rule.unit_amount_minor ≡ n =
      ap (λ t. pos_part t * pos_part rule.unit_amount_minor) (sym w.sides_counted) in
    (
      same,
      capped_by adjustment n (subst (λ t. pos 0 ≤ℤ adjustment +ℤ pos t) count low)
          (subst (λ t. adjustment ≤ℤ pos 0 +ℤ pos t) count high),
    )

-- Every quote that the code returns adds up, and was priced by a rule of the set: the total is the
-- print charge, the duplex adjustment, the fee, what the minimum adds and the tax. The print
-- charge is the unit price of every printed side, and the adjustment takes off, or adds, at most
-- that charge; so the floor at zero never bites, and nobody pays less than the fee or the minimum,
-- nor more than the ceiling.
pub calculate_quote-AddsUp :
    (rule_set : PricingRuleSet) (usage : PricingUsage) (q : QuoteBreakdown)
    → calculate_quote rule_set usage ≡ ok q
    → (rule : PricingRule) × (select_pricing_rule rule_set usage ≡ ok rule) × IsPriced rule usage q
unfolding calculate_quote
calculate_quote-AddsUp rule_set usage q e =
    let (_, _, e1) = >>=-eq-ok (assert_rule_set rule_set) _ e in
    let (u, eu, e2) = >>=-eq-ok (assert_usage usage) _ e1 in
    let (rule, er, e3) = >>=-eq-ok (select_pricing_rule rule_set usage) _ e2 in
    let (v, ev, e4) = >>=-eq-ok (assert_rule rule) _ e3 in
    let (print, ep, e5) =
      >>=-eq-ok (bounded_product usage.printed_sides rule.unit_amount_minor) _ e4 in
    let (adjustment, ea, e6) =
      >>=-eq-ok (duplex_adjustment rule rule_set.rounding (pos 0) usage.documents) _ e5 in
    let valid = assert_rule-IsValidRule rule v ev in
    let (same, fits) =
      adjustment_fits usage rule rule_set.rounding print adjustment valid
        (assert_usage-IsValidUsage usage u eu) ep ea in
    (rule, er, priced rule_set usage rule print adjustment q valid _ same fits refl e6)
