-- ===== src/Pricing/Examples.antt =====
-- The pricing theorems of packages/pricing/src/index.ts at a concrete rule set and job.
use kiosk_project.Base.{◌*◌, ◌≡◌, refl, true, false, ◌∷◌, [], codes, ok}
use kiosk_project.Base.Int.{◌-ℤ◌, ◌+ℤ◌, ◌*ℤ◌, pos, negsuc}
use kiosk_project.Pricing.{
  is_currency, higher_first, document_sides, by_mode, breakdown, assert_within_limit,
  assert_safe_integer, settle_amounts, before_tax_of, floored_of, total_of, settle_amounts,
  document_adjustment, duplex_adjustment, bounded_product, assert_rule, rule_matches, assert_usage,
  assert_rule_set, rounded, PricingRule, PricingRuleSet, PricingUsage, QuoteBreakdown, half_up,
  half_even, exclusive, after_tax, calculate_quote, select_pricing_rule, apply_basis_points,
}
use kiosk_project.Pricing.BasisPoints.{IsRounding, apply_basis_points-IsRounding}
use kiosk_project.Pricing.Selection.{Selects, select_pricing_rule-Selects}
use kiosk_project.Pricing.Quote.{IsPriced, calculate_quote-AddsUp}
use kiosk_project.Base.Sorting.{sort_by, insert_by}

abbrev standard : PricingRule
standard = record {
  service = "PRINT";
  paper_size = "A4";
  color_mode = "MONOCHROME";
  unit_amount_minor = pos 50;
  duplex_adjustment_basis_points = negsuc 999;
  service_fee_minor = pos 25;
  minimum_amount_minor = pos 100;
  tax_basis_points = pos 2000;
  priority = pos 10;
}

abbrev rule_set : PricingRuleSet
rule_set = record {
  id = "rules-1";
  version = "2026-01";
  currency = codes "AMD";
  currency_exponent = pos 2;
  rounding = half_up;
  tax_mode = exclusive;
  minimum_application = after_tax;
  rules = standard ∷ [];
}

abbrev usage : PricingUsage
usage = record {
  service = "PRINT";
  paper_size = "A4";
  color_mode = "MONOCHROME";
  documents =
      record { duplex = false; printed_sides = pos 1 }
      ∷ record { duplex = true; printed_sides = pos 6 }
      ∷ [];
  selected_pages = pos 4;
  printed_sides = pos 7;
  physical_sheets = pos 5;
}

-- 7 sides at 50 less a tenth of 300, a fee of 25, and a tax of a fifth of 345.
abbrev quote : QuoteBreakdown
quote = record {
  pricing_version = "2026-01";
  rule_set_id = "rules-1";
  currency = codes "AMD";
  currency_exponent = pos 2;
  selected_pages = pos 4;
  printed_sides = pos 7;
  physical_sheets = pos 5;
  print_amount_minor = pos 350;
  duplex_adjustment_minor = negsuc 29;
  service_fee_minor = pos 25;
  minimum_adjustment_minor = pos 0;
  subtotal_minor = pos 345;
  tax_minor = pos 69;
  total_minor = pos 414;
}

priced : calculate_quote rule_set usage ≡ ok quote
unfolding calculate_quote assert_rule_set assert_usage ◌+ℤ◌ select_pricing_rule sort_by rule_matches
    assert_rule bounded_product ◌*ℤ◌ duplex_adjustment document_adjustment apply_basis_points
    settle_amounts before_tax_of floored_of rounded total_of ◌-ℤ◌ insert_by assert_safe_integer
    assert_within_limit breakdown by_mode document_sides higher_first is_currency
priced = refl

tie : apply_basis_points (pos 25) (negsuc 1999) half_even ≡ ok (negsuc 4)
unfolding apply_basis_points rounded ◌*ℤ◌
tie = refl

halved : apply_basis_points (pos 25) (pos 5000) half_even ≡ ok (pos 12)
unfolding apply_basis_points rounded ◌*ℤ◌
halved = refl

calculate_quote-AddsUp_example :
    (rule : PricingRule) × (select_pricing_rule rule_set usage ≡ ok rule)
    × IsPriced rule usage quote
calculate_quote-AddsUp_example = calculate_quote-AddsUp rule_set usage quote priced

select_pricing_rule-Selects_example :
    Selects usage (standard ∷ []) (select_pricing_rule rule_set usage)
select_pricing_rule-Selects_example = select_pricing_rule-Selects rule_set usage

apply_basis_points-IsRounding_example : IsRounding half_even (25 * 5000) 12
apply_basis_points-IsRounding_example =
    apply_basis_points-IsRounding (pos 25) (pos 5000) half_even (pos 12) halved
