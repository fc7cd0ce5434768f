-- ===== src/Pricing.antt =====
-- packages/pricing/src/index.ts: the price of a print job from a published rule set.
--
-- Money is an integer of minor units, as in the source, which refuses every number that is not a
-- safe integer. Sums and products of the model are exact: where a double would not be, the exact
-- value lies outside the safe range too and the source's own test refuses it. The quotient by
-- 10,000 of a safe integer is below 2^40, where a double's spacing is finer than a ten-thousandth,
-- so its floor is the integer quotient. Modes outside their type, which `assertRuleSet` refuses as
-- well, have no value here; an error carries its code without its details.
pub mod BasisPoints
pub mod Selection
pub mod Quote
pub mod Examples
use kiosk_project.Base.{
  ℕ, ◌+◌, ◌*◌, ◌/◌, ◌%◌, ◌≤◌, String, str_eq, Bool, true, false, not, ◌&&◌, ◌||◌, Option, none,
  some, List, [], ◌∷◌, if◌then◌else◌, ◌==◌, ltb, leb, in_range, filter, Result, ok, err, ◌>>=◌,
  ◌>>◌, refuse_if, or_throw, require, all,
}
use kiosk_project.Base.Int.{
  ℤ, pos, negsuc, pos_part, neg_part, sub_ℕ, ◌+ℤ◌, ◌-ℤ◌, ◌*ℤ◌, ltb_ℤ, leb_ℤ, eqb_ℤ,
}
use kiosk_project.Base.Numbers.{is_safe_integer, max_ℤ, magnitude}
use kiosk_project.Base.Sorting.{sort_by, insert_by}

pub data RoundingMode : Type 0 where
  half_up half_even away_from_zero toward_zero : RoundingMode

pub data TaxMode : Type 0 where
  exclusive : TaxMode

pub data MinimumApplicationPoint : Type 0 where
  before_tax after_tax : MinimumApplicationPoint

abbrev pub basis_point_scale : ℕ
basis_point_scale = 10000

abbrev pub max_quote_amount_minor : ℕ
max_quote_amount_minor = 100000000

pub record PricingRule : Type 0 where
  pub service : String
  pub paper_size : String
  pub color_mode : String
  pub unit_amount_minor : ℤ
  pub duplex_adjustment_basis_points : ℤ
  pub service_fee_minor : ℤ
  pub minimum_amount_minor : ℤ
  pub tax_basis_points : ℤ
  pub priority : ℤ

pub record PricingRuleSet : Type 0 where
  pub id : String
  pub version : String
  pub currency : List ℕ
  pub currency_exponent : ℤ
  pub rounding : RoundingMode
  pub tax_mode : TaxMode
  pub minimum_application : MinimumApplicationPoint
  pub rules : List PricingRule

pub record PricingDocumentUsage : Type 0 where
  pub duplex : Bool
  pub printed_sides : ℤ

pub record PricingUsage : Type 0 where
  pub service : String
  pub paper_size : String
  pub color_mode : String
  pub documents : List PricingDocumentUsage
  pub selected_pages : ℤ
  pub printed_sides : ℤ
  pub physical_sheets : ℤ

pub record QuoteBreakdown : Type 0 where
  pub pricing_version : String
  pub rule_set_id : String
  pub currency : List ℕ
  pub currency_exponent : ℤ
  pub selected_pages : ℤ
  pub printed_sides : ℤ
  pub physical_sheets : ℤ
  pub print_amount_minor : ℤ
  pub duplex_adjustment_minor : ℤ
  pub service_fee_minor : ℤ
  pub minimum_adjustment_minor : ℤ
  pub subtotal_minor : ℤ
  pub tax_minor : ℤ
  pub total_minor : ℤ

pub data PricingErrorCode : Type 0 where
  pricing_rule_not_found pricing_rule_set_invalid pricing_usage_invalid
        pricing_amount_limit_exceeded :
      PricingErrorCode

pub assert_safe_integer : ℤ → Result PricingErrorCode (Unit {0})
assert_safe_integer value = require (is_safe_integer value) pricing_usage_invalid

-- The `switch` on the mode, at a remainder that is not zero.
pub by_mode : RoundingMode → ℕ → ℕ → ℕ
by_mode toward_zero quotient twice_remainder = quotient
by_mode away_from_zero quotient twice_remainder = quotient + 1
by_mode half_up quotient twice_remainder =
    if leb basis_point_scale twice_remainder then quotient + 1 else quotient
by_mode half_even quotient twice_remainder =
    if ltb basis_point_scale twice_remainder
    then quotient + 1
    else if ltb twice_remainder basis_point_scale
    then quotient
    else if quotient % 2 == 0
    then quotient
    else quotient + 1

-- The magnitude of the rounded quotient.
pub rounded : RoundingMode → ℕ → ℕ
unfolding by_mode
rounded mode magnitude =
    let quotient = magnitude / basis_point_scale in
    let remainder = magnitude % basis_point_scale in
    if remainder == 0 then quotient else by_mode mode quotient (remainder * 2)

-- `sign * n`, where `sign` is -1 for a negative number.
abbrev pub with_sign_of : ℤ → ℕ → ℤ
with_sign_of (pos _) n = pos n
with_sign_of (negsuc _) n = sub_ℕ 0 n

pub apply_basis_points : ℤ → ℤ → RoundingMode → Result PricingErrorCode ℤ
unfolding assert_safe_integer
apply_basis_points amount_minor basis_points rounding = do
  assert_safe_integer amount_minor
  assert_safe_integer basis_points
  let product = amount_minor *ℤ basis_points
  require (is_safe_integer product) pricing_amount_limit_exceeded
  ok (with_sign_of product (rounded rounding (magnitude product)))

pub rule_matches : PricingUsage → PricingRule → Bool
rule_matches usage rule =
    str_eq rule.service usage.service
    && str_eq rule.paper_size usage.paper_size
    && str_eq rule.color_mode usage.color_mode

-- `right.priority - left.priority` is at most 0.
pub higher_first : PricingRule → PricingRule → Bool
higher_first left right = leb_ℤ right.priority left.priority

abbrev pub first {ℓ} : {A : Type ℓ} → List A → Option A
first [] = none
first (x ∷ xs) = some x

pub select_pricing_rule : PricingRuleSet → PricingUsage → Result PricingErrorCode PricingRule
select_pricing_rule rule_set usage =
    or_throw (first (sort_by higher_first (filter (rule_matches usage) rule_set.rules)))
      pricing_rule_not_found

abbrev is_upper : ℕ → Bool
is_upper = in_range b'A' b'Z'

-- `/^[A-Z]{3}$/`.
pub is_currency : List ℕ → Bool
is_currency (a ∷ b ∷ c ∷ []) = is_upper a && is_upper b && is_upper c
is_currency _ = false

pub assert_rule_set : PricingRuleSet → Result PricingErrorCode (Unit {0})
unfolding is_currency
assert_rule_set rule_set = do
  require (is_currency rule_set.currency) pricing_rule_set_invalid
  refuse_if
      (not (is_safe_integer rule_set.currency_exponent) || ltb_ℤ rule_set.currency_exponent (pos 0))
      pricing_rule_set_invalid

abbrev not_negative : ℤ → Bool
not_negative value = is_safe_integer value && leb_ℤ (pos 0) value

pub assert_rule : PricingRule → Result PricingErrorCode (Unit {0})
assert_rule rule = do
  require
      (not_negative rule.unit_amount_minor
        && not_negative rule.service_fee_minor
        && not_negative rule.minimum_amount_minor
        && not_negative rule.tax_basis_points)
      pricing_rule_set_invalid
  refuse_if
      (not (is_safe_integer rule.duplex_adjustment_basis_points)
        || ltb_ℤ rule.duplex_adjustment_basis_points (negsuc 9999)
        || ltb_ℤ (pos basis_point_scale) rule.duplex_adjustment_basis_points)
      pricing_rule_set_invalid

abbrev is_positive : ℤ → Bool
is_positive value = is_safe_integer value && leb_ℤ (pos 1) value

abbrev is_empty {ℓ} : {A : Type ℓ} → List A → Bool
is_empty [] = true
is_empty (_ ∷ _) = false

-- The loop over the documents: `documentSides`, or a refusal.
pub document_sides : ℤ → List PricingDocumentUsage → Result PricingErrorCode ℤ
document_sides total [] = ok total
document_sides total (document ∷ documents) =
    let rest = document_sides (total +ℤ document.printed_sides) documents in
    if is_positive document.printed_sides then rest else err pricing_usage_invalid

pub assert_usage : PricingUsage → Result PricingErrorCode (Unit {0})
unfolding document_sides
assert_usage usage = do
  require
      (is_positive usage.selected_pages
        && is_positive usage.printed_sides
        && is_positive usage.physical_sheets)
      pricing_usage_invalid
  refuse_if (ltb_ℤ usage.printed_sides usage.physical_sheets) pricing_usage_invalid
  refuse_if (is_empty usage.documents) pricing_usage_invalid
  sides ← document_sides (pos 0) usage.documents
  require (eqb_ℤ sides usage.printed_sides) pricing_usage_invalid

pub assert_within_limit : ℤ → Result PricingErrorCode (Unit {0})
assert_within_limit amount_minor =
    refuse_if
      (not (is_safe_integer amount_minor) || ltb_ℤ (pos max_quote_amount_minor) amount_minor)
      pricing_amount_limit_exceeded

pub bounded_product : ℤ → ℤ → Result PricingErrorCode ℤ
unfolding assert_within_limit
bounded_product left right = do
  let product = left *ℤ right
  require (is_safe_integer product) pricing_amount_limit_exceeded
  assert_within_limit product
  ok product

-- One step of the `reduce` over the documents.
pub document_adjustment :
    PricingRule → RoundingMode → PricingDocumentUsage → Result PricingErrorCode ℤ
document_adjustment rule rounding document =
    if document.duplex
    then (bounded_product document.printed_sides rule.unit_amount_minor >>= λ amount.
        apply_basis_points amount rule.duplex_adjustment_basis_points rounding)
    else ok (pos 0)

pub duplex_adjustment :
    PricingRule → RoundingMode → ℤ → List PricingDocumentUsage → Result PricingErrorCode ℤ
duplex_adjustment rule rounding total [] = ok total
duplex_adjustment rule rounding total (document ∷ documents) =
    document_adjustment rule rounding document >>= λ a.
    duplex_adjustment rule rounding (total +ℤ a) documents

abbrev pub applies_before_tax : MinimumApplicationPoint → Bool
applies_before_tax before_tax = true
applies_before_tax after_tax = false

-- `flooredMinor`, from the print charge and the duplex adjustment.
pub floored_of : PricingRule → ℤ → ℤ → ℤ
floored_of rule print_amount adjustment =
    max_ℤ (print_amount +ℤ adjustment +ℤ rule.service_fee_minor) (pos 0)

-- `beforeTaxMinor`.
pub before_tax_of : PricingRuleSet → PricingRule → ℤ → ℤ
before_tax_of rule_set rule floored =
    if applies_before_tax rule_set.minimum_application
    then max_ℤ floored rule.minimum_amount_minor
    else floored

-- `totalMinor`.
pub total_of : PricingRuleSet → PricingRule → ℤ → ℤ
total_of rule_set rule gross =
    if applies_before_tax rule_set.minimum_application
    then gross
    else max_ℤ gross rule.minimum_amount_minor

-- The returned object.
pub breakdown : PricingRuleSet → PricingUsage → PricingRule → ℤ → ℤ → ℤ → QuoteBreakdown
breakdown rule_set usage rule print_amount adjustment tax =
    let floored = floored_of rule print_amount adjustment in
    let before = before_tax_of rule_set rule floored in
    let gross = before +ℤ tax in
    let total = total_of rule_set rule gross in
    record {
      pricing_version = rule_set.version;
      rule_set_id = rule_set.id;
      currency = rule_set.currency;
      currency_exponent = rule_set.currency_exponent;
      selected_pages = usage.selected_pages;
      printed_sides = usage.printed_sides;
      physical_sheets = usage.physical_sheets;
      print_amount_minor = print_amount;
      duplex_adjustment_minor = adjustment;
      service_fee_minor = rule.service_fee_minor;
      minimum_adjustment_minor =
          if applies_before_tax rule_set.minimum_application
          then before -ℤ floored
          else total -ℤ gross;
      subtotal_minor = before;
      tax_minor = tax;
      total_minor = total;
    }

-- The tax, the limit and the result, once the charge and the adjustment are known.
pub settle_amounts :
    PricingRuleSet → PricingUsage → PricingRule → ℤ → ℤ → Result PricingErrorCode QuoteBreakdown
settle_amounts rule_set usage rule print_amount adjustment = do
  let before = before_tax_of rule_set rule (floored_of rule print_amount adjustment)
  tax ← apply_basis_points before rule.tax_basis_points rule_set.rounding
  assert_within_limit (total_of rule_set rule (before +ℤ tax))
  ok (breakdown rule_set usage rule print_amount adjustment tax)

pub calculate_quote : PricingRuleSet → PricingUsage → Result PricingErrorCode QuoteBreakdown
calculate_quote rule_set usage = do
  assert_rule_set rule_set
  assert_usage usage
  rule ← select_pricing_rule rule_set usage
  assert_rule rule
  print_amount ← bounded_product usage.printed_sides rule.unit_amount_minor
  adjustment ← duplex_adjustment rule rule_set.rounding (pos 0) usage.documents
  settle_amounts rule_set usage rule print_amount adjustment
