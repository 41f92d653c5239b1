-- ===== src/Wallet/Examples.antt =====
-- A purchase from a merchant that tells its total and returns a receipt
-- (packages/buyer/src/wallet/index.ts).
use steelyard_sdk.Base.{
  ◌≡◌, refl, String, true, false, none, List, [], ◌∷◌, ok, err, Result, ◌⊎◌, inl, inr, Bool-cases,
}
use steelyard_sdk.Vault.{SpendLimits, Receipt}
use steelyard_sdk.Core.PolicyYaml.{can, Document, Intent}
use steelyard_sdk.Wallet.{
  PurchaseOptions, Thrown, works, Merchant, returns, throws, totals, reservation_released,
  purchase_with_merchant,
}
use steelyard_sdk.Wallet.Totals.{Honest, tells_release}
use steelyard_sdk.Wallet.Resolves.{Ends, purchase_with_merchant-resolves}

-- currencies and domains in their normal form
abbrev same : String → String
same c = c

-- one label for each domain
abbrev one_label : String → List String
one_label d = d ∷ []

abbrev summary : Thrown → String
summary e = "failed"

abbrev caps : SpendLimits
caps = record { daily_caps = ("USD", 1000) ∷ []; weekly_caps = []; monthly_caps = [] }

abbrev documents : List Document
documents =
    record {
      allows = true;
      rules =
          record { name = "all"; effect = can; condition = none; requires_approval_above = none }
          ∷ [];
      limits = caps;
    }
    ∷ []

abbrev intent : Intent
intent = record {
  purchase = record { intent_id = "i"; merchant_domain = "shop"; amount = 400; currency = "USD" };
  categories = [];
}

abbrev options : PurchaseOptions
options = record { approval = none; resume = none; idempotency_key = none }

abbrev receipt : Receipt
receipt = record { order_id = "o"; charged_amount = 350; charged_currency = "USD"; created_at = 30 }

abbrev after_total : Result Thrown (Unit {0}) → Merchant
after_total (ok _) = returns receipt (works 40) (works 41)
after_total (err e) = throws e (works 40)

abbrev merchant : Merchant
merchant = totals 350 "USD" (works 30) after_total

-- it rethrows what it is told, and no call fails
honest : Honest true false merchant
honest = (refl, told)
  where
    told :
        (answer : Result Thrown (Unit {0}))
        → Honest true (tells_release answer) (after_total answer)
    told (ok _) = (refl, refl)
    told (err e) = elim (Bool-cases (reservation_released e)) [
      | inl b ↦ rw b (refl, refl)
      | inr b ↦ rw b (refl, refl)
    ]

purchase_with_merchant-resolves_example :
    ((e : Thrown) × ((any : Merchant)
        → purchase_with_merchant one_label same same summary documents caps intent options "k" "r"
            (works 10)
            (works 20)
            any
            []
          ≡ (err e, [])))
    ⊎ Ends one_label same same summary true merchant "r" (
        purchase_with_merchant one_label same same summary documents caps intent options "k" "r"
          (works 10)
          (works 20)
          merchant
          [])
purchase_with_merchant-resolves_example =
    purchase_with_merchant-resolves one_label same same summary documents caps intent options "k"
      "r" (works 10) (works 20) merchant [] true refl honest
