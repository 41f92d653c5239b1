-- ===== src/Core/OrderState/Agreement.antt =====
-- Where the two protocols agree (packages/core/src/order-state.ts).
use mathlib.Core.Path.{subst}
use steelyard_sdk.Base.{
  ◌≡◌, sym, String, some, str_eq, str_eq_iff, ok, arith, ◌⊎◌, inl, inr, Bool-cases,
}
use steelyard_sdk.Core.OrderState.{
  OrderState, map_completed_acp_order_status, map_acp_to_order_state, map_ucp_checkout_status,
}

Agrees : OrderState → String → Type 0
Agrees state status =
    map_ucp_checkout_status status ≡ ok state
    → map_acp_to_order_state status (some "completed") ≡ ok state

-- the four statuses that UCP has an order state for
known :
    (status : String) (state : OrderState)
    → map_ucp_checkout_status status ≡ ok state
    → (status ≡ "completed")
      ⊎ ((status ≡ "complete_in_progress")
          ⊎ ((status ≡ "canceled") ⊎ (status ≡ "requires_escalation")))
unfolding map_ucp_checkout_status
known status state h = elim (Bool-cases (str_eq status "completed")) [
  | inl a ↦ inl ((str_eq_iff status "completed").0 a)
  | inr a ↦ elim (Bool-cases (str_eq status "complete_in_progress")) [
    | inl b ↦ inr (inl ((str_eq_iff status "complete_in_progress").0 b))
    | inr b ↦ elim (Bool-cases (str_eq status "canceled")) [
      | inl c ↦ inr (inr (inl ((str_eq_iff status "canceled").0 c)))
      | inr c ↦ elim (Bool-cases (str_eq status "requires_escalation")) [
        | inl d ↦ inr (inr (inr ((str_eq_iff status "requires_escalation").0 d)))
        | inr d ↦ absurd (ground (arith, h, a, b, c, d))
      ]
    ]
  ]
]

-- If a UCP checkout status has an order state, then an ACP session of the same status, with a completed
-- order, has the same one.
pub map_ucp_checkout_status-map_acp_to_order_state :
    (status : String) (state : OrderState)
    → map_ucp_checkout_status status ≡ ok state
    → map_acp_to_order_state status (some "completed") ≡ ok state
unfolding map_ucp_checkout_status map_acp_to_order_state map_completed_acp_order_status str_eq
    Agrees
map_ucp_checkout_status-map_acp_to_order_state status state h = elim (known status state h) [
  | inl e ↦ subst (Agrees state) (sym e) (λ k. k) h
  | inr (inl e) ↦ subst (Agrees state) (sym e) (λ k. k) h
  | inr (inr (inl e)) ↦ subst (Agrees state) (sym e) (λ k. k) h
  | inr (inr (inr e)) ↦ subst (Agrees state) (sym e) (λ k. k) h
]
