-- ===== src/Core/OrderState.antt =====
-- The state of an order from the statuses of the two protocols (packages/core/src/order-state.ts).
-- The warning about an unknown order status is output, and left out.
pub mod Agreement
use steelyard_sdk.Base.{
  String, Bool, Option, some, none, str_eq, if◌then◌else◌, ◌||◌, Result, ok, err,
}

pub data OrderState : Type 0 where
  authorized captured completed pending_approval escalation_required canceled failed : OrderState

pub data StatusError : Type 0 where
  no_receipt : (status : String) → StatusError

-- `mapCompletedAcpOrderStatus`; null and undefined are `none`
unfoldable pub map_completed_acp_order_status : Option String → OrderState
map_completed_acp_order_status none = captured
map_completed_acp_order_status (some status) =
    if str_eq status "completed" || str_eq status "shipped"
    then completed
    else if str_eq status "confirmed" || (str_eq status "created" || str_eq status "processing")
    then captured
    else if str_eq status "manual_review"
    then pending_approval
    else if str_eq status "canceled"
    then canceled
    else captured

unfoldable pub map_acp_to_order_state : String → Option String → Result StatusError OrderState
map_acp_to_order_state session order =
    if str_eq session "completed"
    then ok (map_completed_acp_order_status order)
    else if str_eq session "complete_in_progress" || str_eq session "in_progress"
    then ok captured
    else if str_eq session "canceled"
    then ok canceled
    else if str_eq session "pending_approval"
    then ok pending_approval
    else if str_eq session "authentication_required" || str_eq session "requires_escalation"
    then ok escalation_required
    else if str_eq session "expired"
    then ok failed
    else err (no_receipt session)

unfoldable pub map_ucp_checkout_status : String → Result StatusError OrderState
map_ucp_checkout_status status =
    if str_eq status "completed"
    then ok completed
    else if str_eq status "complete_in_progress"
    then ok captured
    else if str_eq status "canceled"
    then ok canceled
    else if str_eq status "requires_escalation"
    then ok escalation_required
    else err (no_receipt status)
