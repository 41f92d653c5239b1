-- ===== src/Policy/Examples/Engine.antt =====
-- The properties of the engine at concrete states (packages/policy/src/engine.ts).
use steelyard_sdk.Base.{
  ℕ, ◌≡◌, refl, String, Bool, true, false, Option, some, none, List, [], ◌∷◌, Result, ok, err,
  str_eq, arith,
}
use steelyard_sdk.Base.Int.{ℤ, pos}
use steelyard_sdk.Base.Maps.{lookup, insert}
use steelyard_sdk.Policy.Ledger.{new_row}
use steelyard_sdk.Policy.Evaluator.{
  one_time, virtual_card, allow, ResolvedRule, ResolvedPolicy, NormalizedFacts,
}
use steelyard_sdk.Policy.Engine.State.{
  Engine, AuthorizationInputs, ApprovalRecord, waiting, DecisionEnvelope, allowed,
}
use steelyard_sdk.Policy.Engine.Propose.{
  Config, World, Fresh, Request, Minted, sandbox, propose_intent,
}
use steelyard_sdk.Policy.Engine.Propose.Replay.{propose_intent-replays}
use steelyard_sdk.Policy.Engine.Propose.Granted.{Decided, propose_intent-Decided}
use steelyard_sdk.Policy.Engine.Callback.{
  CallbackRequest, CallbackResult, approve, deny, was_approved, rejected, replayed_nonce,
  handle_approval_callback,
}
use steelyard_sdk.Policy.Engine.Callback.Checks.{Checked, Issued}
use steelyard_sdk.Policy.Engine.Callback.Once.{
  handle_approval_callback-Issued, handle_approval_callback-once,
}

abbrev config : Config
config = record {
  env = none;
  rail = some sandbox;
  has_channel = true;
  budget = record { max = 5; window_ms = 60000 };
  reservation_ttl_seconds = 900;
  credential_ttl_ms = 60000;
}

abbrev hash_inputs : AuthorizationInputs → String
hash_inputs inputs = inputs.policy_hash

abbrev hash_prompt : String → String → String → String → ℤ → ℕ → String
hash_prompt id nonce policy domain amount expires_at = nonce

abbrev facts : NormalizedFacts
facts = record {
  merchant_domain = "shop.example";
  amount_usd = pos 500;
  intent_type = one_time;
  cart_contains = [];
  merchant_supports_ucp_acp = true;
  tls_ok = true;
}

abbrev world : World
world = record {
  now = 1000;
  facts = some facts;
  mint = λ hash. some (record { rail_credential_id = "rail"; authorization_hash = hash });
  prompt = none;
}

abbrev grant : ResolvedRule
grant = record {
  name = "small";
  effect = allow;
  rail = some virtual_card;
  condition = none;
  limits = record { per_day_usd = none; per_day_count = none; per_purchase_usd = none };
  approval_expires_in = none;
}

abbrev policy : ResolvedPolicy
policy = record { version = "1"; rules = grant ∷ [] }

abbrev engine : Engine
engine = record {
  token = "t";
  store = record {
    snapshots = ("p", record { policy_hash = "p"; policy = policy; yaml_bytes = "y" }) ∷ [];
    refcounts = ("p", 0) ∷ [];
    current_hash = some "p";
  };
  table = [];
  budget = [];
  idempotency = [];
  intents = [];
  prompts = [];
  credentials = [];
  approvals = [];
  audit = [];
}

abbrev fresh : Fresh
fresh = record {
  intent_id = "i";
  approval_intent_id = "ai";
  reservation_id = "r";
  approval_prompt_id = "ap";
  nonce = "n";
  credential_id = "c";
}

abbrev request : Request
request = record {
  caller_token = "t";
  idempotency_key = "k";
  amount_minor = pos 500;
  currency = "USD";
  purchase_id = none;
}

abbrev proposed : Engine
proposed = (propose_intent config hash_inputs hash_prompt world fresh request engine).1

propose_intent-replays_example :
    propose_intent config hash_inputs hash_prompt world fresh request proposed
    ≡ (ok (allowed "i" "small" "p" "p" "c"), proposed)
unfolding propose_intent steelyard_sdk.Policy.Engine.State.◌>>=◌
    steelyard_sdk.Policy.Engine.State.authenticate str_eq
    steelyard_sdk.Policy.Engine.Propose.cached_or lookup
    steelyard_sdk.Policy.Engine.Propose.propose_new steelyard_sdk.Policy.Snapshots.get_current
    steelyard_sdk.Policy.Engine.Propose.follow_decision steelyard_sdk.Policy.Evaluator.evaluate
    steelyard_sdk.Policy.Evaluator.choose steelyard_sdk.Policy.Evaluator.predicate_matches
    steelyard_sdk.Policy.Evaluator.choose_winner steelyard_sdk.Policy.Engine.Propose.on_rail
    steelyard_sdk.Policy.Engine.Propose.allow_intent steelyard_sdk.Policy.Engine.Propose.reserve
    steelyard_sdk.Policy.Ledger.reserve_after_limit_check steelyard_sdk.Policy.Ledger.over_usd
    steelyard_sdk.Base.Int.◌+ℤ◌ steelyard_sdk.Base.Maps.erase insert
    steelyard_sdk.Policy.Budget.prune steelyard_sdk.Policy.Budget.try_consume
    steelyard_sdk.Policy.Engine.Propose.consume_budget
    steelyard_sdk.Policy.Engine.Propose.create_approval
    steelyard_sdk.Policy.Engine.Propose.deny_budget steelyard_sdk.Policy.Engine.Propose.deny_by_rule
    steelyard_sdk.Policy.Engine.Propose.deny_limit steelyard_sdk.Policy.Engine.Propose.idem_key
    steelyard_sdk.Policy.Engine.Propose.issue steelyard_sdk.Policy.Engine.Propose.mint_credential
    steelyard_sdk.Policy.Engine.Propose.open_approval
    steelyard_sdk.Policy.Engine.Propose.parse_duration_ms
    steelyard_sdk.Policy.Engine.Propose.prepare_authorization
    steelyard_sdk.Policy.Engine.Propose.record_prompt
    steelyard_sdk.Policy.Engine.Propose.send_prompt steelyard_sdk.Policy.Engine.Propose.undo
    steelyard_sdk.Policy.Engine.Propose.undo_prompt
    steelyard_sdk.Policy.Engine.State.commit_reservation
    steelyard_sdk.Policy.Engine.State.release_and_collect
    steelyard_sdk.Policy.Engine.State.release_reservation steelyard_sdk.Policy.Engine.State.remember
    steelyard_sdk.Policy.Engine.State.retain_snapshot steelyard_sdk.Policy.Engine.State.write_audit
    steelyard_sdk.Policy.Evaluator.amount_matches steelyard_sdk.Policy.Evaluator.cart_matches
    steelyard_sdk.Policy.Evaluator.choose_denial steelyard_sdk.Policy.Evaluator.decision
    steelyard_sdk.Policy.Evaluator.type_matches steelyard_sdk.Policy.Evaluator.when_matches
    steelyard_sdk.Policy.Evaluator.without_first steelyard_sdk.Policy.Ledger.commit
    steelyard_sdk.Policy.Ledger.count_where steelyard_sdk.Policy.Ledger.insert_reserved
    steelyard_sdk.Policy.Ledger.insert_row steelyard_sdk.Policy.Ledger.is_active
    steelyard_sdk.Policy.Ledger.over_purchase steelyard_sdk.Policy.Ledger.per_day_count
    steelyard_sdk.Policy.Ledger.per_day_usd_minor steelyard_sdk.Policy.Ledger.per_purchase_usd_minor
    steelyard_sdk.Policy.Ledger.release steelyard_sdk.Policy.Ledger.sum_where
    steelyard_sdk.Policy.Ledger.update_pending steelyard_sdk.Policy.Money.digits_value
    steelyard_sdk.Policy.Money.drop_digits steelyard_sdk.Policy.Money.exponent
    steelyard_sdk.Policy.Money.frac_part steelyard_sdk.Policy.Money.from_digits
    steelyard_sdk.Policy.Money.from_major steelyard_sdk.Policy.Money.limit_usd_minor
    steelyard_sdk.Policy.Money.split_sign steelyard_sdk.Policy.Money.take_digits
    steelyard_sdk.Policy.Snapshots.gc steelyard_sdk.Policy.Snapshots.gc_loop
    steelyard_sdk.Policy.Snapshots.release steelyard_sdk.Policy.Snapshots.retain
propose_intent-replays_example =
    propose_intent-replays config hash_inputs hash_prompt world world fresh fresh request request
      engine proposed (allowed "i" "small" "p" "p" "c") refl refl refl refl

abbrev prompt : ApprovalRecord
prompt = record {
  state = waiting;
  caller_token = "t";
  intent_id = "ai";
  matched_rule = "ask";
  policy_hash = "p";
  authorization_hash = "p";
  auth_inputs = record {
    policy_hash = "p";
    rule_name = "ask";
    rail = virtual_card;
    amount_minor = pos 500;
    currency = "USD";
    expires_at = 61000;
    approval_prompt_hash = "n";
    facts = facts;
  };
  reservation_id = some "r";
  snapshot_retained = true;
  approval_prompt_id = "ap";
  nonce = "n";
  expires_at = 5000;
  credential = none;
  reason_code = none;
}

abbrev asked : Engine
asked = record engine {
  table = new_row "r" "ask" "ai" (pos 500) none 900 900 ∷ [];
  prompts = ("ap", prompt) ∷ [];
}

abbrev answer : CallbackRequest
answer = record {
  approval_prompt_id = "ap";
  nonce = "n";
  decision = some approve;
  policy_hash = none;
}

abbrev answered : Engine
answered = (handle_approval_callback config hash_inputs hash_prompt world "c" answer asked).1

handle_approval_callback-Issued_example :
    (◌≡◌ {A = String} "c" "c")
    × Checked config hash_inputs hash_prompt 1000 answer prompt asked
    × Issued config hash_inputs hash_prompt world "c" prompt asked answered
unfolding handle_approval_callback lookup str_eq steelyard_sdk.Policy.Engine.State.◌>>=◌
    steelyard_sdk.Policy.Engine.Callback.callback_begin
    steelyard_sdk.Policy.Engine.Callback.check_record
    steelyard_sdk.Policy.Engine.Callback.check_policy steelyard_sdk.Policy.Snapshots.get_current
    steelyard_sdk.Policy.Engine.Callback.decide_prompt
    steelyard_sdk.Policy.Engine.Callback.callback_finish
    steelyard_sdk.Policy.Engine.Propose.mint_credential
    steelyard_sdk.Policy.Engine.Callback.finish_current
    steelyard_sdk.Policy.Engine.Callback.finish_record
    steelyard_sdk.Policy.Engine.Callback.commit_held
    steelyard_sdk.Policy.Engine.State.commit_reservation steelyard_sdk.Policy.Ledger.commit
    steelyard_sdk.Policy.Engine.Callback.update_approval
    steelyard_sdk.Policy.Engine.Callback.audit_record steelyard_sdk.Base.Maps.erase insert
    steelyard_sdk.Policy.Engine.Callback.close_record
    steelyard_sdk.Policy.Engine.Callback.deny_prompt
    steelyard_sdk.Policy.Engine.Callback.expire_prompt
    steelyard_sdk.Policy.Engine.Callback.mark_stale
    steelyard_sdk.Policy.Engine.State.release_and_collect
    steelyard_sdk.Policy.Engine.State.write_audit steelyard_sdk.Policy.Ledger.release
    steelyard_sdk.Policy.Ledger.update_pending steelyard_sdk.Policy.Snapshots.gc
    steelyard_sdk.Policy.Snapshots.gc_loop steelyard_sdk.Policy.Snapshots.release
handle_approval_callback-Issued_example =
    handle_approval_callback-Issued config hash_inputs hash_prompt world "c" "c" answer prompt asked
      answered refl refl refl

handle_approval_callback-once_example :
    handle_approval_callback config hash_inputs hash_prompt world "c2"
      (record answer { decision = some deny; policy_hash = some "other" })
      answered
    ≡ (ok (rejected 409 replayed_nonce), answered)
unfolding handle_approval_callback lookup str_eq steelyard_sdk.Policy.Engine.State.◌>>=◌
    steelyard_sdk.Policy.Engine.Callback.callback_begin
    steelyard_sdk.Policy.Engine.Callback.check_record
    steelyard_sdk.Policy.Engine.Callback.check_policy steelyard_sdk.Policy.Snapshots.get_current
    steelyard_sdk.Policy.Engine.Callback.decide_prompt
    steelyard_sdk.Policy.Engine.Callback.callback_finish
    steelyard_sdk.Policy.Engine.Propose.mint_credential
    steelyard_sdk.Policy.Engine.Callback.finish_current
    steelyard_sdk.Policy.Engine.Callback.finish_record
    steelyard_sdk.Policy.Engine.Callback.commit_held
    steelyard_sdk.Policy.Engine.State.commit_reservation steelyard_sdk.Policy.Ledger.commit
    steelyard_sdk.Policy.Engine.Callback.update_approval
    steelyard_sdk.Policy.Engine.Callback.audit_record steelyard_sdk.Base.Maps.erase insert
    steelyard_sdk.Policy.Engine.Callback.close_record
    steelyard_sdk.Policy.Engine.Callback.deny_prompt
    steelyard_sdk.Policy.Engine.Callback.expire_prompt
    steelyard_sdk.Policy.Engine.Callback.mark_stale
    steelyard_sdk.Policy.Engine.State.release_and_collect
    steelyard_sdk.Policy.Engine.State.write_audit steelyard_sdk.Policy.Ledger.release
    steelyard_sdk.Policy.Ledger.update_pending steelyard_sdk.Policy.Snapshots.gc
    steelyard_sdk.Policy.Snapshots.gc_loop steelyard_sdk.Policy.Snapshots.release
handle_approval_callback-once_example =
    handle_approval_callback-once config hash_inputs hash_prompt world world "c" "c" "c2" answer
      (record answer { decision = some deny; policy_hash = some "other" }) prompt asked answered
      deny refl refl refl refl refl refl

propose_intent-Decided_example :
    Decided config hash_inputs hash_prompt world fresh request
      (allowed "i" "small" "p" "p" "c")
      engine
      proposed
unfolding propose_intent steelyard_sdk.Policy.Engine.State.◌>>=◌
    steelyard_sdk.Policy.Engine.State.authenticate str_eq
    steelyard_sdk.Policy.Engine.Propose.cached_or lookup
    steelyard_sdk.Policy.Engine.Propose.propose_new steelyard_sdk.Policy.Snapshots.get_current
    steelyard_sdk.Policy.Engine.Propose.follow_decision steelyard_sdk.Policy.Evaluator.evaluate
    steelyard_sdk.Policy.Evaluator.choose steelyard_sdk.Policy.Evaluator.predicate_matches
    steelyard_sdk.Policy.Evaluator.choose_winner steelyard_sdk.Policy.Engine.Propose.on_rail
    steelyard_sdk.Policy.Engine.Propose.allow_intent steelyard_sdk.Policy.Engine.Propose.reserve
    steelyard_sdk.Policy.Ledger.reserve_after_limit_check steelyard_sdk.Policy.Ledger.over_usd
    steelyard_sdk.Base.Int.◌+ℤ◌ steelyard_sdk.Base.Maps.erase insert
    steelyard_sdk.Policy.Budget.prune steelyard_sdk.Policy.Budget.try_consume
    steelyard_sdk.Policy.Engine.Propose.consume_budget
    steelyard_sdk.Policy.Engine.Propose.create_approval
    steelyard_sdk.Policy.Engine.Propose.deny_budget steelyard_sdk.Policy.Engine.Propose.deny_by_rule
    steelyard_sdk.Policy.Engine.Propose.deny_limit steelyard_sdk.Policy.Engine.Propose.idem_key
    steelyard_sdk.Policy.Engine.Propose.issue steelyard_sdk.Policy.Engine.Propose.mint_credential
    steelyard_sdk.Policy.Engine.Propose.open_approval
    steelyard_sdk.Policy.Engine.Propose.parse_duration_ms
    steelyard_sdk.Policy.Engine.Propose.prepare_authorization
    steelyard_sdk.Policy.Engine.Propose.record_prompt
    steelyard_sdk.Policy.Engine.Propose.send_prompt steelyard_sdk.Policy.Engine.Propose.undo
    steelyard_sdk.Policy.Engine.Propose.undo_prompt
    steelyard_sdk.Policy.Engine.State.commit_reservation
    steelyard_sdk.Policy.Engine.State.release_and_collect
    steelyard_sdk.Policy.Engine.State.release_reservation steelyard_sdk.Policy.Engine.State.remember
    steelyard_sdk.Policy.Engine.State.retain_snapshot steelyard_sdk.Policy.Engine.State.write_audit
    steelyard_sdk.Policy.Evaluator.amount_matches steelyard_sdk.Policy.Evaluator.cart_matches
    steelyard_sdk.Policy.Evaluator.choose_denial steelyard_sdk.Policy.Evaluator.decision
    steelyard_sdk.Policy.Evaluator.type_matches steelyard_sdk.Policy.Evaluator.when_matches
    steelyard_sdk.Policy.Evaluator.without_first steelyard_sdk.Policy.Ledger.commit
    steelyard_sdk.Policy.Ledger.count_where steelyard_sdk.Policy.Ledger.insert_reserved
    steelyard_sdk.Policy.Ledger.insert_row steelyard_sdk.Policy.Ledger.is_active
    steelyard_sdk.Policy.Ledger.over_purchase steelyard_sdk.Policy.Ledger.per_day_count
    steelyard_sdk.Policy.Ledger.per_day_usd_minor steelyard_sdk.Policy.Ledger.per_purchase_usd_minor
    steelyard_sdk.Policy.Ledger.release steelyard_sdk.Policy.Ledger.sum_where
    steelyard_sdk.Policy.Ledger.update_pending steelyard_sdk.Policy.Money.digits_value
    steelyard_sdk.Policy.Money.drop_digits steelyard_sdk.Policy.Money.exponent
    steelyard_sdk.Policy.Money.frac_part steelyard_sdk.Policy.Money.from_digits
    steelyard_sdk.Policy.Money.from_major steelyard_sdk.Policy.Money.limit_usd_minor
    steelyard_sdk.Policy.Money.split_sign steelyard_sdk.Policy.Money.take_digits
    steelyard_sdk.Policy.Snapshots.gc steelyard_sdk.Policy.Snapshots.gc_loop
    steelyard_sdk.Policy.Snapshots.release steelyard_sdk.Policy.Snapshots.retain
propose_intent-Decided_example =
    propose_intent-Decided config hash_inputs hash_prompt world fresh request
      (allowed "i" "small" "p" "p" "c") engine proposed refl refl refl
