-- ===== src/Contract/Statuses.antt =====
-- packages/contracts/src/decision/v1: tests of the kinds of decision, event and task state, and of options.
use choice_mind.Prelude.{Bool, true, false, Option, none, some}
use choice_mind.Contract.Types.{DecisionStatus, buy_now, buy_if_price, need_more_info, no_match}

abbrev pub is_need_more_info : DecisionStatus → Bool
is_need_more_info need_more_info = true
is_need_more_info _ = false

abbrev pub is_buy_if_price : DecisionStatus → Bool
is_buy_if_price buy_if_price = true
is_buy_if_price _ = false

abbrev pub is_buy_now : DecisionStatus → Bool
is_buy_now buy_now = true
is_buy_now _ = false

abbrev pub is_no_match : DecisionStatus → Bool
is_no_match no_match = true
is_no_match _ = false

abbrev pub is_none {ℓ} : {A : Type ℓ} → Option A → Bool
is_none none = true
is_none (some a) = false
