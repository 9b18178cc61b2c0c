-- ===== src/Contract/Result/RunEvents.antt =====
-- packages/contracts/src/decision/v1/invariants.ts: the checks of the run events.
pub mod Numbering
pub mod Stages
use choice_mind.Prelude.{
  ℕ, suc, String, ◌+◌, ◌-◌, Bool, true, false, not, ◌&&◌, ◌||◌, List, [], ◌∷◌, ◌++◌, Option, none,
  some, if◌then◌else◌, ◌==◌, eqb, leb, length, get_last?, flat_map_from,
}
use choice_mind.Contract.Types.{
  Timestamp, RunEvent, TaskState, created, understanding, planning, researching, verifying,
  gap_research, comparing, critiquing, generating, paused_user, paused_permission,
  paused_source_login, paused_limit, completed, failed, cancelled, EventType, task_state_changed,
  runtime_succeeded, runtime_failed, PathPart, name, index, ContractIssue,
}
use choice_mind.Contract.Issues.{issue_if, collect_unique_ids}

abbrev pub event_path : ℕ → String → List PathPart
event_path i field = name "runEvents" ∷ index i ∷ name field ∷ []

abbrev pub status_path : String → List PathPart
status_path field = name "taskStatus" ∷ name field ∷ []

-- `authoritativeRunStates.indexOf(state)`, none for -1.
unfoldable pub authoritative_index : TaskState → Option ℕ
authoritative_index created = some 0
authoritative_index understanding = some 1
authoritative_index planning = some 2
authoritative_index researching = some 3
authoritative_index verifying = some 4
authoritative_index gap_research = some 5
authoritative_index comparing = some 6
authoritative_index critiquing = some 7
authoritative_index generating = some 8
authoritative_index completed = some 9
authoritative_index paused_user = none
authoritative_index paused_permission = none
authoritative_index paused_source_login = none
authoritative_index paused_limit = none
authoritative_index failed = none
authoritative_index cancelled = none

abbrev pub is_state_completed : Option RunEvent → Bool
is_state_completed none = false
is_state_completed (some event) = elim event.task_state [ completed ↦ true | _ ↦ false ]

abbrev pub is_state_failed : Option RunEvent → Bool
is_state_failed none = false
is_state_failed (some event) = elim event.task_state [ failed ↦ true | _ ↦ false ]

abbrev pub is_state_created : List RunEvent → Bool
is_state_created [] = false
is_state_created (event ∷ events) = elim event.task_state [ created ↦ true | _ ↦ false ]

abbrev pub is_succeeded : Option RunEvent → Bool
is_succeeded none = false
is_succeeded (some event) = elim event.event_type [ runtime_succeeded ↦ true | _ ↦ false ]

abbrev pub is_failed : Option RunEvent → Bool
is_failed none = false
is_failed (some event) = elim event.event_type [ runtime_failed ↦ true | _ ↦ false ]

abbrev pub is_state_change : RunEvent → Bool
is_state_change event = elim event.event_type [ task_state_changed ↦ true | _ ↦ false ]

-- `Math.max(length - 1, 0)`
abbrev pub last_index : List RunEvent → ℕ
last_index events = length events - 1

abbrev has_sequence : Option RunEvent → ℕ → Bool
has_sequence none n = false
has_sequence (some event) n = eqb n event.sequence

-- Two times are compared as texts.
abbrev has_time : Option RunEvent → Timestamp → Bool
has_time none t = false
has_time (some event) t = t.text == event.occurred_at.text

module _ (decision_task_id agent_run_id : String) where
  ownership_issues : ℕ → RunEvent → List ContractIssue
  ownership_issues i event =
      issue_if (not (eqb event.sequence (i + 1))) (event_path i "sequence")
        "RunEvent 序号必须从 1 开始严格递增"
      ++ (issue_if (not (event.decision_task_id == decision_task_id))
            (event_path i "decisionTaskId") "RunEvent 必须属于结果中的 Decision Task"
          ++ issue_if (not (event.agent_run_id == agent_run_id)) (event_path i "agentRunId")
              "RunEvent 必须属于 Task Status 中的 Agent Run")

  -- The checks of every result that has run events.
  unfoldable pub run_event_issues : ℕ → Timestamp → List RunEvent → List ContractIssue
  unfolding ownership_issues
  run_event_issues latest_event_sequence updated_at events =
      collect_unique_ids (λ e. e.event_id) (name "runEvents" ∷ []) "eventId" "RunEvent" events
      ++ (flat_map_from ownership_issues 0 events
          ++ (issue_if (not (has_sequence (get_last? events) latest_event_sequence))
                (status_path "latestEventSequence") "Task Status 必须指向最后一个 RunEvent"
              ++ issue_if (not (has_time (get_last? events) updated_at)) (status_path "updatedAt")
                  "Task Status 更新时间必须等于最后一个 RunEvent 时间"))

-- `currentStateIndex === -1 || currentStateIndex <= previousStateIndex`, with none for -1.
unfoldable pub goes_back : Option ℕ → Option ℕ → Bool
goes_back previous none = true
goes_back none (some current) = false
goes_back (some previous) (some current) = leb current previous

-- The loop over the states, given the index before.
stage_issues : Option ℕ → ℕ → List RunEvent → List ContractIssue
unfolding goes_back
stage_issues previous i [] = []
stage_issues previous i (event ∷ events) =
    issue_if (goes_back previous (authoritative_index event.task_state)) (event_path i "taskState")
      "成功结果的 RunEvent 必须按权威阶段顺序单调向前"
    ++ stage_issues (authoritative_index event.task_state) (suc i) events

-- Every event but the last is a change of state.
middle_issues : ℕ → List RunEvent → List ContractIssue
middle_issues i [] = []
middle_issues i (event ∷ []) = []
middle_issues i (event ∷ next ∷ events) =
    issue_if (not (is_state_change event)) (event_path i "eventType") "成功结果的中间 RunEvent 必须是任务状态变化"
    ++ middle_issues (suc i) (next ∷ events)

-- The checks of the events of a successful result.
unfoldable pub success_event_issues : List RunEvent → List ContractIssue
unfolding stage_issues middle_issues
success_event_issues events =
    issue_if (not (is_state_completed (get_last? events)))
      (event_path (last_index events) "taskState") "成功结果的最后事件必须是 COMPLETED"
    ++ (issue_if (not (is_succeeded (get_last? events)))
          (event_path (last_index events) "eventType") "成功结果的最后事件必须是 RUNTIME_SUCCEEDED"
        ++ (issue_if (not (is_state_created events)) (event_path 0 "taskState")
              "成功结果的 RunEvent 必须从 CREATED 开始"
            ++ (stage_issues none 0 events ++ middle_issues 0 events)))

-- The checks of the last event of a failed result.
unfoldable pub failure_event_issues : List RunEvent → List ContractIssue
failure_event_issues events =
    issue_if (not (is_state_failed (get_last? events))) (event_path (last_index events) "taskState")
      "失败结果的最后事件必须是 FAILED"
    ++ issue_if (not (is_failed (get_last? events))) (event_path (last_index events) "eventType")
        "失败结果的最后事件必须是 RUNTIME_FAILED"
