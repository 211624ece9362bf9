-- ===== src/Lottery/EventLog.antt =====
-- The event log of the lottery class: a bounded array that is filled once.
use linux_kernel_programming.Prelude.{
  ℕ, Option, ◌≤◌, ◌≡◌, refl, List, [], ◌∷◌, ◌++◌, arith, ltb, if◌then◌else◌, length, length-append,
  append-nil, Bool-cases, inl, inr, ltb→lt, sym,
}

-- The arguments that each `snprintf` formats. The formatted text is not modelled.
pub data Message : Type 0 where
  init_log : ℕ → ℕ → Message
  winner : (pid lucky ticket total time : ℕ) → Message
  picked : (prev prev_ticket next next_ticket lucky : ℕ) → Message
  enqueued : (pid ticket total time : ℕ) → Message
  dequeued : (pid ticket total time : ℕ) → Message
  finished : (pid ticket : ℕ) → Message
  switched : (prev : ℕ) (prev_ticket : Option ℕ) (next : ℕ) (next_ticket : Option ℕ) → Message

pub data Action : Type 0 where
  lottery_msg lottery_win lottery_enqueue lottery_dequeue lottery_task_done lottery_context_switch :
      Action

pub record Event : Type 0 where
  pub action : Action
  pub timestamp : ℕ
  pub msg : Message

-- `lottery_event[0 .. lines)`, oldest first. `lines` is the length of the list.
pub record EventLog : Type 0 where
  pub lottery_event : List Event
  pub cursor : ℕ

abbrev pub lines : EventLog → ℕ
lines l = length l.lottery_event

-- A full log drops the event (the code prints an alert).
unfoldable pub register_lottery_event : ℕ → ℕ → Message → Action → EventLog → EventLog
register_lottery_event max_lines time message event l =
    if ltb (lines l) max_lines
    then record l {
      lottery_event =
          l.lottery_event ++ record { action = event; timestamp = time; msg = message } ∷ [];
    }
    else l

-- The log is emptied, and its first event says so.
unfoldable pub init_lottery_event_log : ℕ → ℕ → EventLog → EventLog
unfolding register_lottery_event
init_lottery_event_log max_lines time l =
    register_lottery_event max_lines time (init_log 0 0) lottery_msg
      (record l { lottery_event = []; cursor = 0 })

-- A log within its array stays within it, and no recorded event is lost or changed: the new log is
-- the old one with nothing or one event behind it.
pub register_lottery_event_bounded :
    (max_lines time : ℕ) (message : Message) (event : Action) (l : EventLog)
    → lines l ≤ max_lines
    → (lines (register_lottery_event max_lines time message event l) ≤ max_lines)
      × ((new : List Event) × ((register_lottery_event max_lines time message event l).lottery_event
            ≡ l.lottery_event ++ new)
          × (length new ≤ 1))
unfolding register_lottery_event
register_lottery_event_bounded max_lines time message event l h =
    elim (Bool-cases (ltb (lines l) max_lines)) [
      | inl e ↦ rw e (
        omega (arith, length-append l.lottery_event (entry ∷ []), ltb→lt (lines l) max_lines e),
        (entry ∷ [], refl, omega arith),
      )
      | inr e ↦ rw e (h, ([], sym (append-nil l.lottery_event), omega arith))
    ]
  where
    entry : Event
    entry = record { action = event; timestamp = time; msg = message }
