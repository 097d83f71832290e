-- ===== src/Tui/Session/Invariant.antt =====
-- Every input keeps the invariant of a session.
use handfast.Base.{
  ℕ, ◌-◌, ◌≤◌, Bool, true, false, Option, List, [], ◌∷◌, ◌++◌, length, ◌≡◌, arith, if_cases, ◌==◌,
  not, if◌then◌else◌,
}
use handfast.Json.{is_some}
use handfast.Ipc.Proto.{ServerEvent}
use handfast.Tui.State.{
  Tab, State, Outcome, Action, apply_event, apply_outcome, clamp_at, clamp_cursors, on_event,
  on_outcome, notification_cap, log_cap, cap_front, new, log_line,
}
use handfast.Tui.Focus.{
  step, focused_len, on_cursor, move_cursor, jump_cursor, next_tab, previous_tab,
}
use handfast.Tui.Draft.{KeyCode, KeyEvent, open_reply, handle_reply_key}
use handfast.Tui.Keys.{handle_key, set_tab, toggle_detail, on_esc, on_char, on_code}
use handfast.Tui.Session.{Input, event, outcome, key, react, run, IsValid}

new-IsValid : IsValid new
unfolding new
new-IsValid = ground arith

pub length-cap_front {ℓ} : {A : Type ℓ} (cap : ℕ) (xs : List A) → length (cap_front cap xs) ≤ cap
unfolding cap_front
length-cap_front cap [] = omega arith
length-cap_front cap (x ∷ xs) = ground (arith, length-cap_front cap xs)

clamp_at-le : (c len : ℕ) → clamp_at c len ≤ len - 1
unfolding clamp_at
clamp_at-le c len = ground arith

-- The parts of the invariant that the clamping does not restore.
record IsSound (s : State) : Type 0 where
  notifications_bounded : length s.notifications ≤ notification_cap
  logs_bounded : length s.logs ≤ log_cap
  detail : s.detail_open ≡ is_some s.detail_device
  plugins_shown : s.detail_open ≡ false → s.plugins ≡ []
  reply : s.reply_open ≡ is_some s.reply_target
  draft : s.reply_open ≡ false → s.reply_draft ≡ []

on_event-IsSound : (e : ServerEvent) (s : State) → IsValid s → IsSound (on_event e s)
unfolding on_event
on_event-IsSound (ServerEvent.hello version app pid) s v = ground arith
on_event-IsSound (ServerEvent.device_lost id) s v = ground arith
on_event-IsSound (ServerEvent.notification_received id app title body) s v = ground (
  arith,
  length-cap_front notification_cap
      (s.notifications ++ record { id = id; app = app; title = title; body = body } ∷ []),
)
on_event-IsSound (ServerEvent.log_record level msg) s v =
    ground (arith, length-cap_front log_cap (s.logs ++ log_line level msg ∷ []))
on_event-IsSound _ s v = ground arith

clamp_cursors-IsValid : (s : State) → IsSound s → IsValid (clamp_cursors s)
unfolding clamp_cursors
clamp_cursors-IsValid s v = ground (
  arith,
  clamp_at-le s.device_cursor (length s.devices),
  clamp_at-le s.plugin_cursor (length s.plugins),
  clamp_at-le s.transfer_cursor (length s.transfers),
  clamp_at-le s.notification_cursor (length s.notifications),
)

on_outcome-IsSound : (o : Outcome) (s : State) → IsValid s → IsSound (on_outcome o s)
unfolding on_outcome
on_outcome-IsSound (Outcome.notifications rows) s v =
    ground (arith, length-cap_front notification_cap rows)
on_outcome-IsSound _ s v = ground arith

-- No part of the invariant reads the mark that asks for a redraw.
marked : (s : State) → IsValid s → IsValid (record s { dirty = true })
marked s v = ground arith

apply_event-IsValid : (e : ServerEvent) (s : State) → IsValid s → IsValid (apply_event e s)
unfolding apply_event
apply_event-IsValid e s v =
    marked (clamp_cursors (on_event e s))
      (clamp_cursors-IsValid (on_event e s) (on_event-IsSound e s v))

apply_outcome-IsValid : (o : Outcome) (s : State) → IsValid s → IsValid (apply_outcome o s)
unfolding apply_outcome
apply_outcome-IsValid o s v =
    marked (clamp_cursors (on_outcome o s))
      (clamp_cursors-IsValid (on_outcome o s) (on_outcome-IsSound o s v))

step-le : (c : ℕ) (downward : Bool) (len : ℕ) → c ≤ len - 1 → step c downward len ≤ len - 1
unfolding step
step-le c true len h = ground arith
step-le c false len h = ground arith

-- A change of the focused cursor that keeps it on a row.
on_cursor-IsValid :
    (f : ℕ → ℕ) (s : State)
    → ((c : ℕ) → c ≤ focused_len s - 1 → f c ≤ focused_len s - 1)
    → IsValid s
    → IsValid (on_cursor f s)
unfolding on_cursor focused_len
on_cursor-IsValid f s h v =
    ground
      (arith, h s.device_cursor, h s.plugin_cursor, h s.transfer_cursor, h s.notification_cursor)

move_cursor-IsValid : (downward : Bool) (s : State) → IsValid s → IsValid (move_cursor downward s)
unfolding move_cursor
move_cursor-IsValid downward s v =
    if_cases IsValid (focused_len s == 0) _ _ (λ _. v)
      (λ _. on_cursor-IsValid _ s (λ c. step-le c downward (focused_len s)) v)

jump_cursor-IsValid : (last : Bool) (s : State) → IsValid s → IsValid (jump_cursor last s)
unfolding jump_cursor
jump_cursor-IsValid last s v =
    if_cases IsValid (focused_len s == 0) _ _ (λ _. v)
      (λ _.
        on_cursor-IsValid (λ _. if last then focused_len s - 1 else 0) s (λ c h. ground arith) v)

set_tab-IsValid : (t : Tab) (s : State) → IsValid s → IsValid (set_tab t s)
unfolding set_tab
set_tab-IsValid t s v = marked (clamp_cursors (record s { tab = t })) (
    clamp_cursors-IsValid (record s { tab = t })
      (record {
        notifications_bounded = v.notifications_bounded;
        logs_bounded = v.logs_bounded;
        detail = v.detail;
        plugins_shown = v.plugins_shown;
        reply = v.reply;
        draft = v.draft;
      }))

toggle_detail-IsValid : (s : State) → IsValid s → IsValid (toggle_detail s).0
unfolding toggle_detail
toggle_detail-IsValid s v = ground arith

open_reply-IsValid : (s : State) → IsValid s → IsValid (open_reply s).0
unfolding open_reply
open_reply-IsValid s v = ground arith

on_esc-IsValid : (s : State) → IsValid s → IsValid (on_esc s)
unfolding on_esc
on_esc-IsValid s v = ground arith

handle_reply_key-IsValid :
    (k : KeyCode) (s : State) → s.reply_open ≡ true → IsValid s → IsValid (handle_reply_key k s).0
unfolding handle_reply_key
handle_reply_key-IsValid KeyCode.enter s o v = ground arith
handle_reply_key-IsValid _ s o v = ground arith

overlaid :
    (b : Bool) (s : State) → IsValid s → IsValid (record s { help_overlay = b; dirty = true })
overlaid b s v = ground arith

abbrev P : State × Option Action → Type 0
P r = IsValid r.0

on_char-IsValid : (c : ℕ) (s : State) → IsValid s → IsValid (on_char c s).0
unfolding on_char
on_char-IsValid c s v =
    if_cases P (c == b'q') _ _ (λ _. v)
      (λ _.
        if_cases P (c == b'?') _ _ (λ _. overlaid (not s.help_overlay) s v)
          (λ _.
            if_cases P (c == b'j') _ _ (λ _. move_cursor-IsValid true s v)
              (λ _.
                if_cases P (c == b'k') _ _ (λ _. move_cursor-IsValid false s v)
                  (λ _.
                    if_cases P (c == b'g') _ _ (λ _. jump_cursor-IsValid false s v)
                      (λ _.
                        if_cases P (c == b'G') _ _ (λ _. jump_cursor-IsValid true s v)
                          (λ _.
                            if_cases P (c == b'p') _ _ (λ _. v)
                              (λ _.
                                if_cases P (c == b'u') _ _ (λ _. v)
                                  (λ _.
                                    if_cases P (c == b'r') _ _ (λ _. open_reply-IsValid s v)
                                      (λ _. if_cases P (c == b' ') _ _ (λ _. v) (λ _. v))))))))))

on_code-IsValid : (k : KeyCode) (s : State) → IsValid s → IsValid (on_code k s).0
unfolding on_code
on_code-IsValid (KeyCode.char c) s v = on_char-IsValid c s v
on_code-IsValid KeyCode.tab s v = set_tab-IsValid (next_tab s.tab) s v
on_code-IsValid KeyCode.back_tab s v = set_tab-IsValid (previous_tab s.tab) s v
on_code-IsValid KeyCode.down s v = move_cursor-IsValid true s v
on_code-IsValid KeyCode.up s v = move_cursor-IsValid false s v
on_code-IsValid KeyCode.home s v = jump_cursor-IsValid false s v
on_code-IsValid KeyCode.end s v = jump_cursor-IsValid true s v
on_code-IsValid KeyCode.enter s v = toggle_detail-IsValid s v
on_code-IsValid KeyCode.esc s v = on_esc-IsValid s v
on_code-IsValid KeyCode.backspace s v = v
on_code-IsValid KeyCode.other s v = v

handle_key-IsValid : (k : KeyEvent) (s : State) → IsValid s → IsValid (handle_key k s).0
unfolding handle_key
handle_key-IsValid k s v =
    if_cases P (not k.press) _ _ (λ _. v)
      (λ _.
        if_cases P k.control _ _ (λ _. v)
          (λ _.
            if_cases P s.reply_open _ _ (λ o. handle_reply_key-IsValid k.code s o v)
              (λ _. on_code-IsValid k.code s v)))

react-IsValid : (i : Input) (s : State) → IsValid s → IsValid (react i s).0
unfolding react
react-IsValid (event e) s v = apply_event-IsValid e s v
react-IsValid (outcome o) s v = apply_outcome-IsValid o s v
react-IsValid (key k) s v = handle_key-IsValid k s v

run-IsValid : (is : List Input) (s : State) → IsValid s → IsValid (run is s).0
unfolding run
run-IsValid [] s v = v
run-IsValid (i ∷ is) s v = run-IsValid is (react i s).0 (react-IsValid i s v)

-- Whatever the daemon sends and the user types, in any order from the start of the interface, each
-- cursor stands on a row of its list or on 0 where the list is empty, the notifications and the log
-- stay within 200 and 1,000 entries, the panel is open exactly when it has a device, and shows
-- nothing when it is closed, and the reply is open exactly when it has a notification to answer.
pub session-IsValid : (inputs : List Input) → IsValid (run inputs new).0
session-IsValid inputs = run-IsValid inputs new new-IsValid
