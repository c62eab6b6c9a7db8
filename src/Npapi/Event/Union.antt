-- ===== src/Npapi/Event/Union.antt =====
-- do_send_NPEvent and do_recv_NPEvent of src/npw-rpc.c.
use nspluginwrapper.Prelude.{ℤ, pos, ◌==ℤ◌, arith, Bool, true, false, ◌≡◌, refl, if◌then◌else◌}
use nspluginwrapper.Rpc.Error.{generic, message_argument_invalid, err}
use nspluginwrapper.Rpc.Action.{return, fail, ◌>>=◌, ◌>>◌}
use nspluginwrapper.Rpc.Words.{IsInt32}
use nspluginwrapper.Rpc.Message.{Message, Send, send_int32}
use nspluginwrapper.Rpc.Reader.{Reader, recv_int32}
use nspluginwrapper.Rpc.Carries.{Carries, Carries-bind, Carries-last, Carries-return}
use nspluginwrapper.Rpc.Carries.Scalars.{send_int32-Carries}
use nspluginwrapper.Rpc.Reader.Parses.{Parses-return}
use nspluginwrapper.Npapi.Fields.{field_rules}
use nspluginwrapper.Npapi.Event.GraphicsExpose.{
  GraphicsExpose, IsGraphicsExpose, send_graphics_expose, recv_graphics_expose,
  send_graphics_expose-Carries,
}
use nspluginwrapper.Npapi.Event.Crossing.{
  Crossing, IsCrossing, send_crossing, recv_crossing, send_crossing-Carries,
}
use nspluginwrapper.Npapi.Event.Motion.{
  Motion, IsMotion, send_motion, recv_motion, send_motion-Carries,
}
use nspluginwrapper.Npapi.Event.Button.{
  Button, IsButton, send_button, recv_button, send_button-Carries,
}
use nspluginwrapper.Npapi.Event.Key.{Key, IsKey, send_key, recv_key, send_key-Carries}

-- The member of the union `XEvent` that the type selects; `other` is any other type.
pub data NpEvent : Type 0 where
  key_press key_release : Key → NpEvent
  button_press button_release : Button → NpEvent
  motion_notify : Motion → NpEvent
  enter_notify leave_notify : Crossing → NpEvent
  focus_in focus_out : NpEvent
  graphics_expose : GraphicsExpose → NpEvent
  other : ℤ → NpEvent

-- The event types of X11's X.h.
abbrev pub event_type : NpEvent → ℤ
event_type (key_press e) = pos 2
event_type (key_release e) = pos 3
event_type (button_press e) = pos 4
event_type (button_release e) = pos 5
event_type (motion_notify e) = pos 6
event_type (enter_notify e) = pos 7
event_type (leave_notify e) = pos 8
event_type focus_in = pos 9
event_type focus_out = pos 10
event_type (graphics_expose e) = pos 13
event_type (other t) = t

pub is_valid_type : NpEvent → Bool
is_valid_type (other t) = false
is_valid_type _ = true

-- `do_send_XFocusChangeEvent` and `do_recv_XFocusChangeEvent` transfer nothing.
send_focus_change : Send
send_focus_change = return tt

recv_focus_change : Reader (Unit {0})
recv_focus_change = return tt

send_body : NpEvent → Send
unfolding send_focus_change
send_body (key_press e) = send_key e
send_body (key_release e) = send_key e
send_body (button_press e) = send_button e
send_body (button_release e) = send_button e
send_body (motion_notify e) = send_motion e
send_body (enter_notify e) = send_crossing e
send_body (leave_notify e) = send_crossing e
send_body focus_in = send_focus_change
send_body focus_out = send_focus_change
send_body (graphics_expose e) = send_graphics_expose e
send_body (other t) = fail generic

pub send_event : NpEvent → Send
unfolding is_valid_type send_body
send_event e =
    if is_valid_type e
    then (do send_int32 (event_type e); send_body e)
    else fail message_argument_invalid

-- `switch (event->type)`
recv_body : ℤ → Reader NpEvent
unfolding recv_focus_change
recv_body t =
    if t ==ℤ pos 2
    then (do e ← recv_key; return (key_press e))
    else if t ==ℤ pos 3
    then (do e ← recv_key; return (key_release e))
    else if t ==ℤ pos 4
    then (do e ← recv_button; return (button_press e))
    else if t ==ℤ pos 5
    then (do e ← recv_button; return (button_release e))
    else if t ==ℤ pos 6
    then (do e ← recv_motion; return (motion_notify e))
    else if t ==ℤ pos 7
    then (do e ← recv_crossing; return (enter_notify e))
    else if t ==ℤ pos 8
    then (do e ← recv_crossing; return (leave_notify e))
    else if t ==ℤ pos 9
    then (do recv_focus_change; return focus_in)
    else if t ==ℤ pos 10
    then (do recv_focus_change; return focus_out)
    else if t ==ℤ pos 13
    then (do e ← recv_graphics_expose; return (graphics_expose e))
    else fail generic

pub recv_event : Reader NpEvent
unfolding recv_body
recv_event = do t ← recv_int32; recv_body t

-- The fields fit their C types, and the type is one that is sent.
abbrev pub IsNpEvent : NpEvent → Type 0
IsNpEvent (key_press e) = IsKey e
IsNpEvent (key_release e) = IsKey e
IsNpEvent (button_press e) = IsButton e
IsNpEvent (button_release e) = IsButton e
IsNpEvent (motion_notify e) = IsMotion e
IsNpEvent (enter_notify e) = IsCrossing e
IsNpEvent (leave_notify e) = IsCrossing e
IsNpEvent focus_in = Unit
IsNpEvent focus_out = Unit
IsNpEvent (graphics_expose e) = IsGraphicsExpose e
IsNpEvent (other t) = ⊥

ruleset event_rules = (
  field_rules, send_key-Carries, send_button-Carries, send_motion-Carries, send_crossing-Carries,
  send_graphics_expose-Carries,
)

focus_carried : (e : NpEvent) → Carries send_focus_change (recv_focus_change >>= λ _. return e) e
unfolding send_focus_change recv_focus_change
focus_carried e = Carries-last _ _ _ (Carries-return tt) (Parses-return e)

event_type-IsInt32 : (e : NpEvent) → IsNpEvent e → IsInt32 (event_type e)
event_type-IsInt32 (other t) h = absurd h
event_type-IsInt32 _ h = omega arith

body_carried : (e : NpEvent) → IsNpEvent e → Carries (send_body e) (recv_body (event_type e)) e
unfolding send_body recv_body
body_carried focus_in h = focus_carried focus_in
body_carried focus_out h = focus_carried focus_out
body_carried (other t) h = absurd h
body_carried _ h = search event_rules

IsNpEvent-valid : (e : NpEvent) → IsNpEvent e → is_valid_type e ≡ true
unfolding is_valid_type
IsNpEvent-valid (other t) h = absurd h
IsNpEvent-valid _ h = refl

-- Every event of the ten types whose fields fit their C types, and those of 64 bits (the serial, the
-- ids of windows and the time) also 32 bits, arrives as it was sent, with all the
-- fields that its type has on the wire.
pub send_event-Carries : (e : NpEvent) → IsNpEvent e → Carries (send_event e) recv_event e
unfolding send_event recv_event
send_event-Carries e h = rw (IsNpEvent-valid e h) (
    Carries-bind _ _ _ _ (send_int32-Carries (event_type e) (event_type-IsInt32 e h))
      (body_carried e h))

-- An event of any other type is refused before anything is written.
pub send_event-other :
    (t : ℤ) (m : Message) → send_event (other t) m ≡ (err message_argument_invalid, m)
unfolding send_event is_valid_type fail
send_event-other t m = refl
