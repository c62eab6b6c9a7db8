-- ===== src/Tests/Npapi.antt =====
-- The marshalers of src/npw-rpc.c at concrete inputs.
use nspluginwrapper.Prelude.{ℕ, pos, negsuc, ◌≡◌, refl, arith, List, [], ◌∷◌, some}
use nspluginwrapper.Rpc.Carries.{Carries}
use nspluginwrapper.Rpc.Socket.Events.{RecvEvent, arrived}
use nspluginwrapper.Rpc.Socket.Recv.{stream}
use nspluginwrapper.Npapi.Rect.{NpRect}
use nspluginwrapper.Npapi.Event.Union.{
  NpEvent, motion_notify, send_event, recv_event, send_event-Carries,
}
use nspluginwrapper.Npapi.Window.{NpWindow, send_window, recv_window}
use nspluginwrapper.Npapi.Window.RoundTrip.{IsNpWindow, window_received, send_window-Carries}
use nspluginwrapper.Npapi.Buffers.{send_byte_range, recv_byte_range, recv_ranges}
use nspluginwrapper.Npapi.Buffers.Ranges.{send_byte_range-Carries, recv_ranges_fuel}
use nspluginwrapper.Tests.Rpc.{plenty}

abbrev area : NpRect
area = record { top = 1; left = 2; bottom = 300; right = 65535 }

abbrev motion : NpEvent
motion = motion_notify (record {
  any = record { serial = 5; send_event = pos 0; window = 7 };
  root = 1;
  subwindow = 2;
  time = 3;
  x = negsuc 0;
  y = pos 4;
  x_root = pos 10;
  y_root = pos 11;
  state = 0;
  is_hint = 1;
  same_screen = pos 1;
})

-- An X library's ids of visuals.
abbrev visual_id : ℕ → ℕ
visual_id v = 33

abbrev window : NpWindow
window = record {
  window = 77;
  x = negsuc 3;
  y = pos 4;
  width = 640;
  height = 480;
  clip_rect = area;
  type = pos 1;
  ws_info = some (record { type = pos 1; display = 5; visual = 9; colormap = 32; depth = 24 });
}

send_event_example : Carries (send_event motion) recv_event motion
send_event_example = send_event-Carries motion (record {
  any = record { serial = omega arith; send_event = omega arith; window = omega arith };
  root = omega arith;
  subwindow = omega arith;
  time = omega arith;
  x = omega arith;
  y = omega arith;
  x_root = omega arith;
  y_root = omega arith;
  state = omega arith;
  is_hint = omega arith;
  same_screen = omega arith;
})

abbrev window-IsNpWindow : IsNpWindow visual_id plenty window
window-IsNpWindow = record {
  window = omega arith;
  x = omega arith;
  y = omega arith;
  width = omega arith;
  height = omega arith;
  clip_rect = record {
    top = omega arith;
    left = omega arith;
    bottom = omega arith;
    right = omega arith;
  };
  type = omega arith;
  ws_info = record {
    type = omega arith;
    visual = omega arith;
    colormap = omega arith;
    depth = omega arith;
  };
}

send_window_example :
    Carries
      (send_window visual_id (some window))
      (recv_window plenty)
      (some (window_received visual_id plenty window))
send_window_example = send_window-Carries visual_id plenty window window-IsNpWindow refl refl

send_byte_range_example :
    Carries
      (send_byte_range (record { offset = negsuc 99; length = 100 } ∷ []))
      (recv_byte_range plenty)
      (record { offset = negsuc 99; length = 100 } ∷ [])
send_byte_range_example =
    send_byte_range-Carries plenty (record { offset = negsuc 99; length = 100 } ∷ [])
      (record { offset = omega arith; length = omega arith }, tt) refl

abbrev no_ranges : List RecvEvent
no_ranges = arrived 0 (0 ∷ 0 ∷ 0 ∷ []) ∷ []

recv_ranges_fuel_example : recv_ranges plenty 5 no_ranges ≡ recv_ranges plenty 9 no_ranges
unfolding stream
recv_ranges_fuel_example = recv_ranges_fuel plenty 5 9 no_ranges (omega arith) (omega arith)
