-- ===== src/Tests/Streams.antt =====
-- A stream that is opened in both processes.
use mathlib.Core.List.{Memᴰ}
use nspluginwrapper.Prelude.{false, [], ◌∷◌, none, some, ◌≡◌, refl}
use nspluginwrapper.Rpc.Error.{ok}
use nspluginwrapper.Streams.{Side, null, create_stream, link_stream, send_stream, recv_stream}
use nspluginwrapper.Streams.Open.{Stream, Calls, none_open, opens, streams_correspond}
use nspluginwrapper.Tests.Glib.{Pairs, glib, find-empty}

abbrev new_side : Side Pairs
new_side = record {
  ids = record { table = []; last_id = 0 };
  instances = λ d. none;
  private = λ s. null;
}

abbrev wrapper_side : Side Pairs
wrapper_side = (create_stream glib 100 500 false new_side).1

abbrev viewer_side : Side Pairs
viewer_side = link_stream glib (create_stream glib 100 500 false new_side).0 200 600 false new_side

abbrev stream : Stream
stream = record { id = (create_stream glib 100 500 false new_side).0; wrapper = 500; viewer = 600 }

stream_opened : Calls glib wrapper_side viewer_side (stream ∷ [])
stream_opened =
    opens new_side new_side [] 100 500 200 600 false (none_open new_side new_side)
      (record {
        no_id = find-empty (create_stream glib 100 500 false new_side).0;
        no_instance = refl;
        no_private = λ a e. cc;
      })
      (record {
        no_id = find-empty (create_stream glib 100 500 false new_side).0;
        no_instance = refl;
        no_private = λ a e. cc;
      })

streams_correspond_example :
    (send_stream glib (some 500) wrapper_side ≡ ok stream.id)
    × (recv_stream glib stream.id viewer_side ≡ ok (some 600))
    × (send_stream glib (some 600) viewer_side ≡ ok stream.id)
    × (recv_stream glib stream.id wrapper_side ≡ ok (some 500))
streams_correspond_example =
    streams_correspond glib wrapper_side viewer_side (stream ∷ []) stream stream_opened
      (Memᴰ.head refl)
