-- ===== src/Tests/Objects.antt =====
-- Scriptable objects at concrete inputs.
use nspluginwrapper.Prelude.{◌∷◌, ◌++◌, List, ℕ, [], true, false, none, some, ◌≡◌, ◌≢◌, refl, arith}
use nspluginwrapper.Rpc.Error.{ok, abort}
use nspluginwrapper.Rpc.Action.{◌>>=◌}
use nspluginwrapper.Objects.Host.{
  own, proxy, NpObject, Wire, Host, object, lookup_local, set_object, say, invalidate,
  handle_deallocate,
}
use nspluginwrapper.Objects.Exchange.{export_object, import_object, stub_wire}
use nspluginwrapper.Objects.Count.{Linked}
use nspluginwrapper.Objects.Sound.{Sound, nothing}
use nspluginwrapper.Objects.System.{
  Reachable, started, first, second, make, send, receive, start_host,
}
use nspluginwrapper.Objects.Safety.{Reachable-Sound, receives_stub, receives_new}
use nspluginwrapper.Objects.Home.{comes_home}
use nspluginwrapper.Objects.Invalid.{invalidated_ends}
use nspluginwrapper.Objects.Variant.{
  object as object_value, send_variant, recv_variant, export_variant, import_variant, in_host,
}
use nspluginwrapper.Objects.Variant.Crossing.{send_variant-IsImported}
use nspluginwrapper.Rpc.Message.{Message}
use nspluginwrapper.Rpc.Message.Emits.{written}
use nspluginwrapper.Rpc.Socket.Events.{RecvEvent, arrived}
use nspluginwrapper.Rpc.Socket.Recv.{stream}
use nspluginwrapper.Tests.Rpc.{plenty}
use nspluginwrapper.Tests.Glib.{Pairs, glib, find}

abbrev no_owner : ℕ → ℕ
no_owner a = 0

abbrev one_object : NpObject
one_object = record { kind = own; reference_count = 1 }

-- A process with an object at address 10, before and after it has sent it.
abbrev maker : Host Pairs
maker = set_object glib 10 (some one_object) (start_host glib)

abbrev shared : Wire
shared = record { type = 1; plugin = 0; id = 1; release_stub = false }

abbrev sender : Host Pairs
sender = say glib (object shared) (export_object glib no_owner false (some 10) maker).1

abbrev holder : Host Pairs
holder = (import_object glib 20 shared (start_host glib)).1

abbrev emptied : Host Pairs
emptied = record sender { outgoing = [] }

-- The holder has sent its proxy back.
abbrev returning : Host Pairs
returning = say glib (object (stub_wire 1 false)) holder

sent : Reachable glib (start_host glib) sender
unfolding export_object ◌>>=◌
sent =
    second _ _ _ _ (second _ _ _ _ started (make 10 1 _ _ (omega arith)))
      (send no_owner false (some 10) shared maker _ _ (omega arith) refl)

receives_new_example : find 1 [] ≡ none
unfolding export_object ◌>>=◌
receives_new_example = receives_new glib shared [] (start_host glib) sender sent refl refl

returned : Reachable glib emptied returning
unfolding export_object import_object ◌>>=◌
returned =
    second _ _ _ _
      (second _ _ _ _
        (first _ _ _ _ (first _ _ _ _ started (make 10 1 _ _ (omega arith)))
          (send no_owner false (some 10) shared maker _ _ (omega arith) refl))
        (receive 20 shared [] (some 20) _ _ _ refl refl))
      (send no_owner false (some 20) (stub_wire 1 false) holder _ _ (omega arith) refl)

receives_stub_example : lookup_local glib 1 emptied ≢ none
unfolding export_object import_object ◌>>=◌
receives_stub_example =
    receives_stub glib (stub_wire 1 false) [] emptied returning returned refl refl

Reachable-Sound_example : Sound glib nothing nothing emptied returning
Reachable-Sound_example = Reachable-Sound glib emptied returning returned

comes_home_example :
    (w : Wire) × (back : Wire) × (x' : Host Pairs) × (y' : Host Pairs) × (x'' : Host Pairs)
    × export_object glib no_owner false (some 10) maker ≡ (ok w, x')
    × import_object glib 20 w (start_host glib) ≡ (ok (some 20), y')
    × y'.objects 20 ≡ some (record { kind = proxy w.id true; reference_count = 1 })
    × export_object glib no_owner false (some 20) y' ≡ (ok back, y')
    × import_object glib 30 back x' ≡ (ok (some 10), x'')
comes_home_example =
    comes_home glib no_owner 10 20 30 one_object maker (start_host glib) refl refl (omega arith)

emptied-Linked : Linked glib emptied
emptied-Linked = (Reachable-Sound glib emptied returning returned).0

invalidated_ends_example :
    (export_object glib no_owner false (some 20) (invalidate glib 20 holder).1).0
      ≡ ok (stub_wire 1 false)
    × (import_object glib 30 (stub_wire 1 false) (handle_deallocate glib 1 emptied).1).0 ≡ abort
unfolding import_object
invalidated_ends_example =
    invalidated_ends glib no_owner 20 30 1 1 emptied holder emptied-Linked refl refl

-- The maker sends its object in a variant, and the other process receives it.
abbrev empty_message : Message
empty_message = record {
  capacity = 64;
  buffer = [];
  socket = record { sends = []; recvs = []; wire = [] };
}

abbrev exported : Host Pairs
exported = (export_object glib no_owner false (some 10) maker).1

abbrev message_bytes : List ℕ
message_bytes =
    written (send_variant glib no_owner false (object_value (some 10)) (maker, empty_message)).1.1

abbrev arriving : List ℕ → List RecvEvent
arriving [] = []
arriving (x ∷ xs) = arrived x xs ∷ []

stream-arriving : (xs : List ℕ) → stream (arriving xs) ≡ xs ++ []
unfolding stream
stream-arriving [] = refl
stream-arriving (x ∷ xs) = refl

send_variant-IsImported_example :
    ((send_variant glib no_owner false (object_value (some 10)) (maker, empty_message)).0
      ≡ ok (object_value (some 10)))
    × ((send_variant glib no_owner false (object_value (some 10)) (maker, empty_message)).1.0
        ≡ exported)
    × (evs' : List RecvEvent) × (stream evs' ≡ [])
    × (recv_variant plenty glib 20 false (start_host glib, arriving message_bytes)
        ≡ in_host (import_variant glib 20 (object_value shared)) (start_host glib, evs'))
unfolding export_variant export_object ◌>>=◌
send_variant-IsImported_example =
    send_variant-IsImported glib no_owner false plenty (λ n. refl) 20 (object_value (some 10))
      (object_value shared) maker exported (start_host glib) empty_message message_bytes []
      (arriving message_bytes) refl
      (record {
        type = omega arith;
        plugin = omega arith;
        id = omega arith;
        release_stub = λ e. refl;
      })
      (record { fits = omega arith; live = tt }) refl (stream-arriving message_bytes)
