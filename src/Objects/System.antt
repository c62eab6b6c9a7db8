-- ===== src/Objects/System.antt =====
-- The two processes and the messages between them: what each of them does with objects, one step
-- after the other.
use nspluginwrapper.Prelude.{ℕ, ◌+◌, ◌<◌, ◌^◌, Bool, List, [], ◌∷◌, Option, none, some, ◌≡◌}
use nspluginwrapper.Rpc.Error.{ok}
use nspluginwrapper.Glib.{HashTable}
use nspluginwrapper.Objects.Host.{
  own, Wire, Mention, object, deallocate, Host, set_object, say, retain, release, handle_deallocate,
}
use nspluginwrapper.Objects.Exchange.{export_object, import_object}
use nspluginwrapper.Objects.Sound.{taken}

module _ (glib : HashTable) where
  open glib use {Table, empty}

  -- Nothing is shared yet.
  abbrev pub start_host : Host Table
  start_host = record {
    objects = λ a. none;
    stubs = empty;
    next_id = 0;
    proxies = empty;
    outgoing = [];
  }

  -- What the process `x` does while the other one is `y`. Each call has returned, so no assert has
  -- failed, and `next_id` has not come round. g_NPClass_Invalidate is not among the steps.
  pub data Turn : Host Table → Host Table → Host Table → Host Table → Type 0 where
    -- It makes an object of its own.
    make :
        (a n : ℕ) (x y : Host Table)
        → n < 2 ^ 32
        → Turn x y (set_object glib a (some (record { kind = own; reference_count = n })) x) y
    -- NPN_RetainObject and NPN_ReleaseObject
    retain_object :
        (a : ℕ) (u : Unit {0}) (x x' y : Host Table) → retain glib a x ≡ (ok u, x') → Turn x y x' y
    release_object :
        (a : ℕ) (u : Unit {0}) (x x' y : Host Table) → release glib a x ≡ (ok u, x') → Turn x y x' y
    -- do_send_NPObject_helper
    send :
        (owner_id : ℕ → ℕ) (pass_ref : Bool) (target : Option ℕ) (w : Wire) (x x' y : Host Table)
        → x.next_id + 1 < 2 ^ 32
        → export_object glib owner_id pass_ref target x ≡ (ok w, x')
        → Turn x y (say glib (object w) x') y
    -- do_recv_NPObject_helper
    receive :
        (a : ℕ) (w : Wire) (rest : List Mention) (r : Option ℕ) (x x' y : Host Table)
        → y.outgoing ≡ object w ∷ rest
        → import_object glib a w x ≡ (ok r, x')
        → Turn x y x' (taken glib rest y)
    -- npclass_handle_Deallocate
    serve :
        (j : ℕ) (rest : List Mention) (u : Unit {0}) (x x' y : Host Table)
        → y.outgoing ≡ deallocate j ∷ rest
        → handle_deallocate glib j x ≡ (ok u, x')
        → Turn x y x' (taken glib rest y)

  -- What the two processes come to.
  pub data Reachable : Host Table → Host Table → Type 0 where
    started : Reachable start_host start_host
    first : (x y x' y' : Host Table) → Reachable x y → Turn x y x' y' → Reachable x' y'
    second : (x y x' y' : Host Table) → Reachable x y → Turn y x y' x' → Reachable x' y'
