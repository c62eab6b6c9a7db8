-- ===== src/Rpc/Carries.antt =====
-- A sending and a receiving function of src/rpc.c that fit together.
pub mod Scalars
pub mod Strings
use nspluginwrapper.Prelude.{ℕ, List, [], ◌++◌, ◌≡◌, subst, append-nil}
use nspluginwrapper.Rpc.Action.{return, ◌>>=◌, ◌>>◌}
use nspluginwrapper.Rpc.Message.{Send}
use nspluginwrapper.Rpc.Message.Emits.{Emits, Emits-bind, Emits-return}
use nspluginwrapper.Rpc.Reader.{Reader}
use nspluginwrapper.Rpc.Reader.Parses.{Parses, Parses-bind, Parses-return}

-- On a working socket the sender succeeds and puts certain bytes on the wire; the receiver, where
-- these bytes come first on its stream, takes them and no more, and returns `a`.
pub record Carries {A : Type 0} (s : Send) (r : Reader A) (a : A) : Type 0 where
  pub bytes : List ℕ
  pub emits : Emits s bytes
  pub parses : Parses r bytes a

pub Carries-return : {A : Type 0} (a : A) → Carries (return tt) (return a) a
Carries-return a = record { bytes = []; emits = Emits-return; parses = Parses-return a }

module _ {A B : Type 0} {a : A} {b : B} where
  -- One value, then the others.
  pub Carries-bind :
      (s t : Send) (r : Reader A) (f : A → Reader B)
      → Carries s r a
      → Carries t (f a) b
      → Carries (s >> t) (r >>= f) b
  Carries-bind s t r f c d = record {
    bytes = c.bytes ++ d.bytes;
    emits = Emits-bind s t c.emits d.emits;
    parses = Parses-bind r f c.parses d.parses;
  }

  -- The last value, and what is made of it.
  pub Carries-last :
      (s : Send) (r : Reader A) (f : A → Reader B)
      → Carries s r a
      → Parses (f a) [] b
      → Carries s (r >>= f) b
  Carries-last s r f c d = record {
    bytes = c.bytes;
    emits = c.emits;
    parses = subst (λ xs. Parses (r >>= f) xs b) (append-nil c.bytes) (Parses-bind r f c.parses d);
  }

pub ruleset carries_rules = (Carries-bind, Carries-last, Carries-return, Parses-return)
