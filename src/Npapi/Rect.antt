-- ===== src/Npapi/Rect.antt =====
-- `NPRect`: do_send_NPRect and do_recv_NPRect of src/npw-rpc.c.
use nspluginwrapper.Prelude.{ℕ, ◌^◌, ◌<◌}
use nspluginwrapper.Rpc.Action.{return, ◌>>=◌, ◌>>◌}
use nspluginwrapper.Rpc.Message.{Send, send_uint32}
use nspluginwrapper.Rpc.Reader.{Reader}
use nspluginwrapper.Npapi.Fields.{recv_u16_word, field_rules}
use nspluginwrapper.Rpc.Carries.{Carries}

-- Four `uint16_t`.
pub record NpRect : Type 0 where
  pub top : ℕ
  pub left : ℕ
  pub bottom : ℕ
  pub right : ℕ

pub record IsNpRect (r : NpRect) : Type 0 where
  pub top : r.top < 2 ^ 16
  pub left : r.left < 2 ^ 16
  pub bottom : r.bottom < 2 ^ 16
  pub right : r.right < 2 ^ 16

pub send_rect : NpRect → Send
send_rect r = do send_uint32 r.top; send_uint32 r.left; send_uint32 r.bottom; send_uint32 r.right

pub recv_rect : Reader NpRect
recv_rect = do
  top ← recv_u16_word
  left ← recv_u16_word
  bottom ← recv_u16_word
  right ← recv_u16_word
  return (record { top = top; left = left; bottom = bottom; right = right })

-- A rectangle of four 16-bit numbers arrives as it was sent.
pub send_rect-Carries : (r : NpRect) → IsNpRect r → Carries (send_rect r) recv_rect r
unfolding send_rect recv_rect
send_rect-Carries r h = search field_rules depth 20
