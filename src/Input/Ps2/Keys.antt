-- ===== src/Input/Ps2/Keys.antt =====
-- input/ps2d/src/state.rs: the tables that turn a keyboard's scancodes into keys. The numbers of
-- the keys are the orbclient library's, a parameter `code` of the driver's model.
use drivers.Base.{ℕ, Option, none, some, List, [], ◌∷◌, ◌==◌, if◌then◌else◌}

-- The keys of orbclient that the tables name, and a code that is not given a name there.
pub data Key : Type 0 where
  k_alt_gr k_home k_up k_pgup k_left k_right k_end k_down k_pgdn k_del k_esc k_1 k_2 k_3 k_4 k_5 :
      Key
  k_6 k_7 k_8 k_9 k_0 k_minus k_equals k_bksp k_tab k_q k_w k_e k_r k_t k_y k_u k_i k_o k_p : Key
  k_brace_open k_brace_close k_enter k_ctrl k_a k_s k_d k_f k_g k_h k_j k_k k_l k_semicolon : Key
  k_quote k_tick k_left_shift k_backslash k_z k_x k_c k_v k_b k_n k_m k_comma k_period k_slash : Key
  k_right_shift k_alt k_space k_caps k_f1 k_f2 k_f3 k_f4 k_f5 k_f6 k_f7 k_f8 k_f9 k_f10 k_num_7 :
      Key
  k_num_8 k_num_9 k_num_4 k_num_5 k_num_6 k_num_1 k_num_2 k_num_3 k_num_0 k_f11 k_f12 : Key
  raw : ℕ → Key

-- After the prefix 0xE0
abbrev pub extended_keys : List (ℕ × Key)
extended_keys =
    (0x20, raw 0xa0)
    ∷ (0x2e, raw 0xae)
    ∷ (0x30, raw 0xb0)
    ∷ (0x38, k_alt_gr)
    ∷ (0x47, k_home)
    ∷ (0x48, k_up)
    ∷ (0x49, k_pgup)
    ∷ (0x4b, k_left)
    ∷ (0x4d, k_right)
    ∷ (0x4f, k_end)
    ∷ (0x50, k_down)
    ∷ (0x51, k_pgdn)
    ∷ (0x53, k_del)
    ∷ (0x5b, raw 0x5b)
    ∷ []

-- Without a prefix
abbrev pub plain_keys : List (ℕ × Key)
plain_keys =
    (0x01, k_esc)
    ∷ (0x02, k_1)
    ∷ (0x03, k_2)
    ∷ (0x04, k_3)
    ∷ (0x05, k_4)
    ∷ (0x06, k_5)
    ∷ (0x07, k_6)
    ∷ (0x08, k_7)
    ∷ (0x09, k_8)
    ∷ (0x0a, k_9)
    ∷ (0x0b, k_0)
    ∷ (0x0c, k_minus)
    ∷ (0x0d, k_equals)
    ∷ (0x0e, k_bksp)
    ∷ (0x0f, k_tab)
    ∷ (0x10, k_q)
    ∷ (0x11, k_w)
    ∷ (0x12, k_e)
    ∷ (0x13, k_r)
    ∷ (0x14, k_t)
    ∷ (0x15, k_y)
    ∷ (0x16, k_u)
    ∷ (0x17, k_i)
    ∷ (0x18, k_o)
    ∷ (0x19, k_p)
    ∷ (0x1a, k_brace_open)
    ∷ (0x1b, k_brace_close)
    ∷ (0x1c, k_enter)
    ∷ (0x1d, k_ctrl)
    ∷ (0x1e, k_a)
    ∷ (0x1f, k_s)
    ∷ (0x20, k_d)
    ∷ (0x21, k_f)
    ∷ (0x22, k_g)
    ∷ (0x23, k_h)
    ∷ (0x24, k_j)
    ∷ (0x25, k_k)
    ∷ (0x26, k_l)
    ∷ (0x27, k_semicolon)
    ∷ (0x28, k_quote)
    ∷ (0x29, k_tick)
    ∷ (0x2a, k_left_shift)
    ∷ (0x2b, k_backslash)
    ∷ (0x2c, k_z)
    ∷ (0x2d, k_x)
    ∷ (0x2e, k_c)
    ∷ (0x2f, k_v)
    ∷ (0x30, k_b)
    ∷ (0x31, k_n)
    ∷ (0x32, k_m)
    ∷ (0x33, k_comma)
    ∷ (0x34, k_period)
    ∷ (0x35, k_slash)
    ∷ (0x36, k_right_shift)
    ∷ (0x38, k_alt)
    ∷ (0x39, k_space)
    ∷ (0x3a, k_caps)
    ∷ (0x3b, k_f1)
    ∷ (0x3c, k_f2)
    ∷ (0x3d, k_f3)
    ∷ (0x3e, k_f4)
    ∷ (0x3f, k_f5)
    ∷ (0x40, k_f6)
    ∷ (0x41, k_f7)
    ∷ (0x42, k_f8)
    ∷ (0x43, k_f9)
    ∷ (0x44, k_f10)
    ∷ (0x47, k_num_7)
    ∷ (0x48, k_num_8)
    ∷ (0x49, k_num_9)
    ∷ (0x4b, k_num_4)
    ∷ (0x4c, k_num_5)
    ∷ (0x4d, k_num_6)
    ∷ (0x4f, k_num_1)
    ∷ (0x50, k_num_2)
    ∷ (0x51, k_num_3)
    ∷ (0x52, k_num_0)
    ∷ (0x57, k_f11)
    ∷ (0x58, k_f12)
    ∷ []

unfoldable pub find_key : List (ℕ × Key) → ℕ → Option Key
find_key [] scancode = none
find_key ((s, key) ∷ keys) scancode =
    let rest = find_key keys scancode in if s == scancode then some key else rest
