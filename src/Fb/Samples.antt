-- ===== src/Fb/Samples.antt =====
-- A small screen for tests: 2 by 2 pixels in a virtual screen of 2 by 4.
use srvfb.Base.{ℕ, List, [], ◌∷◌}
use srvfb.Fb.{Device, done}
use srvfb.Fb.Types.{FixScreeninfo, Bitfield, VarScreeninfo}
use srvfb.Handler.{Shot}

abbrev pub no_bits : Bitfield
no_bits = record { offset = 0; length = 0; right = 0 }

abbrev pub fixed : FixScreeninfo
fixed = record {
  id = [];
  smem_start = 0;
  smem_len = 16;
  type = 0;
  type_aux = 0;
  visual = 2;
  xpanstep = 0;
  ypanstep = 1;
  ywrapstep = 0;
  line_length = 4;
  mmio_start = 0;
  mmio_len = 0;
  accel = 0;
  capabilities = 0;
  reserved = [];
}

-- The screen, panned down by some lines.
abbrev pub panned : ℕ → VarScreeninfo
panned y = record {
  xres = 2;
  yres = 2;
  xres_virtual = 2;
  yres_virtual = 4;
  xoffset = 0;
  yoffset = y;
  bits_per_pixel = 16;
  grayscale = 1;
  red = no_bits;
  green = no_bits;
  blue = no_bits;
  transp = no_bits;
  nonstd = 0;
  activate = 0;
  height = 0;
  width = 0;
  accel_flags = 0;
  pixclock = 0;
  left_margin = 0;
  right_margin = 0;
  upper_margin = 0;
  lower_margin = 0;
  hsync_len = 0;
  vsync_len = 0;
  sync = 0;
  vmode = 0;
  rotate = 0;
  colorspace = 0;
  reserved = [];
}

abbrev pub memory : ℕ → List ℕ
memory b = b ∷ 2 ∷ 3 ∷ 4 ∷ 5 ∷ 6 ∷ 7 ∷ 8 ∷ 0 ∷ 0 ∷ 0 ∷ 0 ∷ 0 ∷ 0 ∷ 0 ∷ 0 ∷ []

abbrev pub screen : ℕ → Device
screen b = record { fd = 3; mmap = memory b; finfo = fixed }

abbrev pub shot : ℕ → Shot
shot b = record { device = screen b; reply = done (panned 0) }
