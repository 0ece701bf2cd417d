-- ===== src/Fb/Types.antt =====
-- internal/fb/types_amd64.go: the kernel's structures, as package fb reads them. The padding fields
-- carry nothing and are left out. Each field is a number below the bound of its Go type.
use srvfb.Base.{ℕ, List}

pub record FixScreeninfo : Type 0 where
  pub id : List ℕ
  pub smem_start : ℕ
  pub smem_len : ℕ
  pub type : ℕ
  pub type_aux : ℕ
  pub visual : ℕ
  pub xpanstep : ℕ
  pub ypanstep : ℕ
  pub ywrapstep : ℕ
  pub line_length : ℕ
  pub mmio_start : ℕ
  pub mmio_len : ℕ
  pub accel : ℕ
  pub capabilities : ℕ
  pub reserved : List ℕ

pub record Bitfield : Type 0 where
  pub offset : ℕ
  pub length : ℕ
  pub right : ℕ

pub record VarScreeninfo : Type 0 where
  pub xres : ℕ
  pub yres : ℕ
  pub xres_virtual : ℕ
  pub yres_virtual : ℕ
  pub xoffset : ℕ
  pub yoffset : ℕ
  pub bits_per_pixel : ℕ
  pub grayscale : ℕ
  pub red : Bitfield
  pub green : Bitfield
  pub blue : Bitfield
  pub transp : Bitfield
  pub nonstd : ℕ
  pub activate : ℕ
  pub height : ℕ
  pub width : ℕ
  pub accel_flags : ℕ
  pub pixclock : ℕ
  pub left_margin : ℕ
  pub right_margin : ℕ
  pub upper_margin : ℕ
  pub lower_margin : ℕ
  pub hsync_len : ℕ
  pub vsync_len : ℕ
  pub sync : ℕ
  pub vmode : ℕ
  pub rotate : ℕ
  pub colorspace : ℕ
  pub reserved : List ℕ
