-- ===== src/Proxy/Samples.antt =====
-- srvfb.go: the small screen of the tests as one that stays where it is.
use srvfb.Base.{ℕ, ◌*◌, ◌^◌, ◌<◌, refl, arith}
use srvfb.Image.{Rectangle, rect, dx, dy, is_in}
use srvfb.Fb.{image}
use srvfb.Fb.Samples.{shot}
use srvfb.Proxy.EndToEnd.{IsSteady, IsWithin}

-- The rectangle of the small screen.
abbrev pub whole : Rectangle
whole = record { min_x = 0; min_y = 0; max_x = 2; max_y = 2 }

pub shot-IsSteady : (b : ℕ) → IsSteady 4 whole 16 (shot b)
unfolding image rect dx dy is_in
shot-IsSteady b = record { shows = refl; sized = refl }

pub whole-IsWithin : IsWithin 4 whole 16
whole-IsWithin = record { ordered = omega arith; fits = omega arith }

pub whole_size : (dx whole < 2 ^ 32) × (dy whole < 2 ^ 32) × (0 < 4 * dy whole)
unfolding dx dy
whole_size = omega arith
