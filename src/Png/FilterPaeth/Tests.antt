-- ===== src/Png/FilterPaeth/Tests.antt =====
-- internal/png/paeth.go, filterPaeth: a row of two pixels of two bytes, and a half.
use srvfb.Base.{◌≡◌, refl, [], ◌∷◌, arith}
use srvfb.Base.Bytes.{Bytes}
use srvfb.Png.Word.{abs}
use srvfb.Png.Filter.{ft_paeth}
use srvfb.Png.Filter.RoundTrip.{undo, AllBytes}
use srvfb.Png.FilterPaeth.{step, pass, passes, filter_paeth}
use srvfb.Png.FilterPaeth.Passes.{filter_paeth-undo}

abbrev row : Bytes
row = 1 ∷ 200 ∷ 7 ∷ 255 ∷ 40 ∷ []

abbrev prior : Bytes
prior = 0 ∷ 190 ∷ 9 ∷ 250 ∷ 3 ∷ []

prior-AllBytes : AllBytes prior
prior-AllBytes = (omega arith, (omega arith, (omega arith, (omega arith, (omega arith, tt)))))

filter_paeth_run : filter_paeth row prior 2 ≡ 1 ∷ 134 ∷ 16 ∷ 189 ∷ 49 ∷ []
unfolding filter_paeth passes pass step abs
filter_paeth_run = refl

filter_paeth-undo_example : filter_paeth row prior 2 ≡ undo ft_paeth 2 row prior
filter_paeth-undo_example =
    filter_paeth-undo 2 row prior (omega arith) (omega arith) refl prior-AllBytes
