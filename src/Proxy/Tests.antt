-- ===== src/Proxy/Tests.antt =====
-- srvfb.go: a device of two frames, streamed to a proxy.
use srvfb.Base.{◌≡◌, true, some, [], ◌∷◌, ◌++◌, map, arith, length}
use srvfb.Base.Outcome.{ok}
use srvfb.Image.{rect, dx, dy}
use srvfb.Fb.Samples.{shot}
use srvfb.Handler.{new_gray16}
use srvfb.Serve.Http.{parts}
use srvfb.Serve.Header.{RawHeader, encode, decode, decode-encode}
use srvfb.Serve.Raw.{serve_raw}
use srvfb.Proxy.{ProxyConn, read_hdr}
use srvfb.Proxy.Stream.{receive}
use srvfb.Proxy.Samples.{whole, shot-IsSteady, whole-IsWithin, whole_size}
use srvfb.Proxy.EndToEnd.{sent, proxy_receives}

proxy_receives_example :
    (c : ProxyConn) × (read_hdr
        (some ("multipart/x-mixed-replace", "endofsection"))
        (parts (serve_raw true (shot 1 ∷ shot 1 ∷ shot 9 ∷ []) 8))
      ≡ ok c)
    × (receive
          (length (sent 4 whole 16 whole-IsWithin (shot 1) (shot 1 ∷ shot 9 ∷ [])))
          c
          new_gray16
        ≡ map
            (λ b. record { pix = b; stride = 4; rect = rect 0 0 (dx whole) (dy whole) })
            (sent 4 whole 16 whole-IsWithin (shot 1) (shot 1 ∷ shot 9 ∷ [])))
proxy_receives_example =
    proxy_receives 4 whole 16 whole-IsWithin (shot 1) (shot 1 ∷ shot 9 ∷ []) 4
      (shot-IsSteady 1, (shot-IsSteady 1, (shot-IsSteady 9, tt))) (omega arith) (omega arith)
      whole_size.0 whole_size.1 whole_size.2

abbrev header : RawHeader
header = record { version = 1; bits_per_pixel = 16; stride = 2816; width = 1404; height = 1872 }

decode-encode_example : decode (encode header ++ []) ≡ some header
decode-encode_example = decode-encode header [] (omega arith)
