-- ===== src/Proxy/EndToEnd.antt =====
-- srvfb.go, serveRaw and proxyconn together: a proxy sees the frames of the device.
use srvfb.Base.{
  ℕ, zero, suc, ◌-◌, ◌*◌, ◌^◌, ◌≤◌, ◌<◌, ◌≡◌, refl, inl, inr, true, some, List, [], ◌∷◌, map,
  append-nil, arith, Bool-cases, length, take, drop, length-take, length-drop,
}
use native.Mathlib.Nat.{mul-sub}
use srvfb.Base.Bytes.{Bytes}
use srvfb.Base.Outcome.{ok, slice-in_bounds}
use srvfb.Image.{Rectangle, dx, dy, rect, Gray16, gray16}
use srvfb.Dedup.{Deduper, fresh, skip, deduped}
use srvfb.Fb.{image}
use srvfb.Handler.{Error, Shot, swap_bytes, load, new_gray16}
use srvfb.Handler as Handler
use srvfb.Handler.Frames.{length-swap_bytes, load-pix}
use srvfb.Serve.Http.{gather, parts}
use srvfb.Serve.Header.{encode}
use srvfb.Serve.Raw.{visible, header_of, raw_loop, serve_raw}
use srvfb.Proxy.{max_alloc, ProxyConn, read_hdr}
use native.Mathlib.Nat.{mul-le-mul_right}
use srvfb.Proxy.Stream.{frame_part, AllSized, conn, receive, receive-frames, read_hdr-encode}

-- The device at a read shows a picture with this line length and rectangle, in memory of this size.
pub record IsSteady (stride : ℕ) (r : Rectangle) (size : ℕ) (s : Shot) : Type 0 where
  pub shows :
      image s.device s.reply
      ≡ ok (gray16 (record { pix = s.device.mmap; stride = stride; rect = r }))
  pub sized : length s.device.mmap ≡ size

abbrev pub AllSteady : ℕ → Rectangle → ℕ → List Shot → Type 0
AllSteady stride r size [] = Unit {0}
AllSteady stride r size (s ∷ shots) = IsSteady stride r size s × AllSteady stride r size shots

-- The lines of the rectangle, in big-endian pixels.
abbrev pub frame : ℕ → Rectangle → Shot → Bytes
frame stride r s =
    take (r.max_y * stride - r.min_y * stride) (drop (r.min_y * stride) (swap_bytes s.device.mmap))

-- A rectangle whose lines lie in the memory.
pub record IsWithin (stride : ℕ) (r : Rectangle) (size : ℕ) : Type 0 where
  pub ordered : r.min_y ≤ r.max_y
  pub fits : r.max_y * stride ≤ size

-- Its frames are within what make allocates.
pub small_frame : (s h : ℕ) → s < 2 ^ 16 → h < 2 ^ 32 → s * h ≤ max_alloc
small_frame s h a b = let p : s * h ≤ 2 ^ 16 * h = mul-le-mul_right h (omega arith) in omega arith

module _ (stride : ℕ) (r : Rectangle) (size : ℕ) (w : IsWithin stride r size) where
  abbrev pub shown : Shot → Gray16
  shown s = record { pix = swap_bytes s.device.mmap; stride = stride; rect = r }

  pub read_image-steady :
      (s : Shot) (im : Gray16)
      → IsSteady stride r size s
      → length im.pix ≤ size
      → Handler.read_image s im ≡ ok (shown s)
  unfolding Handler.read_image load
  read_image-steady s im st h =
      let g : Gray16 = record { pix = s.device.mmap; stride = stride; rect = r } in
      rw st.shows (λ i.
        ok (record { pix = load-pix im g (omega (arith, st.sized)) i; stride = stride; rect = r }))

  lines_ordered : r.min_y * stride ≤ r.max_y * stride
  lines_ordered = let o = w.ordered in grind arith

  visible-steady : (s : Shot) → IsSteady stride r size s → visible (shown s) ≡ ok (frame stride r s)
  unfolding visible
  visible-steady s st =
      slice-in_bounds (swap_bytes s.device.mmap) (r.min_y * stride) (r.max_y * stride) lines_ordered
        (omega (arith, w.fits, length-swap_bytes s.device.mmap, st.sized))

  pub length-frame :
      (s : Shot) → IsSteady stride r size s → length (frame stride r s) ≡ stride * dy r
  unfolding dy
  length-frame s st =
      let swapped = swap_bytes s.device.mmap in
      omega (
        arith,
        w.fits,
        w.ordered,
        lines_ordered,
        mul-sub stride r.max_y r.min_y,
        length-take (r.max_y * stride - r.min_y * stride) (drop (r.min_y * stride) swapped),
        length-drop (r.min_y * stride) swapped,
        length-swap_bytes s.device.mmap,
        st.sized,
      )

  -- With enough writes left, the loop sends the frames that the deduper lets through.
  gather-raw_loop :
      (shots : List Shot) (im : Gray16) (d : Deduper) (budget : ℕ)
      → AllSteady stride r size shots
      → length im.pix ≤ size
      → 2 * length shots ≤ budget
      → gather (raw_loop shots im d budget)
        ≡ ([], map frame_part (deduped d (map (frame stride r) shots)))
  unfolding raw_loop deduped
  gather-raw_loop [] im d budget st l b = refl
  gather-raw_loop (s ∷ shots) im d zero st l b = absurd (omega arith)
  gather-raw_loop (s ∷ shots) im d (suc zero) st l b = absurd (omega arith)
  gather-raw_loop (s ∷ shots) im d (suc (suc budget)) (st, sts) l b =
      let small : length (shown s).pix ≤ size =
        omega (arith, length-swap_bytes s.device.mmap, st.sized) in
      let rest = λ (budget' : ℕ) (enough : 2 * length shots ≤ budget').
        gather-raw_loop shots (shown s) (skip d (frame stride r s)).1 budget' sts small enough in
      rw (read_image-steady s im st l, raw_loop)
        (rw (visible-steady s st, raw_loop)
          (elim (Bool-cases (skip d (frame stride r s)).0) [
            | inl e ↦ rw e (rest (suc (suc budget)) (omega arith))
            | inr e ↦ rw e (rw (rest budget (omega arith), append-nil))
          ]))

  -- What the proxy is sent: the first frame, and what the deduper lets through of the others.
  unfoldable pub sent : Shot → List Shot → List Bytes
  sent s shots = frame stride r s ∷ deduped fresh (map (frame stride r) shots)

  pub parts-serve_raw :
      (s : Shot) (shots : List Shot) (budget : ℕ)
      → AllSteady stride r size (s ∷ shots)
      → 2 * length shots ≤ budget
      → parts (serve_raw true (s ∷ shots) (suc (suc (suc (suc budget)))))
        ≡ frame_part (encode (header_of (shown s))) ∷ map frame_part (sent s shots)
  unfolding serve_raw sent
  parts-serve_raw s shots budget (st, sts) b =
      let small : length (shown s).pix ≤ size =
        omega (arith, length-swap_bytes s.device.mmap, st.sized) in
      let rest = gather-raw_loop shots (shown s) fresh budget sts small b in
      rw (read_image-steady s new_gray16 st (omega arith), serve_raw)
        (rw (visible-steady s st) (rw (rest, append-nil, append-nil)))

  -- The rectangle and the line length survive the narrow fields of the header.
  pub header_of-eq :
      (s : Shot)
      → stride < 2 ^ 16
      → dx r < 2 ^ 32
      → dy r < 2 ^ 32
      → header_of (shown s)
        ≡ record { version = 1; bits_per_pixel = 16; stride = stride; width = dx r; height = dy r }
  unfolding header_of
  header_of-eq s a b c = ground arith

  pub sent-AllSized :
      (d : Deduper) (shots : List Shot)
      → AllSteady stride r size shots
      → AllSized (stride * dy r) (deduped d (map (frame stride r) shots))
  unfolding deduped
  sent-AllSized d [] st = tt
  sent-AllSized d (s ∷ shots) (st, sts) = elim (Bool-cases (skip d (frame stride r s)).0) [
    | inl e ↦ rw e (sent-AllSized (skip d (frame stride r s)).1 shots sts)
    | inr e ↦ rw e (length-frame s st, sent-AllSized (skip d (frame stride r s)).1 shots sts)
  ]

  -- A proxy that reads the stream of a steady device gets a connection, and then one picture for
  -- each frame sent: the lines of the rectangle in big-endian pixels, put at the origin. The client
  -- takes four writes and two more for each later shot; the device shows one rectangle at each, whose
  -- lines lie in its memory; the header's fields fit their types, and the picture is not empty.
  pub proxy_receives :
      (s : Shot) (shots : List Shot) (budget : ℕ)
      → AllSteady stride r size (s ∷ shots)
      → 2 * length shots ≤ budget
      → stride < 2 ^ 16
      → dx r < 2 ^ 32
      → dy r < 2 ^ 32
      → 0 < stride * dy r
      → (c : ProxyConn) × (read_hdr
            (some ("multipart/x-mixed-replace", "endofsection"))
            (parts (serve_raw true (s ∷ shots) (suc (suc (suc (suc budget))))))
          ≡ ok c)
        × (receive (length (sent s shots)) c new_gray16
            ≡ map
                (λ b. record { pix = b; stride = stride; rect = rect 0 0 (dx r) (dy r) })
                (sent s shots))
  unfolding sent
  proxy_receives s shots budget (st, sts) b hs hx hy pos = (
    conn stride (dx r) (dy r) (map frame_part (sent s shots)),
    rw (parts-serve_raw s shots budget (st, sts) b, header_of-eq s hs hx hy)
        (read_hdr-encode _ (map frame_part (sent s shots)) (omega arith) refl refl),
    receive-frames stride (dx r) (dy r) (sent s shots) new_gray16
        (record {
          geometry = λ e. absurd (omega arith);
          allocatable = small_frame stride (dy r) hs hy;
        })
        (length-frame s st, sent-AllSized fresh shots sts),
  )
