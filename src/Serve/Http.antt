-- ===== src/Serve/Http.antt =====
-- What a handler of srvfb.go sends to its client, write by write, and the parts of a multipart
-- stream (mime/multipart). The bytes of the boundary lines are left out: a part is taken to end
-- where the next part begins.
use Prim.Native.String.{String}
use srvfb.Base.{ℕ, zero, suc, List, [], ◌∷◌, ◌++◌}
use srvfb.Base.Bytes.{Bytes}

pub data Event : Type 0 where
  http_error : String → ℕ → Event  -- http.Error(w, message, code)
  content_type : String → Event  -- w.Header().Set("Content-Type", value)
  write_header : ℕ → Event
  part : String → Event  -- mpw.CreatePart(hdr), with the Content-Type of hdr
  write : Bytes → Event
  index_page : Event  -- io.WriteString(w, idx)
  not_found : String → Event  -- http.Error with the quoted path and code 404
  flush : Event
  sleep : ℕ → Event  -- milliseconds
  close_body : Event  -- resp.Body.Close() of the proxy's request
  crashed : Event  -- a run-time panic

-- A write that returns the handler if it fails. The client takes `budget` more writes.
abbrev pub writing : Event → (ℕ → List Event) → ℕ → List Event
writing e rest zero = []
writing e rest (suc budget) = e ∷ rest budget

pub record Part : Type 0 where
  pub content_type : String
  pub body : Bytes

-- The bytes before the next part, and the parts.
abbrev pub gather : List Event → Bytes × List Part
gather [] = ([], [])
gather (part t ∷ es) = ([], record { content_type = t; body = (gather es).0 } ∷ (gather es).1)
gather (write b ∷ es) = (b ++ (gather es).0, (gather es).1)
gather (_ ∷ es) = gather es

-- The parts that a multipart.Reader finds in what was sent.
abbrev pub parts : List Event → List Part
parts es = (gather es).1
