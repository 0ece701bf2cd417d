-- ===== src/Lib.antt =====
-- srvfb: the framebuffer server of a reMarkable tablet. `main` (srvfb.go) runs `run`, which opens the
-- framebuffer device, or takes the address of another server that it is a proxy for, and serves
-- HTTP on a listener, which may close itself when idle. A request reads frames from the device
-- (readImage) or from the raw stream of the other server (dialProxy, proxyconn.readImage), and
-- sends them raw (serveRaw, for a proxy) or as PNGs (serveVideo, serveImage); serveRaw and
-- serveVideo leave out frames that repeat (deduper). The package internal/png is this repository's
-- own version of Go's encoder and decoder, changed for the 16-bit pixels of the device.
--
-- Image       the types of the package image that the program uses: Rectangle and Gray16, and the
--             data of the framebuffer's pictures
-- Fb          internal/fb/fb.go: Open, VarScreeninfo, Image, Close; internal/fb/types_amd64.go in
--             Fb/Types. A system call is an argument, a function from the call to its reply, and
--             the calls that a function makes are part of its result. Fb/Geometry: which bytes a
--             picture shows. Fb/Resources: what Open and Close leave open.
-- Handler     srvfb.go, (*handler).readImage. Handler/Frames: the pixels of a frame. Handler/Lines:
--             its lines lie in its bytes.
-- Dedup       srvfb.go, deduper, with the hash FNV-1a of Go's hash/fnv. Dedup/Laws: what is sent.
-- Serve       Serve/Http: what a handler does with its http.ResponseWriter, as a list of events;
--             the client takes a number of writes, the argument `budget`, and every later write
--             fails. Serve/Header: rawHeader and encoding/binary. Serve/Raw: serveRaw.
--             Serve/Video: serveVideo, serveImage, and the choice of the reader.
--             Serve/Video/Safety: no crash, and no body left open. Serve/Video/Frames: the pictures
--             that a viewer gets. Serve/Video/Decoded: the PNGs of package png, decoded.
--             Serve/Video/Screen: a device whose screen stays where it is. Serve/Video/Relay: what a
--             viewer of a proxy gets. Serve/Routes: ServeHTTP. Serve/Routes/Safety: no crash, on
--             any request.
-- Proxy       srvfb.go, readHdr and proxyconn.readImage. Proxy/Lines: a picture has all its lines.
--             Proxy/Stream: a proxy on the parts of a stream. Proxy/EndToEnd: serveRaw and a proxy
--             together.
-- Listener    srvfb.go, listener and conn, as a step relation: each access to shared state is a
--             step of a goroutine, and steps interleave in any order. Listener/Counting: the
--             counter of open connections. Listener/Idle: when Accept returns errIdle.
--             Listener/Race: a run in which it does so too early.
-- Startup     srvfb.go, run and init. Startup/Files: the files of a service manager.
--             Startup/Modes: the flags with which the server starts.
-- Png         internal/png. Png/Word: Go's int and abs; Png/Paeth: paeth, both in
--             internal/png/paeth.go. Png/Filter: filter of internal/png/writer.go.
--             Png/Filter/Scan and Png/Filter/Choice: the choice of a row's filter type.
--             Png/Filter/RoundTrip: the switch of readImagePass in internal/png/reader.go.
--             Png/FilterPaeth, with Values and Passes: filterPaeth, pass by pass.
--             Png/Format: the constants of the file format. Png/Encoder: writeChunk, writeIHDR and
--             writeIEND. Png/Decoder, with Header, Palette and Chunk: parseChunk and the parsers of
--             each chunk. Png/Chunks, with Header: what is written is read back. Png/Stages, with
--             Parts, Palette and Order: no panic, and the order of the chunks. Png/NoPanic,
--             with Rows, Image, Loops and File: no panic of the decoder over a palette, and the end
--             of its loops; with Encode: no panic of the encoder.
--             Png/Picture: the pictures that writeImage encodes, and the conversion of a line for
--             each mode; Png/Writer: its rows, as they go to the zlib writer. Png/Canvas: the
--             images that the decoder makes; Png/Raster: the conversion of a row for each mode, with
--             Png/Raster/Covered: the palette of its indices;
--             Png/Pass: readImagePass. Png/RoundTrip: writeImage, then readImagePass (Row, Rows,
--             Draw and Whole for any mode; Gray for the frames of the program; Packing, with Size
--             and Table, and Indexed for pixels that share a byte), and Encode, then Decode (Stream
--             and Blocks for the IDAT chunks, File for a whole file, Encoded for the frames).
--             Png/Interlace: mergePassInto and the passes; Png/Interlace/Passes: where the pixels
--             of a pass lie; Png/Interlace/Pixels, on Cells, Line, Merge, Shapes and Into: the
--             merged image.
--             Png/Files: Read over several IDAT chunks, decode, Decode and DecodeConfig;
--             Png/Files/Shrinks and Png/Files/Fuel: the rounds of their loops. Png/Encode: Encode,
--             with the choice of the mode, the palette and the IDAT chunks; Png/Encode/Colors,
--             PaletteChunks and Palette: a palette, written and read.
-- Base        numbers, lists and byte strings, and the results of fallible code: a value, an error
--             or a panic.
--
-- Integers are natural numbers with the wrap-around of their Go type written out: uint8 in package
-- png, uint16 and uint32 in the raw header, uint32 in the hash and in the counter of connections,
-- and the 64-bit int of amd64. Endless loops take a list of the device's shots (serveRaw) or a
-- number of rounds (serveVideo), so that a theorem about any list or number speaks of any prefix of
-- a run; no theorem depends on one that is too small. The loops of the PNG decoder have one round
-- more than the input has bytes: each round takes bytes, so that this is enough. A loop that used up
-- its rounds would give the error `endless`, which is no error of the program. What the device
-- shows at each read is an argument, as are the replies of system calls, the answer of the proxied
-- server, the flags, the environment, what Encode writes of a picture for a response until it returns
-- (`whole`) or panics (`torn`), which Serve/Video/Decoded takes from the model of package png, the
-- checksum of hash/crc32, and zlib: the encoder's result is what zlib is given, and the
-- decoder's `inflate` says of the bytes that zlib has read whether it wants more, is done, or
-- rejects them; IsZlib in Png/RoundTrip/Encoded says that the second undoes the first. An io.Writer
-- takes a number of writes, `budget`.
--
-- Not modelled: the limits of the memory, but for the buffer of a proxied picture; the registration
-- of internal/png's format with package image; the page that serveIndex sends and the log messages;
-- the other constants and types of internal/fb (generated from the headers of the kernel) and the
-- variant for arm; and the files of contrib.
pub mod Base
pub mod Image
pub mod Fb
pub mod Dedup
pub mod Handler
pub mod Serve
pub mod Proxy
pub mod Listener
pub mod Startup
pub mod Png
