-- ===== src/Source/Http.antt =====
-- `HTTPRangeReader` (geotiff/http_reader.go): a file behind HTTP range requests.
pub mod Serving
use gedtm30api.Base.{
  ℕ, zero, suc, ◌+◌, ◌-◌, String, Bool, true, false, ◌||◌, Option, none, some, List, [], ◌∷◌,
  length, take, ltb, leb, ◌==◌, not, if◌then◌else◌,
}
use gedtm30api.Base.Int.{ℤ, pos, negsuc, pos_part, add64, sub64, ltb_ℤ, leb_ℤ}
use gedtm30api.Base.Run.{
  Error, eof, unexpected_eof, text, Run, ok, err, panic, hang, ◌>>=◌, ◌>>◌, fail_if, wrap_error,
}
use gedtm30api.Base.Io.{Io, continue}
use gedtm30api.Source.Reader.{Read, Reader, Whence, short_error}

-- The answer to a GET: its status, and as much of the body as comes.
pub record Response : Type 0 where
  pub status : ℕ
  pub body : List ℕ

-- The answer to a HEAD; `accepts_ranges` is whether `Accept-Ranges` is `bytes`.
pub record HeadResponse : Type 0 where
  pub status : ℕ
  pub accepts_ranges : Bool
  pub content_length : ℤ

-- The client and the server behind it: a HEAD of the URL, and a GET of the bytes from `first` up
-- to and with `last`.
pub record Client : Type 0 where
  pub head : Run HeadResponse
  pub get : ℤ → ℤ → Run Response

pub record HttpRangeReader : Type 0 where
  pub size : ℤ
  pub offset : ℤ

-- `NewHTTPRangeReader`
pub new_http_range_reader : Client → Run HttpRangeReader
new_http_range_reader client = do
  resp ← wrap_error "http head request failed: " client.head
  fail_if (not (resp.status == 200)) (text "bad status for http head request: ")
  fail_if (not resp.accepts_ranges) (text "server does not accept byte range requests")
  fail_if (leb_ℤ resp.content_length (pos 0))
      (text "could not determine content length or file is empty")
  ok (record { size = resp.content_length; offset = pos 0 })

-- io.ReadFull of `n` bytes from a body.
pub read_body : ℕ → List ℕ → Read
read_body n body =
    if leb n (length body)
    then record { bytes = take n body; error = none }
    else record { bytes = body; error = some (short_error body eof) }

failed : Error → Read
failed e = record { bytes = []; error = some e }

response_read : ℕ → Run Response → Run Read
response_read n (ok resp) = ok (
    if resp.status == 206
    then read_body n resp.body
    else failed (text "expected status 206 Partial Content, got: "))
response_read n (err e) = ok (failed e)
response_read n panic = panic
response_read n hang = hang

module _ (client : Client) where
  -- `readAt`
  pub http_read_at : ℤ → ℕ → Io HttpRangeReader Read
  http_read_at off n h =
      let wanted = pos n in
      let to_read = if ltb_ℤ h.size (add64 off wanted) then sub64 h.size off else wanted in
      let range_end = sub64 (add64 off to_read) (pos 1) in
      let answer = response_read (pos_part to_read) (client.get off range_end) in
      if n == 0
      then (ok (record { bytes = []; error = none }), h)
      else if ltb_ℤ off (pos 0)
      then (ok (failed (text "http.readAt: invalid offset ")), h)
      else if leb_ℤ h.size off
      then (ok (failed eof), h)
      else (answer, h)

  moved : Read → Io HttpRangeReader Read
  moved read h =
      if ltb 0 (length read.bytes)
      then (ok read, record h { offset = add64 h.offset (pos (length read.bytes)) })
      else (ok read, h)

  -- `Read`
  pub http_read : ℕ → Io HttpRangeReader Read
  http_read n h =
      let (read, h') = http_read_at h.offset n h in
      if leb_ℤ h.size h.offset then (ok (failed eof), h) else continue read moved h'

seek_position : HttpRangeReader → ℤ → Whence → Run ℤ
seek_position h off Whence.start = ok off
seek_position h off Whence.current = ok (add64 h.offset off)
seek_position h off Whence.end = ok (add64 h.size off)
seek_position h off (Whence.other w) = err (text "invalid whence")

seek_to : ℤ → Io HttpRangeReader ℤ
seek_to (pos off) h = (ok (pos off), record h { offset = pos off })
seek_to (negsuc off) h = (err (text "cannot seek to negative offset"), h)

-- `Seek`
pub http_seek : ℤ → Whence → Io HttpRangeReader ℤ
http_seek off whence h = continue (seek_position h off whence) seek_to h

pub http_reader : Client → Reader HttpRangeReader
http_reader client = record {
  read = http_read client;
  seek = http_seek;
  read_at = http_read_at client;
}
