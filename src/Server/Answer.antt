-- ===== src/Server/Answer.antt =====
-- Every answer of `requestHandle` of multiThreadedWebServer/request.c, from the request to what
-- `clientPrint` of client.c prints of it.
mod Tests
use mathlib.Core.Path.{subst}
use cos.Server.Client.Reply.{request_serve_static-some}
use cos.Base.{
  ◌∙◌, none, ℕ, ◌+◌, ◌≤◌, ◌<◌, ◌≡◌, refl, Option, some, List, [], ◌∷◌, ◌++◌, arith, length,
  length-append, Str, codes,
}
use cos.Server.Request.{Request}
use cos.Server.Response.{
  Reply, error, static, dynamic, error_body, request_error, request_serve_static,
  request_serve_dynamic, request_handle,
}
use cos.Server.Client.Exchange.{NoNewline}
use cos.Server.Response.Handle.{
  Handled, other_method, missing, forbidden, program, request_handle-Handled,
}
use cos.Server.Client.Sends.{Sends, flatten}
use cos.Server.Client.Framed.{Printed, body-bound}
use cos.Server.Client.Reply.{
  no_newline, static_lines, serve_static-lines, client_print-serve_static,
}
use cos.Server.Client.Refusal.{error_lines, request_error-lines, client_print-request_error}
use cos.Server.Cgi.{cgi_reply}
use cos.Server.Cgi.Reply.{dynamic_lines, dynamic-lines, client_print-serve_dynamic}
use cos.Server.Cgi.Reply.{dynamic_reply}
use cos.Base.{up_to_zero}
use cos.Base.{ap}
use cos.Server.Response.{static_writes}

-- The bytes of the writes, if there are any.
abbrev bytes_of : Option (List Str) → Option Str
bytes_of none = none
bytes_of (some writes) = some (flatten writes)

written_bytes :
    (o : Option (List Str)) (bytes : Str)
    → bytes_of o ≡ some bytes
    → (writes : List Str) × (o ≡ some writes) × (bytes ≡ flatten writes)
written_bytes none bytes e = cc
written_bytes (some writes) bytes e = (writes, refl, cc)

-- The bytes that a client gets, if the server does not end: `mapped` is the file in memory, where it
-- gets there, `printed` is what the program prints.
unfoldable pub reply_bytes : Reply → (mapped : Option Str) → (printed : Str) → Option Str
reply_bytes (error cause errnum shortmsg longmsg) mapped printed =
    some (flatten (request_error cause errnum shortmsg longmsg))
reply_bytes (static filename filesize) mapped printed =
    bytes_of (request_serve_static filename filesize mapped)
reply_bytes (dynamic filename cgiargs) mapped printed =
    some (flatten (request_serve_dynamic filename cgiargs).0 ++ printed)

-- What there is to see of each reply: the lines of the head, the lengths that are found, the body.
pub data Shown (file content : Str) : Reply → List Str → List ℕ → Str → Type 0 where
  an_error :
      (cause errnum shortmsg longmsg : Str)
      → Shown file content
          (error cause errnum shortmsg longmsg)
          (error_lines errnum shortmsg (length (error_body cause errnum shortmsg longmsg)))
          (length (error_body cause errnum shortmsg longmsg) ∷ [])
          (error_body cause errnum shortmsg longmsg)
  a_file :
      (filename : Str) (filesize : ℕ)
      → Shown file content
          (static filename filesize)
          (static_lines filename filesize)
          (filesize ∷ [])
          file
  a_program :
      (filename cgiargs : Str)
      → Shown file content (dynamic filename cgiargs) (dynamic_lines (length content)) [] content

module _ {ℓ} {S : Type ℓ} (readlineb : S → Option (Str × S)) where
  -- What the client prints of a reply.
  pub record Seen (reply : Reply) (file content : Str) (fuel : ℕ) (s : S) : Type ℓ where
    pub lines : List Str
    pub lengths : List ℕ
    pub body : Str
    pub shown : Shown file content reply lines lengths body
    pub printed : Printed readlineb fuel lines lengths body s

  Sent : Reply → (file content : Str) → (fuel : ℕ) → S → Type ℓ
  Sent reply file content fuel s =
      (bytes : Str) × (reply_bytes reply (some file) (cgi_reply content) ≡ some bytes)
      × (length bytes < 2147483648)
      × (length bytes + 5 ≤ fuel)
      × Sends readlineb s bytes

  static-bytes :
      (filename : Str) (filesize : ℕ) (file bytes : Str)
      → bytes_of (request_serve_static filename filesize (some file)) ≡ some bytes
      → bytes ≡ flatten (static_writes filename filesize file)
  static-bytes filename filesize file bytes e =
      let (writes, made, same) =
        written_bytes (request_serve_static filename filesize (some file)) bytes e in
      same ∙ ap flatten (request_serve_static-some filename filesize file writes made)

  error-Seen :
      (cause errnum shortmsg longmsg file content : Str) (fuel : ℕ) (s : S)
      → NoNewline errnum
      → NoNewline shortmsg
      → up_to_zero errnum ≡ errnum
      → up_to_zero shortmsg ≡ shortmsg
      → Sent (error cause errnum shortmsg longmsg) file content fuel s
      → Seen (error cause errnum shortmsg longmsg) file content fuel s
  unfolding reply_bytes Sent
  error-Seen cause errnum shortmsg longmsg file content fuel s plain plain' w w'
        (bytes, answered, small, enough, sent) =
      let body = error_body cause errnum shortmsg longmsg in
      let text = flatten (request_error cause errnum shortmsg longmsg) in
      let same : bytes ≡ text = cc in
      let long = ap length same in
      let lines = error_lines errnum shortmsg (length body) in
      let bound = body-bound lines body _ (request_error-lines cause errnum shortmsg longmsg) in
      record {
        lines = lines;
        lengths = length body ∷ [];
        body = body;
        shown = an_error cause errnum shortmsg longmsg;
        printed =
            client_print-request_error readlineb fuel cause errnum shortmsg longmsg s plain plain' w
              w' (omega (arith, bound, small, long)) (omega (arith, bound, enough, long))
              (subst (Sends readlineb s) same sent);
      }

  static-Seen :
      (filename : Str) (filesize : ℕ) (file content : Str) (fuel : ℕ) (s : S)
      → length file ≡ filesize
      → Sent (static filename filesize) file content fuel s
      → Seen (static filename filesize) file content fuel s
  unfolding reply_bytes Sent
  static-Seen filename filesize file content fuel s whole (bytes, answered, small, enough, sent) =
      let same = static-bytes filename filesize file bytes answered in
      let long = ap length same in
      let lines = static_lines filename filesize in
      let bound = body-bound lines file _ (serve_static-lines filename filesize file) in
      record {
        lines = lines;
        lengths = filesize ∷ [];
        body = file;
        shown = a_file filename filesize;
        printed =
            client_print-serve_static readlineb fuel filename filesize file s
              (omega (arith, bound, small, whole, long)) (omega (arith, bound, enough, long))
              (subst (Sends readlineb s) same sent);
      }

  dynamic-Seen :
      (filename cgiargs file content : Str) (fuel : ℕ) (s : S)
      → Sent (dynamic filename cgiargs) file content fuel s
      → Seen (dynamic filename cgiargs) file content fuel s
  unfolding reply_bytes Sent
  dynamic-Seen filename cgiargs file content fuel s (bytes, answered, small, enough, sent) =
      let text = dynamic_reply filename cgiargs (cgi_reply content) in
      let same : bytes ≡ text = cc in
      let long = ap length same in
      let lines = dynamic_lines (length content) in
      let bound = body-bound lines content _ (dynamic-lines filename cgiargs content) in
      record {
        lines = lines;
        lengths = [];
        body = content;
        shown = a_program filename cgiargs;
        printed =
            client_print-serve_dynamic readlineb fuel filename cgiargs content s
              (omega (arith, bound, enough, long)) (subst (Sends readlineb s) same sent);
      }

  Handled-Seen :
      (r : Request) (reply : Reply) (file content : Str) (fuel : ℕ) (s : S)
      → Handled r reply
      → length file ≡ r.st_size
      → Sent reply file content fuel s
      → Seen reply file content fuel s
  Handled-Seen r reply file content fuel s (other_method longmsg other) whole sent =
      error-Seen r.method (codes "501") (codes "Not Implemented") longmsg file content fuel s
        (no_newline (codes "501") refl) (no_newline (codes "Not Implemented") refl) refl refl sent
  Handled-Seen r reply file content fuel s (missing longmsg get nothing) whole sent =
      error-Seen r.filename (codes "404") (codes "Not found") longmsg file content fuel s
        (no_newline (codes "404") refl) (no_newline (codes "Not found") refl) refl refl sent
  Handled-Seen r reply file content fuel s (forbidden longmsg get there no_right) whole sent =
      error-Seen r.filename (codes "403") (codes "Forbidden") longmsg file content fuel s
        (no_newline (codes "403") refl) (no_newline (codes "Forbidden") refl) refl refl sent
  Handled-Seen r reply file content fuel s (Handled.file get there is regular reads) whole sent =
      static-Seen r.filename r.st_size file content fuel s whole sent
  Handled-Seen r reply file content fuel s (program get there is regular runs) whole sent =
      dynamic-Seen r.filename r.cgiargs file content fuel s sent

  -- Whatever `requestHandle` answers without the end of the server, in less than 2 ^ 31 bytes: if the
  -- client gets these bytes, where `file` is the file in memory, as long as `stat` says, and `content`
  -- the body that the CGI program prints, it prints the lines of the head and then those of the body,
  -- each up to its first zero byte; the body is the error page, the file or the content;
  -- the length that it finds is that of the page or of the file, and of a program it finds none. The
  -- answer is an error, a file or a program as the request and the file have it.
  pub request_handle-Seen :
      (r : Request) (file content bytes : Str) (fuel : ℕ) (s : S)
      → length file ≡ r.st_size
      → reply_bytes (request_handle r) (some file) (cgi_reply content) ≡ some bytes
      → length bytes < 2147483648
      → length bytes + 5 ≤ fuel
      → Sends readlineb s bytes
      → Handled r (request_handle r) × Seen (request_handle r) file content fuel s
  unfolding Sent
  request_handle-Seen r file content bytes fuel s whole answered small enough sent =
      let handled = request_handle-Handled r in
      (
        handled,
        Handled-Seen r (request_handle r) file content fuel s handled whole
            (bytes, answered, small, enough, sent),
      )
