-- ===== src/Server/Response.antt =====
-- multiThreadedWebServer/request.c: `requestHandle`, and the bytes that `requestError` and
-- `requestServeStatic` write. `sprintf(buf, "%s...", buf)` appends, as the code means it to.
pub mod Handle
use cos.Base.{
  ℕ, zero, suc, ◌+◌, ◌/◌, ◌%◌, Bool, not, ◌&&◌, ◌||◌, List, [], ◌∷◌, ◌++◌, ◌==◌, leb, if◌then◌else◌,
  length, codes, str_eq, map,
}
use cos.Server.Request.{Request}
use cos.Base.{Str}
use cos.Server.Uri.{FileType, html, gif, jpeg, plain, request_get_filetype}
use cos.Base.{Option}
use cos.Base.{some}
use cos.Base.{none}

abbrev pub to_lower : ℕ → ℕ
to_lower c = if leb b'A' c && leb c b'Z' then c + 32 else c

-- Whether `strcasecmp(s, t)` is 0.
abbrev pub same_ignoring_case : Str → Str → Bool
same_ignoring_case s t = str_eq (map to_lower s) (map to_lower t)

-- S_ISREG(mode), S_IRUSR & mode, S_IXUSR & mode
abbrev pub is_regular : ℕ → Bool
is_regular mode = mode / 4096 % 16 == 8

abbrev pub user_reads : ℕ → Bool
user_reads mode = mode / 256 % 2 == 1

abbrev pub user_runs : ℕ → Bool
user_runs mode = mode / 64 % 2 == 1

-- The calls of `requestError`, `requestServeStatic` and `requestServeDynamic`.
pub data Reply : Type 0 where
  error : (cause errnum shortmsg longmsg : Str) → Reply
  static : (filename : Str) → (filesize : ℕ) → Reply
  dynamic : (filename cgiargs : Str) → Reply

unfoldable pub request_handle : Request → Reply
request_handle r =
    if not (same_ignoring_case r.method (codes "GET"))
    then error r.method (codes "501") (codes "Not Implemented")
        (codes "blg312e Server does not implement this method")
    else if not r.stat_return
    then error r.filename (codes "404") (codes "Not found")
        (codes "blg312e Server could not find this file")
    else if r.is_static
    then (if not (is_regular r.st_mode) || not (user_reads r.st_mode)
        then error r.filename (codes "403") (codes "Forbidden")
            (codes "blg312e Server could not read this file")
        else static r.filename r.st_size)
    else if not (is_regular r.st_mode) || not (user_runs r.st_mode)
    then error r.filename (codes "403") (codes "Forbidden")
        (codes "blg312e Server could not run this CGI program")
    else dynamic r.filename r.cgiargs

-- `%lu`, `%d` of a number that is not negative
unfoldable pub decimal_from : ℕ → ℕ → Str → Str
decimal_from zero n acc = acc
decimal_from (suc k) n acc =
    let rest = decimal_from k (n / 10) ((48 + n % 10) ∷ acc) in
    if n / 10 == 0 then (48 + n % 10) ∷ acc else rest

unfoldable pub decimal : ℕ → Str
unfolding decimal_from
decimal n = decimal_from (suc n) n []

abbrev pub crlf : Str
crlf = 13 ∷ 10 ∷ []

abbrev pub error_body : (cause errnum shortmsg longmsg : Str) → Str
error_body cause errnum shortmsg longmsg =
    codes "<html><title>blg312e Error</title>"
    ++ (codes "<body bgcolor=fffff>"
        ++ (crlf
            ++ (errnum
                ++ (codes ": "
                    ++ (shortmsg
                        ++ (crlf
                            ++ (codes "<p>"
                                ++ (longmsg
                                    ++ (codes ": "
                                        ++ (cause
                                            ++ (crlf
                                                ++ (codes "<hr>blg312e Web Server"
                                                    ++ crlf))))))))))))

abbrev pub length_line : ℕ → Str
length_line n = codes "Content-Length: " ++ (decimal n ++ crlf)

-- What `requestError` writes, in the order of its calls of `Rio_writen`.
unfoldable pub request_error : (cause errnum shortmsg longmsg : Str) → List Str
request_error cause errnum shortmsg longmsg =
    let body = error_body cause errnum shortmsg longmsg in
    (codes "HTTP/1.0 " ++ (errnum ++ (codes " " ++ (shortmsg ++ crlf))))
    ∷ (codes "Content-Type: text/html" ++ crlf)
    ∷ (length_line (length body) ++ crlf)
    ∷ body
    ∷ []

abbrev pub filetype_name : FileType → Str
filetype_name html = codes "text/html"
filetype_name gif = codes "image/gif"
filetype_name jpeg = codes "image/jpeg"
filetype_name plain = codes "text/plain"

-- The two writes of `requestServeStatic`, where `file` is the memory that `Mmap` returns: `filesize`
-- bytes.
unfoldable pub static_writes : (filename : Str) → (filesize : ℕ) → (file : Str) → List Str
static_writes filename filesize file =
    (codes "HTTP/1.0 200 OK"
      ++ (crlf
          ++ (codes "Server: blg312e Web Server"
              ++ (crlf
                  ++ (length_line filesize
                      ++ (codes "Content-Type: "
                          ++ (filetype_name (request_get_filetype filename) ++ (crlf ++ crlf))))))))
    ∷ file
    ∷ []

-- What `requestServeStatic` writes. `mapped` is the file in memory, or `none` where `Open` or `Mmap`
-- fails, and `mmap` fails for no bytes at all: then the server ends with `unix_error`, which is `none`.
unfoldable pub request_serve_static :
    (filename : Str) → (filesize : ℕ) → (mapped : Option Str) → Option (List Str)
unfolding static_writes
request_serve_static filename filesize none = none
request_serve_static filename filesize (some file) =
    if filesize == 0 then none else some (static_writes filename filesize file)

-- A CGI program, with the value of QUERY_STRING; it writes to the socket and has no arguments.
pub record Cgi : Type 0 where
  pub filename : Str
  pub query_string : Str

-- What `requestServeDynamic` writes, and the program that its child becomes.
unfoldable pub request_serve_dynamic : (filename cgiargs : Str) → List Str × Cgi
request_serve_dynamic filename cgiargs = (
  (codes "HTTP/1.0 200 OK" ++ (crlf ++ (codes "Server: blg312e Web Server" ++ crlf))) ∷ [],
  record { filename = filename; query_string = cgiargs },
)
