-- ===== src/Server/Answer/Tests.antt =====
-- The theorem on the answers of multiThreadedWebServer, at a request for a file that is not there.
use cos.Base.{◌≡◌, false, true, none, some, List, [], ◌∷◌, ◌++◌, refl, arith, Str, codes}
use cos.Server.Request.{Request}
use cos.Server.Response.{request_handle, request_error, decimal, decimal_from}
use cos.Server.Response.Handle.{Handled}
use cos.Server.Client.Sends.{Sends}
use cos.Server.Client.Framed.{ended}
use cos.Server.Client.Listed.{pop, ended-Sends}
use cos.Server.Cgi.{cgi_reply}
use cos.Server.Answer.{reply_bytes, Seen, request_handle-Seen}
use cos.Server.Client.Sends.{flatten}

abbrev request : Request
request = record {
  connfd = some 4;
  is_static = true;
  stat_return = false;
  st_size = 0;
  st_mtime = none;
  st_mode = 0;
  buf = [];
  method = codes "GET";
  uri = codes "/x";
  version = codes "HTTP/1.1";
  filename = codes "./x";
  cgiargs = [];
}

abbrev page : List Str
page =
    (codes "HTTP/1.0 404 Not found" ++ 13 ∷ [])
    ∷ (codes "Content-Type: text/html" ++ 13 ∷ [])
    ∷ (codes "Content-Length: 145" ++ 13 ∷ [])
    ∷ (13 ∷ [])
    ∷ (codes "<html><title>blg312e Error</title><body bgcolor=fffff>" ++ 13 ∷ [])
    ∷ (codes "404: Not found" ++ 13 ∷ [])
    ∷ (codes "<p>blg312e Server could not find this file: ./x" ++ 13 ∷ [])
    ∷ (codes "<hr>blg312e Web Server" ++ 13 ∷ [])
    ∷ []

abbrev reply : Str
reply = flatten (
    request_error (codes "./x") (codes "404") (codes "Not found")
      (codes "blg312e Server could not find this file"))

replied : reply_bytes (request_handle request) (some []) (cgi_reply []) ≡ some reply
unfolding request_handle reply_bytes
replied = refl

page-Sends : Sends pop (ended page) reply
unfolding request_error decimal decimal_from
page-Sends = ended-Sends page refl

request_handle-Seen_example :
    Handled request (request_handle request)
    × Seen pop (request_handle request) [] [] 300 (ended page)
unfolding request_handle reply_bytes request_error decimal decimal_from
request_handle-Seen_example =
    request_handle-Seen pop request [] [] reply 300 (ended page) refl replied (omega arith)
      (omega arith) page-Sends
