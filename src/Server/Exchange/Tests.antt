-- ===== src/Server/Exchange/Tests.antt =====
-- The theorems on requests and responses of multiThreadedWebServer, at concrete connections.
use cos.Server.Client.Sends.{Sends, flatten}
use cos.Server.Client.Threads.{Asked, client_main, client_main-Asked}
use cos.Server.Client.Listed.{pop}
use cos.Server.Client.Reply.{no_newline}
use cos.Server.Response.{request_serve_static}
use cos.Server.Queue.{Ring, empty_ring}
use cos.Server.Queue.Put.{empty_ring-Holds}
use cos.Server.Exchange.{FileStatus, Exchanged, exchange}
use cos.Base.{◌≡◌, refl, true, none, some, List, [], ◌∷◌, ◌++◌, arith, Str, codes}
use cos.Server.Request.{Request}
use cos.Server.Uri.{Target, request_parse_uri, last_char}
use cos.Server.Response.{crlf, decimal, decimal_from, length_line, request_handle}
use cos.Server.Response.Handle.{Handled, request_handle-Handled}
use cos.Server.Receive.{read_request, request_readhdrs}
use cos.Server.Receive.Headers.{Endless, request_readhdrs-Endless}
use cos.Server.Client.{client_send}
use cos.Server.Client.Print.{Head, Body}
use cos.Server.Client.Exchange.{
  Delivers, request_line, host_line, request_line-plain, host_line-plain, read_request-client_send,
}
use cos.Server.Uri.{request_get_filetype}
use cos.Server.Response.{static_writes}

abbrev slot : Request
slot = record {
  connfd = none;
  is_static = true;
  stat_return = true;
  st_size = 7;
  st_mtime = some 1;
  st_mode = 33188;
  buf = [];
  method = codes "get";
  uri = codes "/1.txt";
  version = [];
  filename = codes "./1.txt";
  cgiargs = [];
}

abbrev host : Str
host = codes "h"

abbrev path : Str
path = codes "/1.txt"

abbrev sent_lines : List Str
sent_lines = (request_line path ++ 10 ∷ []) ∷ (host_line host ++ 10 ∷ []) ∷ crlf ∷ []

sent-Delivers : Delivers pop sent_lines (client_send host path) []
unfolding client_send
sent-Delivers =
    Delivers.line (request_line path) (client_send_rest) sent_lines
      ((host_line host ++ 10 ∷ []) ∷ crlf ∷ []) [] refl
      (request_line-plain path ((refl, (refl, (refl, (refl, (refl, (refl, tt))))))))
      (Delivers.line (host_line host) crlf ((host_line host ++ 10 ∷ []) ∷ crlf ∷ []) (crlf ∷ []) []
        refl (host_line-plain host (refl, tt))
        (Delivers.line (13 ∷ []) [] (crlf ∷ []) [] [] refl (refl, tt) (Delivers.done [])))
  where
    client_send_rest : Str
    client_send_rest = host_line host ++ 10 ∷ crlf

abbrev target : Target
target = record { is_static = true; filename = codes "./1.txt"; cgiargs = []; uri_after = path }

parses : request_parse_uri path ≡ some target
unfolding request_parse_uri last_char
parses = refl

read_request-client_send_example :
    read_request pop (λ r. r) 2 sent_lines slot
    ≡ some (
      record slot {
        buf = request_line path ++ 10 ∷ [];
        method = codes "GET";
        version = codes "HTTP/1.1";
      },
      [],
    )
read_request-client_send_example =
    read_request-client_send pop (λ r. r) host path target slot sent_lines [] (λ e. cc)
      ((refl, (refl, (refl, (refl, (refl, (refl, tt))))))) (refl, tt) parses sent-Delivers

request_handle-Handled_example : Handled slot (request_handle slot)
request_handle-Handled_example = request_handle-Handled slot

cut_off : Endless pop (codes "host: h\r\n" ∷ [])
cut_off = Endless.more (codes "host: h\r\n") _ [] refl (λ e. cc) (Endless.at_end [] refl)

request_readhdrs-Endless_example : request_readhdrs pop 9 [] (codes "host: h\r\n" ∷ []) ≡ none
request_readhdrs-Endless_example =
    request_readhdrs-Endless pop 9 [] (codes "host: h\r\n" ∷ []) (λ e. cc) cut_off

reply-Head :
    Head pop
      (codes "HTTP/1.0 200 OK\r\n" ∷ length_line 3 ∷ [])
      (codes "HTTP/1.0 200 OK\r\n" ∷ length_line 3 ∷ crlf ∷ codes "abc" ∷ [])
      (codes "abc" ∷ [])
unfolding decimal decimal_from
reply-Head =
    Head.header (codes "HTTP/1.0 200 OK\r\n") _ _ _ _ _ refl refl (λ e. cc)
      (Head.header (length_line 3) _ _ _ _ _ refl refl (λ e. cc) (Head.empty_line _ _ _ refl refl))

reply-Body : Body pop (codes "abc" ∷ []) (codes "abc" ∷ [])
reply-Body = Body.body_line (codes "abc") [] _ [] refl (Body.at_end [] refl)

abbrev contents : Str
contents = codes "abc"

-- The reply as the client's connection gives it.
abbrev reply : List Str
reply =
    codes "HTTP/1.0 200 OK\r\n"
    ∷ codes "Server: blg312e Web Server\r\n"
    ∷ codes "Content-Length: 3\r\n"
    ∷ codes "Content-Type: text/plain\r\n"
    ∷ crlf
    ∷ contents
    ∷ []

reply-writes :
    request_serve_static (codes "./1.txt") 3 (some contents)
    ≡ some (static_writes (codes "./1.txt") 3 contents)
unfolding request_serve_static
reply-writes = refl

reply-Sends : Sends pop reply (flatten (static_writes (codes "./1.txt") 3 contents))
unfolding static_writes decimal decimal_from request_get_filetype
reply-Sends =
    Sends.line (codes "HTTP/1.0 200 OK\r") _ _ _ refl (no_newline (codes "HTTP/1.0 200 OK\r") refl)
      (Sends.line (codes "Server: blg312e Web Server\r") _ _ _ refl
        (no_newline (codes "Server: blg312e Web Server\r") refl)
        (Sends.line (codes "Content-Length: 3\r") _ _ _ refl
          (no_newline (codes "Content-Length: 3\r") refl)
          (Sends.line (codes "Content-Type: text/plain\r") _ _ _ refl
            (no_newline (codes "Content-Type: text/plain\r") refl)
            (Sends.line (13 ∷ []) _ _ _ refl (refl, tt)
              (Sends.last contents _ [] refl (no_newline contents refl) (λ e. cc) refl)))))

abbrev small_file : FileStatus
small_file = record { size = 3; mtime = some 1; mode = 33188 }

abbrev ring : Ring
ring = empty_ring 2 (λ _. slot)

exchange_example : Exchanged pop small_file target host path contents 1 7 ring sent_lines [] reply
exchange_example =
    exchange pop small_file target host path contents (static_writes (codes "./1.txt") 3 contents) 1
      7 ring sent_lines [] reply (λ e. cc) ((refl, (refl, (refl, (refl, (refl, (refl, tt)))))))
      (refl, tt) parses refl refl refl (omega arith) (empty_ring-Holds 2 (λ _. slot) (omega arith))
      (omega arith) sent-Delivers reply-writes reply-Sends

abbrev arguments : List Str
arguments = codes "h" ∷ codes "10000" ∷ codes "/" ∷ codes "2" ∷ []

client_main-Asked_example : Asked arguments (client_main arguments)
client_main-Asked_example = client_main-Asked arguments
