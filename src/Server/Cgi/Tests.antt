-- ===== src/Server/Cgi/Tests.antt =====
-- The theorem on the CGI program of multiThreadedWebServer, at a clock that counts its readings.
use cos.Base.{ℕ, Bool, ◌-◌, refl, some, List, [], ◌∷◌, ◌++◌, arith, Str, codes, ltb, if◌then◌else◌}
use cos.Server.Response.{decimal, decimal_from, request_serve_dynamic}
use cos.Server.Receive.{skip_spaces}
use cos.Server.Client.{read_digits}
use cos.Server.Client.Sends.{Sends}
use cos.Server.Client.Listed.{pop, ended-Sends}
use cos.Server.Client.Framed.{ended}
use cos.Server.Cgi.{
  atoi, skip_ampersands, to_ampersand, first_token, cgi_reply, spinfor_of, spin, content_of,
  cgi_main,
}
use cos.Server.Cgi.Reply.{Spun, serve_dynamic-cgi_main, dynamic_reply, written}

-- Whole seconds, none below 0.
abbrev of_int : Bool × ℕ → ℕ
of_int (negative, n) = if negative then 0 else n

abbrev clock : ℕ → ℕ
clock i = i

abbrev query : Str
query = codes "1&x"

abbrev reply : List Str
reply =
    (codes "HTTP/1.0 200 OK" ++ 13 ∷ [])
    ∷ (codes "Server: blg312e Web Server" ++ 13 ∷ [])
    ∷ (codes "Content-length: 120" ++ 13 ∷ [])
    ∷ (codes "Content-type: text/html" ++ 13 ∷ [])
    ∷ (13 ∷ [])
    ∷ (codes "<p>Welcome to the CGI program</p>" ++ 13 ∷ [])
    ∷ (codes "<p>My only purpose is to waste time on the server!</p>" ++ 13 ∷ [])
    ∷ (codes "<p>I spun for 2 seconds</p>" ++ 13 ∷ [])
    ∷ []

reply-Sends : Sends pop (ended reply) (
    dynamic_reply
      (codes "./output.cgi")
      query
      (written (cgi_main of_int ◌-◌ ltb decimal 3 clock (some query))))
unfolding request_serve_dynamic cgi_main spin spinfor_of first_token skip_ampersands to_ampersand
    atoi skip_spaces read_digits content_of cgi_reply decimal decimal_from
reply-Sends = ended-Sends reply refl

serve_dynamic-cgi_main_example :
    Spun of_int ◌-◌ ltb decimal pop 3 200 clock (some query) 0 (ended reply)
unfolding request_serve_dynamic cgi_main spin spinfor_of first_token skip_ampersands to_ampersand
    atoi skip_spaces read_digits content_of cgi_reply decimal decimal_from
serve_dynamic-cgi_main_example =
    serve_dynamic-cgi_main of_int ◌-◌ ltb decimal pop 3 200 clock (codes "./output.cgi") query 0
      (ended reply) refl (omega arith) (omega arith) reply-Sends
