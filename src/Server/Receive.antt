-- ===== src/Server/Receive.antt =====
-- What `queue_put` of multiThreadedWebServer/server.c reads from a connection: the request line, and
-- by `requestReadhdrs` of request.c the headers. `Rio_readlineb` is a parameter on the states of a
-- connection: the line that it reads, with its newline, or `none` at the end of the input, where it
-- leaves the buffer as it is.
pub mod Headers
use cos.Base.{is_space}
use cos.Base.{
  ℕ, zero, suc, ◌+◌, Bool, true, false, ◌&&◌, ◌||◌, ◌==◌, leb, Option, none, some, List, [], ◌∷◌,
  ◌++◌, if◌then◌else◌, Str, codes, str_eq,
}
use cos.Server.Request.{Request}
use cos.Server.Response.{crlf}
use cos.Server.Uri.{Target, request_parse_uri}

unfoldable pub skip_spaces : Str → Str
skip_spaces [] = []
skip_spaces (c ∷ cs) = if is_space c then skip_spaces cs else c ∷ cs

unfoldable pub word : Str → Str
word [] = []
word (c ∷ cs) = if is_space c then [] else c ∷ word cs

unfoldable pub behind_word : Str → Str
behind_word [] = []
behind_word (c ∷ cs) = if is_space c then c ∷ cs else behind_word cs

-- One `%s` of `sscanf`: what it reads into a string that holds `old`, which it leaves where no word is
-- left, and the rest.
unfoldable pub scan_word : (old : Str) → Str → Str × Str
unfolding skip_spaces word behind_word
scan_word old s = elim (skip_spaces s) [
  | [] ↦ (old, [])
  | c ∷ cs ↦ (word (c ∷ cs), behind_word (c ∷ cs))
]

-- `sscanf(buf, "%s %s %s", method, uri, version)`
unfoldable pub scan_request_line : (buf : Str) → Request → Request
unfolding scan_word
scan_request_line buf r =
    let m = scan_word r.method buf in
    let u = scan_word r.uri m.1 in
    record r { buf = buf; method = m.0; uri = u.0; version = (scan_word r.version u.1).0 }

-- `requestParseURI` on the fields of the slot, and `stat`; `none` is a read before an empty URI.
unfoldable pub set_target : (stat : Request → Request) → Request → Option Request
set_target stat r = elim (request_parse_uri r.uri) [
  | none ↦ none
  | some target ↦ some (
      stat (record r {
        uri = target.uri_after;
        is_static = target.is_static;
        filename = target.filename;
        cgiargs = target.cgiargs;
      }))
]

module _ {ℓ} {S : Type ℓ} (readlineb : S → Option (Str × S)) where
  -- The buffer and the connection behind a call of `Rio_readlineb`.
  abbrev pub next_line : Str → S → Str × S
  next_line buf s = elim (readlineb s) [ none ↦ (buf, s) | some (line, t) ↦ (line, t) ]

  -- The loop of `requestReadhdrs` on fuel; `none` is that it has not ended.
  unfoldable pub headers_loop : ℕ → Str → S → Option S
  headers_loop zero buf s = none
  headers_loop (suc k) buf s =
      let (buf', t) = next_line buf s in
      let rest = headers_loop k buf' t in if str_eq buf crlf then some s else rest

  unfoldable pub request_readhdrs : ℕ → Str → S → Option S
  unfolding headers_loop
  request_readhdrs fuel buf s = let (buf', t) = next_line buf s in headers_loop fuel buf' t

  -- The fields of the slot that `queue_put` fills before `connfd`. `none` is that the headers have not
  -- ended or that an empty URI is read before its start.
  unfoldable pub read_request : (stat : Request → Request) → ℕ → S → Request → Option (Request × S)
  read_request stat fuel s r =
      let (buf, t) = next_line r.buf s in
      elim (set_target stat (scan_request_line buf r)) [
        | none ↦ none
        | some r' ↦ elim (request_readhdrs fuel [] t) [ none ↦ none | some u ↦ some (r', u) ]
      ]

  -- What `queue_put` makes of the fields of its slot before `connfd`, on a connection; where it does not
  -- come to an end they stay as they are.
  abbrev pub receive_from : (stat : Request → Request) → ℕ → S → Request → Request
  receive_from stat fuel s r = elim (read_request stat fuel s r) [ none ↦ r | some (r', t) ↦ r' ]
