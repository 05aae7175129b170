-- ===== src/Server/Exchange.antt =====
-- A request and its reply, from `clientSend` of multiThreadedWebServer/client.c through the queue of
-- server.c and `requestHandle` of request.c to `clientPrint`.
mod Tests
use mathlib.Core.Path.{subst}
use cos.Base.{
  ℕ, suc, ◌+◌, ◌≤◌, ◌<◌, ◌≡◌, ◌≢◌, refl, sym, ap, ◌∙◌, Bool, true, false, not, ◌||◌, if◌then◌else◌,
  zero, Option, none, some, List, [], ◌∷◌, ◌++◌, arith, All, length, Str, codes, is_space,
}
use cos.Server.Request.{Request}
use cos.Server.Schedule.{Policy, fifo}
use cos.Server.Uri.{Target, request_parse_uri}
use cos.Server.Response.{
  same_ignoring_case, is_regular, user_reads, static, request_handle, request_serve_static,
}
use cos.Server.Receive.{read_request, receive_from}
use cos.Server.Queue.{Ring, serve, queue_put}
use cos.Server.Queue.Holds.{Holds}
use cos.Server.Queue.Put.{queue_put-Holds}
use cos.Server.Queue.Slots.{requests}
use cos.Server.Queue.Policies.{Served, serve-Served}
use cos.Server.Client.{client_send, client_print}
use cos.Server.Client.Exchange.{NoNewline, Delivers, request_line, read_request-client_send}
use cos.Server.Client.Sends.{Sends, flatten}
use cos.Server.Client.Framed.{Printed}
use cos.Server.Client.Reply.{static_lines, client_print-serve_static}
use cos.Server.Client.Reply.{request_serve_static-some}

request_handle-static :
    (r : Request)
    → same_ignoring_case r.method (codes "GET") ≡ true
    → r.stat_return ≡ true
    → r.is_static ≡ true
    → is_regular r.st_mode ≡ true
    → user_reads r.st_mode ≡ true
    → request_handle r ≡ static r.filename r.st_size
unfolding request_handle
request_handle-static r get there s regular reads = simp (get, there, s, regular, reads)

no_requests :
    (n head : ℕ) (queue : ℕ → Request) (i count : ℕ)
    → requests n head queue i count ≡ []
    → count ≡ 0
no_requests n head queue i zero e = refl
no_requests n head queue i (suc count) e = cc

-- FIFO takes the only request.
Served-only :
    (s : Ring) (r : Request) (o : Option (Request × Ring))
    → Served fifo s (r ∷ []) o
    → (rest : Ring) × (o ≡ some (r, rest)) × Holds rest []
Served-only s r o (Served.overlooked nobody) = absurd nobody
Served-only s r o (Served.served [] r' after rest e first used holds size less) =
    let same : r ≡ r' = cc in
    let behind : after ≡ [] = cc in
    (rest, ap (λ x. some (x, rest)) (sym same), subst (Holds rest) behind holds)
Served-only s r o (Served.served (x ∷ before) r' after rest e first used holds size less) = cc

count-put :
    (receive : Request → Request) (connfd : ℕ) (s : Ring)
    → (queue_put receive connfd s).count ≡ s.count + 1
unfolding queue_put
count-put receive connfd s = refl

-- What `stat` reports of a file.
pub record FileStatus : Type 0 where
  pub size : ℕ
  pub mtime : Option ℕ
  pub mode : ℕ

abbrev pub with_status : FileStatus → Request → Request
with_status st r = record r {
  stat_return = true;
  st_size = st.size;
  st_mtime = st.mtime;
  st_mode = st.mode;
}

-- The request that comes of the line of `clientSend`, in a slot.
abbrev pub received : FileStatus → Target → (file : Str) → Request → Request
received st target file slot = with_status st (record slot {
  buf = request_line file ++ 10 ∷ [];
  method = codes "GET";
  version = codes "HTTP/1.1";
  uri = target.uri_after;
  is_static = target.is_static;
  filename = target.filename;
  cgiargs = target.cgiargs;
})

module _ {ℓ} {S : Type ℓ} (readlineb : S → Option (Str × S)) where
  -- What becomes of a request for a file with the bytes `contents`: what the server reads of it, what
  -- the thread takes from the queue, how it handles that, and what the client prints of the reply.
  pub record Exchanged (st : FileStatus) (target : Target) (host file contents : Str)
      (fuel connfd : ℕ) (ring : Ring) (s v w : S) : Type ℓ where
    pub slot : Request
    pub slot_eq : slot ≡ ring.queue ring.tail
    pub reads :
        read_request readlineb (with_status st) 2 s slot ≡ some (received st target file slot, v)
    pub rest : Ring
    pub serves :
        serve fuel fifo (queue_put (receive_from readlineb (with_status st) 2 s) connfd ring)
        ≡ some (record (received st target file slot) { connfd = some connfd }, rest)
    pub empties : Holds rest []
    pub handles :
        request_handle (record (received st target file slot) { connfd = some connfd })
        ≡ static target.filename st.size
    pub prints :
        Printed readlineb
          (length contents + 5)
          (static_lines target.filename st.size)
          (st.size ∷ [])
          contents
          w

  -- A client asks for a file by a name without white space that stands for a static file, which is
  -- regular, readable and of less than 2 ^ 31 bytes, and the queue is empty: then the server reads the
  -- request, a thread under FIFO takes it from the queue, which is empty again, and the thread serves
  -- that file. If that does not end the server, as it does for an empty file, and the client gets what
  -- is written, it prints the head of the reply, its length, and the lines of the file, each up to its
  -- first zero byte.
  pub exchange :
      (st : FileStatus) (target : Target) (host file contents : Str) (writes : List Str)
      (fuel connfd : ℕ) (ring : Ring) (s v w : S)
      → file ≢ []
      → All (λ c. is_space c ≡ false) file
      → NoNewline host
      → request_parse_uri file ≡ some target
      → target.is_static ≡ true
      → is_regular st.mode ≡ true
      → user_reads st.mode ≡ true
      → st.size < 2147483648
      → Holds ring []
      → 0 < fuel
      → Delivers readlineb s (client_send host file) v
      → request_serve_static target.filename st.size (some contents) ≡ some writes
      → Sends readlineb w (flatten writes)
      → Exchanged st target host file contents fuel connfd ring s v w
  exchange st target host file contents writes fuel connfd ring s v w ne plain host_ok parses
        is_file regular readable fits h enough sent answered replied =
      let slot = ring.queue ring.tail in
      let receive = receive_from readlineb (with_status st) 2 s in
      let reads : read_request readlineb (with_status st) 2 s slot
          ≡ some (received st target file slot, v) =
        read_request-client_send readlineb (with_status st) host file target slot s v ne plain
          host_ok parses sent in
      let receives : receive slot ≡ received st target file slot =
        ap (λ o. elim o [ none ↦ slot | some (r', t) ↦ r' ]) reads in
      let empty : ring.count ≡ 0 =
        no_requests ring.nbuffer ring.head ring.queue 0 ring.count h.in_order in
      let inside : ring.head < ring.nbuffer = h.inside in
      let put : Holds (queue_put receive connfd ring)
          (record (received st target file slot) { connfd = some connfd } ∷ []) =
        subst (λ x. Holds (queue_put receive connfd ring) (record x { connfd = some connfd } ∷ []))
          receives (queue_put-Holds receive connfd ring [] h (omega (arith, empty, inside))) in
      let (rest, serves, empties) = Served-only (queue_put receive connfd ring) _ _ (
        serve-Served (queue_put receive connfd ring) _ put fuel fifo
          (omega (arith, count-put receive connfd ring))
          (omega (arith, count-put receive connfd ring, empty, enough))) in
      record {
        slot = slot;
        slot_eq = refl;
        reads = reads;
        rest = rest;
        serves = serves;
        empties = empties;
        handles =
            request_handle-static (record (received st target file slot) { connfd = some connfd })
              refl refl is_file regular readable;
        prints =
            client_print-serve_static readlineb (length contents + 5) target.filename st.size
              contents w fits (omega arith)
              (subst (λ x. Sends readlineb w (flatten x))
                (request_serve_static-some target.filename st.size contents writes answered)
                replied);
      }
