-- ===== src/Server/Client/Exchange.antt =====
-- The request of client.c, as server.c of multiThreadedWebServer reads it.
use mathlib.Core.Path.{subst}
use cos.Base.{is_space}
use cos.Base.{
  ℕ, ◌≡◌, ◌≢◌, refl, sym, ap, ap₂, ◌∙◌, true, false, Option, none, some, [], ◌∷◌, ◌++◌, ◌==◌,
  if◌then◌else◌, All, All-mono, All-append, append_assoc, arith, Str, codes,
}
use cos.Server.Request.{Request}
use cos.Server.Uri.{Target, request_parse_uri}
use cos.Server.Response.{crlf}
use cos.Server.Receive.{
  scan_request_line, set_target, skip_spaces, word, behind_word, scan_word, read_request,
  request_readhdrs,
}
use cos.Server.Receive.Headers.{Headers, request_readhdrs-Headers}
use cos.Server.Client.{client_send}

abbrev pub NoNewline : Str → Type 0
NoNewline = All (λ c. (c == 10) ≡ false)

module _ {ℓ} {S : Type ℓ} (readlineb : S → Option (Str × S)) where
  -- That a connection gives the bytes of a text, line by line, and goes on as `v`.
  pub data Delivers : S → Str → S → Type ℓ where
    done : (v : S) → Delivers v [] v
    line :
        (body rest : Str) (s t v : S)
        → readlineb s ≡ some (body ++ 10 ∷ [], t)
        → NoNewline body
        → Delivers t rest v
        → Delivers s ((body ++ 10 ∷ []) ++ rest) v

pub same_line :
    (b b' rest rest' : Str)
    → NoNewline b
    → NoNewline b'
    → b ++ 10 ∷ rest ≡ b' ++ 10 ∷ rest'
    → (b ≡ b') × (rest ≡ rest')
same_line [] [] rest rest' h h' e = (refl, cc)
same_line [] (c ∷ b') rest rest' h h' e =
    let same : 10 ≡ c = cc in absurd (ground (arith, same, h'.0))
same_line (c ∷ b) [] rest rest' h h' e =
    let same : c ≡ 10 = cc in absurd (ground (arith, same, h.0))
same_line (c ∷ b) (c' ∷ b') rest rest' h h' e =
    let first : c ≡ c' = cc in
    let tails : b ++ 10 ∷ rest ≡ b' ++ 10 ∷ rest' = cc in
    let (same, same') = same_line b b' rest rest' h.1 h'.1 tails in
    (ap₂ (λ x y. x ∷ y) first same, same')

word-space :
    (w : Str) (c : ℕ) (rest : Str)
    → All (λ c. is_space c ≡ false) w
    → is_space c ≡ true
    → word (w ++ c ∷ rest) ≡ w
unfolding word
word-space [] c rest h hc = rw hc refl
word-space (d ∷ ds) c rest h hc = rw h.0 (ap (λ t. d ∷ t) (word-space ds c rest h.1 hc))

behind_word-space :
    (w : Str) (c : ℕ) (rest : Str)
    → All (λ c. is_space c ≡ false) w
    → is_space c ≡ true
    → behind_word (w ++ c ∷ rest) ≡ c ∷ rest
unfolding behind_word
behind_word-space [] c rest h hc = rw hc refl
behind_word-space (d ∷ ds) c rest h hc = rw h.0 (behind_word-space ds c rest h.1 hc)

-- A `%s` behind a space reads the word there.
scan_word-space :
    (old w : Str) (c : ℕ) (rest : Str)
    → w ≢ []
    → All (λ c. is_space c ≡ false) w
    → is_space c ≡ true
    → scan_word old (32 ∷ (w ++ c ∷ rest)) ≡ (w, c ∷ rest)
unfolding scan_word skip_spaces
scan_word-space old [] c rest ne h hc = absurd (ne refl)
scan_word-space old (d ∷ ds) c rest ne h hc =
    ap
      (λ b. elim (if b then skip_spaces (ds ++ c ∷ rest) else d ∷ (ds ++ c ∷ rest)) [
        | [] ↦ (old, [])
        | x ∷ xs ↦ (word (x ∷ xs), behind_word (x ∷ xs))
      ])
      h.0
    ∙ ap₂ (λ a b. (a, b)) (word-space (d ∷ ds) c rest h hc) (behind_word-space (d ∷ ds) c rest h hc)

-- The lines of `clientSend`, less their newlines.
abbrev pub request_line : Str → Str
request_line file = codes "GET " ++ (file ++ (codes " HTTP/1.1" ++ 13 ∷ []))

abbrev pub host_line : Str → Str
host_line host = codes "host: " ++ (host ++ 13 ∷ [])

client_send-lines :
    (host file : Str)
    → client_send host file ≡ request_line file ++ 10 ∷ (host_line host ++ 10 ∷ crlf)
unfolding client_send
client_send-lines host file =
    ap (λ x. codes "GET " ++ x)
      (ap (λ x. file ++ (codes " HTTP/1.1" ++ (crlf ++ (codes "host: " ++ x))))
          (sym (append_assoc host (13 ∷ []) (10 ∷ crlf)))
        ∙ sym
            (append_assoc file (codes " HTTP/1.1" ++ 13 ∷ []) (10 ∷ (host_line host ++ 10 ∷ crlf))))

scan_request_line-client :
    (file : Str) (r : Request)
    → file ≢ []
    → All (λ c. is_space c ≡ false) file
    → scan_request_line (request_line file ++ 10 ∷ []) r ≡ record r {
      buf = request_line file ++ 10 ∷ [];
      method = codes "GET";
      uri = file;
      version = codes "HTTP/1.1";
    }
unfolding scan_request_line scan_word skip_spaces word behind_word
scan_request_line-client file r ne plain =
    ap
      (λ u. record r {
        buf = request_line file ++ 10 ∷ [];
        method = codes "GET";
        uri = u.0;
        version = (scan_word r.version u.1).0;
      })
      (ap (λ x. scan_word r.uri (32 ∷ x))
          (append_assoc file (codes " HTTP/1.1" ++ 13 ∷ []) (10 ∷ []))
        ∙ scan_word-space r.uri file 32 (codes "HTTP/1.1" ++ 13 ∷ 10 ∷ []) ne plain refl)

pub request_line-plain :
    (file : Str) → All (λ c. is_space c ≡ false) file → NoNewline (request_line file)
request_line-plain file plain =
    let ends : NoNewline (codes " HTTP/1.1" ++ 13 ∷ []) =
      (refl, (refl, (refl, (refl, (refl, (refl, (refl, (refl, (refl, (refl, tt)))))))))) in
    (
      refl,
      (
        refl,
        (
          refl,
          (
            refl,
            All-append (λ c. (c == 10) ≡ false) file _
                (All-mono file (λ c h. ground (arith, h)) plain) ends,
          ),
        ),
      ),
    )

pub host_line-plain : (host : Str) → NoNewline host → NoNewline (host_line host)
host_line-plain host plain = (
  refl,
  (
    refl,
    (refl, (refl, (refl, (refl, All-append (λ c. (c == 10) ≡ false) host _ plain (refl, tt))))),
  ),
)

module _ {ℓ} {S : Type ℓ} (readlineb : S → Option (Str × S)) where
  first_line :
      (body rest text : Str) (s v : S)
      → Delivers readlineb s text v
      → text ≡ body ++ 10 ∷ rest
      → NoNewline body
      → (t : S) × (readlineb s ≡ some (body ++ 10 ∷ [], t)) × Delivers readlineb t rest v
  first_line [] rest text s v (done w) e plain = cc
  first_line (c ∷ cs) rest text s v (done w) e plain = cc
  first_line body rest text s v (line b rest' a t w reads ok d) e plain =
      let (same, same') =
        same_line b body rest' rest ok plain (sym (append_assoc b (10 ∷ []) rest') ∙ e) in
      (
        t,
        reads ∙ ap (λ x. some (x ++ 10 ∷ [], t)) same,
        subst (λ x. Delivers readlineb t x v) same' d,
      )

  all_delivered : (text : Str) (s v : S) → Delivers readlineb s text v → text ≡ [] → s ≡ v
  all_delivered text s v (done w) e = refl
  all_delivered text s v (line [] rest a t w reads ok d) e = cc
  all_delivered text s v (line (c ∷ cs) rest a t w reads ok d) e = cc

  -- The server reads from a connection that gives the bytes of `clientSend`, for a file name without
  -- white space: the method GET, the file name as the URI, from which it gets the target, and the
  -- version; it reads on up to the end of what the client wrote, with fuel for two lines.
  pub read_request-client_send :
      (stat : Request → Request) (host file : Str) (target : Target) (r : Request) (s v : S)
      → file ≢ []
      → All (λ c. is_space c ≡ false) file
      → NoNewline host
      → request_parse_uri file ≡ some target
      → Delivers readlineb s (client_send host file) v
      → read_request readlineb stat 2 s r
        ≡ some (
          stat (record r {
            buf = request_line file ++ 10 ∷ [];
            method = codes "GET";
            version = codes "HTTP/1.1";
            uri = target.uri_after;
            is_static = target.is_static;
            filename = target.filename;
            cgiargs = target.cgiargs;
          }),
          v,
        )
  unfolding read_request set_target
  read_request-client_send stat host file target r s v ne plain host_ok parses sent =
      let (t, reads1, sent1) =
        first_line (request_line file) (host_line host ++ 10 ∷ crlf) (client_send host file) s v
          sent (client_send-lines host file) (request_line-plain file plain) in
      let (u, reads2, sent2) =
        first_line (host_line host) crlf (host_line host ++ 10 ∷ crlf) t v sent1 refl
          (host_line-plain host host_ok) in
      let (w, reads3, sent3) = first_line (13 ∷ []) [] crlf u v sent2 refl (refl, tt) in
      let ends : w ≡ v = all_delivered [] w v sent3 refl in
      let not_empty : host_line host ++ 10 ∷ [] ≢ crlf = λ e. cc in
      let headers : Headers readlineb 1 t v = subst (Headers readlineb 1 t) ends (
        Headers.more 0 (host_line host ++ 10 ∷ []) t u w reads2 not_empty
          (Headers.here u w reads3)) in
      ap behind_read reads1
      ∙ (ap (λ x. behind_scan t (set_target stat x)) (scan_request_line-client file r ne plain)
          ∙ (ap (λ o. behind_scan t (elim o [ none ↦ none | some x ↦ some (filled x) ])) parses
              ∙ ap (λ o. elim o [ none ↦ none | some x ↦ some (filled target, x) ])
                  (request_readhdrs-Headers readlineb 1 2 [] t v headers (omega arith))))
    where
      filled : Target → Request
      filled x = stat (record r {
        buf = request_line file ++ 10 ∷ [];
        method = codes "GET";
        version = codes "HTTP/1.1";
        uri = x.uri_after;
        is_static = x.is_static;
        filename = x.filename;
        cgiargs = x.cgiargs;
      })

      behind_scan : S → Option Request → Option (Request × S)
      behind_scan t o = elim o [
        | none ↦ none
        | some r' ↦ elim (request_readhdrs readlineb 2 [] t) [ none ↦ none | some u ↦ some (r', u) ]
      ]

      behind_read : Option (Str × S) → Option (Request × S)
      behind_read o =
          let p : Str × S = elim o [ none ↦ (r.buf, s) | some (buf, t) ↦ (buf, t) ] in
          behind_scan p.1 (set_target stat (scan_request_line p.0 r))
