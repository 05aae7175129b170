-- ===== src/Server/Client/Print.antt =====
-- What `clientPrint` of multiThreadedWebServer/client.c prints of a response.
use cos.Base.{
  ℕ, zero, suc, ◌<◌, ◌≡◌, ◌≢◌, refl, ap, ◌∙◌, inl, inr, true, false, not, ◌&&◌, Bool-cases, Option,
  none, some, List, [], ◌∷◌, arith, length, drop, Str, str_eq, up_to_zero, eq-str_eq,
}
use cos.Server.Response.{crlf}
use cos.Server.Client.{
  content_length, found, read_line, print_headers, print_body, client_print, strip,
}

-- The lengths that the lines give.
abbrev pub lengths_of : List Str → List ℕ
lengths_of [] = []
lengths_of (line ∷ lines) = found line (lengths_of lines)

module _ {ℓ} {S : Type ℓ} (readlineb : S → Option (Str × S)) where
  -- Header lines and the empty line behind them, each up to its first zero byte.
  pub data Head : List Str → S → S → Type ℓ where
    empty_line :
        (raw : Str) (s u : S) → readlineb s ≡ some (raw, u) → up_to_zero raw ≡ crlf → Head [] s u
    header :
        (raw line : Str) (lines : List Str) (s t u : S)
        → readlineb s ≡ some (raw, t)
        → up_to_zero raw ≡ line
        → line ≢ crlf
        → Head lines t u
        → Head (line ∷ lines) s u

  -- The lines up to the end of the input, each up to its first zero byte.
  pub data Body : List Str → S → Type ℓ where
    at_end : (s : S) → readlineb s ≡ none → Body [] s
    body_line :
        (raw : Str) (lines : List Str) (s t : S)
        → readlineb s ≡ some (raw, t)
        → Body lines t
        → Body (up_to_zero raw ∷ lines) s

  read_line-eq :
      (buf : Str) (s : S) {r : Option (Str × S)}
      → readlineb s ≡ r
      → read_line readlineb buf s
        ≡ (elim r [ none ↦ (buf, (false, s)) | some (line, t) ↦ (up_to_zero line, (true, t)) ])
  read_line-eq buf s e =
      ap (λ r. elim r [ none ↦ (buf, (false, s)) | some (line, t) ↦ (up_to_zero line, (true, t)) ])
        e

  read_line-some :
      (buf raw line : Str) (s t : S)
      → readlineb s ≡ some (raw, t)
      → up_to_zero raw ≡ line
      → read_line readlineb buf s ≡ (line, (true, t))
  read_line-some buf raw line s t e same = read_line-eq buf s e ∙ ap (λ x. (x, (true, t))) same

  no_length : content_length crlf ≡ none
  unfolding content_length strip
  no_length = refl

  Head-found :
      (lines : List Str) (buf : Str) (s u : S)
      → Head lines s u
      → found (read_line readlineb buf s).0 (lengths_of (drop 1 lines)) ≡ lengths_of lines
  Head-found lines buf s u (empty_line raw a b e same) =
      ap (λ y. found y.0 []) (read_line-some buf raw crlf s u e same)
      ∙ ap (λ o. elim o [ none ↦ [] | some n ↦ n ∷ [] ]) no_length
  Head-found lines buf s u (header raw line more a t b e same ne h) =
      ap (λ y. found y.0 (lengths_of more)) (read_line-some buf raw line s t e same)

  crlf_test : (line : Str) → line ≢ crlf → (not (str_eq line crlf) && true) ≡ true
  crlf_test line ne = elim (Bool-cases (str_eq line crlf)) [
    | inl h ↦ absurd (ne (eq-str_eq line crlf h))
    | inr h ↦ rw h refl
  ]

  print_headers-Head :
      (k : ℕ) (lines : List Str) (buf : Str) (s u : S)
      → Head lines s u
      → length lines < k
      → print_headers readlineb k (read_line readlineb buf s)
        ≡ some (lines, (lengths_of (drop 1 lines), u))
  unfolding print_headers
  print_headers-Head zero lines buf s u h lt = absurd (omega arith)
  print_headers-Head (suc k) lines buf s u (empty_line raw a b e same) lt =
      ap (print_headers readlineb (suc k)) (read_line-some buf raw crlf s u e same)
  print_headers-Head (suc k) lines buf s u (header raw line more a t b e same ne h) lt =
      ap (print_headers readlineb (suc k)) (read_line-some buf raw line s t e same)
      ∙ (ap
            (λ b. elim b [
              | false ↦ some ([], ([], t))
              | true ↦
                  let y = read_line readlineb line t in
                  elim (print_headers readlineb k y) [
                    | none ↦ none
                    | some (lines, (lengths, s)) ↦ some (line ∷ lines, (found y.0 lengths, s))
                  ]
            ])
            (crlf_test line ne)
          ∙ (ap
                (λ o. elim o [
                  | none ↦ none
                  | some (lines, (lengths, s)) ↦
                      some (line ∷ lines, (found (read_line readlineb line t).0 lengths, s))
                ])
                (print_headers-Head k more line t u h (omega (arith, lt)))
              ∙ ap (λ n. some (line ∷ more, (n, u))) (Head-found more line t u h)))

  print_body-Body :
      (k : ℕ) (lines : List Str) (buf : Str) (s : S)
      → Body lines s
      → length lines < k
      → print_body readlineb k (read_line readlineb buf s) ≡ some lines
  unfolding print_body
  print_body-Body zero lines buf s h lt = absurd (omega arith)
  print_body-Body (suc k) lines buf s (at_end a e) lt =
      ap (print_body readlineb (suc k)) (read_line-eq buf s e)
  print_body-Body (suc k) lines buf s (body_line raw more a t e h) lt =
      ap (print_body readlineb (suc k)) (read_line-eq buf s e)
      ∙ ap (λ o. elim o [ none ↦ none | some lines ↦ some (up_to_zero raw ∷ lines) ])
          (print_body-Body k more (up_to_zero raw) t h (omega (arith, lt)))

  -- Of a response with an empty line behind its headers `clientPrint` ends, with a round of fuel for
  -- each line of either part and one more; it prints the headers, the lengths that those but the first
  -- one give, and the lines of the body.
  pub client_print-Body :
      (fuel : ℕ) (headers body : List Str) (s u : S)
      → Head headers s u
      → Body body u
      → length headers < fuel
      → length body < fuel
      → client_print readlineb fuel s ≡ some (headers, (lengths_of (drop 1 headers), body))
  unfolding client_print
  client_print-Body fuel headers body s u head rest lt lt' =
      ap
        (λ o. elim o [
          | none ↦ none
          | some (lines, (lengths, t)) ↦
              elim (print_body readlineb fuel (read_line readlineb [] t)) [
                | none ↦ none
                | some body ↦ some (lines, (lengths, body))
              ]
        ])
        (print_headers-Head fuel headers [] s u head lt)
      ∙ ap
          (λ o. elim o [
            | none ↦ none
            | some body ↦ some (headers, (lengths_of (drop 1 headers), body))
          ])
          (print_body-Body fuel body [] u rest lt')
