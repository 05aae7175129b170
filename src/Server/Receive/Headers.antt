-- ===== src/Server/Receive/Headers.antt =====
-- When `requestReadhdrs` of multiThreadedWebServer/request.c ends.
use cos.Base.{
  ℕ, zero, suc, ◌<◌, ◌≡◌, ◌≢◌, refl, ap, ◌∙◌, inl, inr, false, Bool-cases, Option, none, some, Str,
  arith, str_eq, eq-str_eq, if◌then◌else◌,
}
use cos.Server.Response.{crlf}
use cos.Server.Receive.{headers_loop, request_readhdrs}

module _ {ℓ} {S : Type ℓ} (readlineb : S → Option (Str × S)) where
  -- `n` lines that are not empty, an empty one behind them, and then the connection `u`.
  pub data Headers : ℕ → S → S → Type ℓ where
    here : (s u : S) → readlineb s ≡ some (crlf, u) → Headers 0 s u
    more :
        (n : ℕ) (line : Str) (s t u : S)
        → readlineb s ≡ some (line, t)
        → line ≢ crlf
        → Headers n t u
        → Headers (suc n) s u

  -- Lines that are not empty, and then the end of the input.
  pub data Endless : S → Type ℓ where
    at_end : (s : S) → readlineb s ≡ none → Endless s
    more :
        (line : Str) (s t : S) → readlineb s ≡ some (line, t) → line ≢ crlf → Endless t → Endless s

  not_crlf : (line : Str) → line ≢ crlf → str_eq line crlf ≡ false
  not_crlf line ne = elim (Bool-cases (str_eq line crlf)) [
    | inl h ↦ absurd (ne (eq-str_eq line crlf h))
    | inr h ↦ h
  ]

  after_read : ℕ → Str → S → Option (Str × S) → Option S
  after_read fuel buf s r =
      let p : Str × S = elim r [ none ↦ (buf, s) | some (line, t) ↦ (line, t) ] in
      headers_loop readlineb fuel p.0 p.1

  readhdrs-line :
      (fuel : ℕ) (buf line : Str) (s t : S)
      → readlineb s ≡ some (line, t)
      → request_readhdrs readlineb fuel buf s ≡ headers_loop readlineb fuel line t
  unfolding request_readhdrs after_read
  readhdrs-line fuel buf line s t e = ap (after_read fuel buf s) e

  readhdrs-end :
      (fuel : ℕ) (buf : Str) (s : S)
      → readlineb s ≡ none
      → request_readhdrs readlineb fuel buf s ≡ headers_loop readlineb fuel buf s
  unfolding request_readhdrs after_read
  readhdrs-end fuel buf s e = ap (after_read fuel buf s) e

  headers_loop-crlf : (fuel : ℕ) (s : S) → headers_loop readlineb (suc fuel) crlf s ≡ some s
  unfolding headers_loop
  headers_loop-crlf fuel s = refl

  headers_loop-on :
      (fuel : ℕ) (buf : Str) (s : S)
      → buf ≢ crlf
      → headers_loop readlineb (suc fuel) buf s ≡ request_readhdrs readlineb fuel buf s
  unfolding headers_loop request_readhdrs
  headers_loop-on fuel buf s ne =
      ap (λ b. if b then some s else request_readhdrs readlineb fuel buf s) (not_crlf buf ne)

  -- `requestReadhdrs` reads up to the empty line and no further, with a round of fuel for each line.
  pub request_readhdrs-Headers :
      (n fuel : ℕ) (buf : Str) (s u : S)
      → Headers n s u
      → n < fuel
      → request_readhdrs readlineb fuel buf s ≡ some u
  request_readhdrs-Headers n zero buf s u h lt = absurd (omega arith)
  request_readhdrs-Headers n (suc fuel) buf s u (here a b e) lt =
      readhdrs-line (suc fuel) buf crlf s u e ∙ headers_loop-crlf fuel u
  request_readhdrs-Headers n (suc fuel) buf s u (more m line a t b e ne h) lt =
      readhdrs-line (suc fuel) buf line s t e
      ∙ (headers_loop-on fuel line t ne
          ∙ request_readhdrs-Headers m fuel line t u h (omega (arith, lt)))

  -- Where the input ends before an empty line, `requestReadhdrs` does not end on any fuel, unless its
  -- buffer holds an empty line by chance.
  pub request_readhdrs-Endless :
      (fuel : ℕ) (buf : Str) (s : S)
      → buf ≢ crlf
      → Endless s
      → request_readhdrs readlineb fuel buf s ≡ none
  unfolding headers_loop
  request_readhdrs-Endless zero buf s ne (at_end a e) = readhdrs-end zero buf s e
  request_readhdrs-Endless zero buf s ne (more line a t e ne' h) = readhdrs-line zero buf line s t e
  request_readhdrs-Endless (suc fuel) buf s ne (at_end a e) =
      readhdrs-end (suc fuel) buf s e
      ∙ (headers_loop-on fuel buf s ne ∙ request_readhdrs-Endless fuel buf s ne (at_end a e))
  request_readhdrs-Endless (suc fuel) buf s ne (more line a t e ne' h) =
      readhdrs-line (suc fuel) buf line s t e
      ∙ (headers_loop-on fuel line t ne' ∙ request_readhdrs-Endless fuel line t ne' h)
