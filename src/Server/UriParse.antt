-- ===== src/Server/UriParse.antt =====
-- What `requestParseURI` makes of a URI.
use cos.Base.{
  ℕ, ◌≡◌, ◌≢◌, refl, ap, inl, inr, true, false, Option, none, some, [], ◌∷◌, ◌++◌, ◌==◌, ==_iff,
  arith, All, Bool-cases, if◌then◌else◌,
}
use cos.Base.{Str}
use cos.Server.Uri.{
  dot, slash, question_mark, cgi, home_html, strstr, split_at_mark, last_char, Target,
  request_parse_uri,
}

-- The cases of a URI, each with the result.
pub data Parsed (uri : Str) : Option Target → Type 0 where
  out_of_bounds : uri ≡ [] → Parsed uri none
  directory :
      (front : Str)
      → strstr uri cgi ≡ false
      → uri ≡ front ++ slash ∷ []
      → Parsed uri (
          some (record {
            is_static = true;
            filename = dot ∷ (uri ++ home_html);
            cgiargs = [];
            uri_after = uri;
          }))
  file :
      (front : Str) (c : ℕ)
      → strstr uri cgi ≡ false
      → uri ≡ front ++ c ∷ []
      → c ≢ slash
      → Parsed uri
          (some (record { is_static = true; filename = dot ∷ uri; cgiargs = []; uri_after = uri }))
  script :
      strstr uri cgi ≡ true
      → All (λ c. c ≢ question_mark) uri
      → Parsed uri
          (some (record { is_static = false; filename = dot ∷ uri; cgiargs = []; uri_after = uri }))
  query :
      (path args : Str)
      → strstr uri cgi ≡ true
      → uri ≡ path ++ question_mark ∷ args
      → All (λ c. c ≢ question_mark) path
      → Parsed uri (
          some
            (record { is_static = false; filename = dot ∷ path; cgiargs = args; uri_after = path }))

-- What the search for the mark finds.
data Split (s : Str) : Option (Str × Str) → Type 0 where
  no_mark : All (λ c. c ≢ question_mark) s → Split s none
  at_mark :
      (path args : Str)
      → s ≡ path ++ question_mark ∷ args
      → All (λ c. c ≢ question_mark) path
      → Split s (some (path, args))

Split-behind :
    (c : ℕ) (s : Str) (r : Option (Str × Str))
    → c ≢ question_mark
    → Split s r
    → Split (c ∷ s) (elim r [ none ↦ none | some (before, behind) ↦ some (c ∷ before, behind) ])
Split-behind c s r ne (no_mark h) = no_mark (ne, h)
Split-behind c s r ne (at_mark path args e h) = at_mark (c ∷ path) args (ap (λ t. c ∷ t) e) (ne, h)

split_at_mark-Split : (s : Str) → Split s (split_at_mark s)
unfolding split_at_mark
split_at_mark-Split [] = no_mark tt
split_at_mark-Split (c ∷ s) = elim (Bool-cases (c == question_mark)) [
  | inl here ↦ rw here (at_mark [] s (ap (λ x. x ∷ s) ((==_iff c question_mark).0 here)) tt)
  | inr not_here ↦
      rw not_here
        (Split-behind c s (split_at_mark s) (λ e. absurd (ground arith)) (split_at_mark-Split s))
]

data Last (s : Str) : Option ℕ → Type 0 where
  no_char : s ≡ [] → Last s none
  at_end : (front : Str) (c : ℕ) → s ≡ front ++ c ∷ [] → Last s (some c)

Last-behind : (c d : ℕ) (s : Str) (r : Option ℕ) → Last (d ∷ s) r → Last (c ∷ d ∷ s) r
Last-behind c d s r (no_char e) = cc
Last-behind c d s r (at_end front x e) = at_end (c ∷ front) x (ap (λ t. c ∷ t) e)

last_char-Last : (s : Str) → Last s (last_char s)
unfolding last_char
last_char-Last [] = no_char refl
last_char-Last (c ∷ []) = at_end [] c refl
last_char-Last (c ∷ d ∷ s) = Last-behind c d s (last_char (d ∷ s)) (last_char-Last (d ∷ s))

Split-Parsed :
    (uri : Str) (r : Option (Str × Str))
    → strstr uri cgi ≡ true
    → Split uri r
    → Parsed uri (elim r [
      | none ↦
          some (record { is_static = false; filename = dot ∷ uri; cgiargs = []; uri_after = uri })
      | some (before, behind) ↦ some (record {
        is_static = false;
        filename = dot ∷ before;
        cgiargs = behind;
        uri_after = before;
      })
    ])
Split-Parsed uri r dynamic (no_mark h) = script dynamic h
Split-Parsed uri r dynamic (at_mark path args e h) = query path args dynamic e h

Last-Parsed :
    (uri : Str) (r : Option ℕ)
    → strstr uri cgi ≡ false
    → Last uri r
    → Parsed uri (elim r [
      | none ↦ none
      | some c ↦ some (record {
        is_static = true;
        filename = if c == slash then dot ∷ (uri ++ home_html) else dot ∷ uri;
        cgiargs = [];
        uri_after = uri;
      })
    ])
Last-Parsed uri r static (no_char e) = out_of_bounds e
Last-Parsed uri r static (at_end front c e) = elim (Bool-cases (c == slash)) [
  | inl ends ↦ rw ends (directory front static (e_slash ends))
  | inr other ↦ rw other (file front c static e (λ z. absurd (ground arith)))
]
  where
    e_slash : (c == slash) ≡ true → uri ≡ front ++ slash ∷ []
    e_slash ends = rw (← (==_iff c slash).0 ends) e

-- A URI with "cgi" in it names a program, with "." before the part up to the first '?' and the rest
-- behind that as arguments, where there is a '?', at which `uri` is cut off; any other names a file, with "." before it, and with
-- "home.html" behind it where it ends in '/'. Of an empty URI the code reads a byte before its start.
pub request_parse_uri-Parsed : (uri : Str) → Parsed uri (request_parse_uri uri)
unfolding request_parse_uri
request_parse_uri-Parsed uri = elim (Bool-cases (strstr uri cgi)) [
  | inl dynamic ↦
      rw dynamic (Split-Parsed uri (split_at_mark uri) dynamic (split_at_mark-Split uri))
  | inr static ↦ rw static (Last-Parsed uri (last_char uri) static (last_char-Last uri))
]
