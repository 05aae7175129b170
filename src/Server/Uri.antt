-- ===== src/Server/Uri.antt =====
-- multiThreadedWebServer/request.c: `requestParseURI` and `requestGetFiletype`. A string is the list
-- of its characters up to the terminating zero; it is taken to fit its buffer.
use cos.Base.{
  ℕ, Bool, true, false, ◌&&◌, ◌||◌, Option, none, some, [], ◌∷◌, ◌++◌, ◌==◌, if◌then◌else◌, Str,
}

-- '.', '/' and '?'
abbrev pub dot : ℕ
dot = 46

abbrev pub slash : ℕ
slash = 47

abbrev pub question_mark : ℕ
question_mark = 63

-- "cgi" and "home.html"
abbrev pub cgi : Str
cgi = 99 ∷ 103 ∷ 105 ∷ []

abbrev pub home_html : Str
home_html = 104 ∷ 111 ∷ 109 ∷ 101 ∷ 46 ∷ 104 ∷ 116 ∷ 109 ∷ 108 ∷ []

abbrev pub starts_with : Str → Str → Bool
starts_with [] s = true
starts_with (p ∷ ps) [] = false
starts_with (p ∷ ps) (c ∷ cs) = (p == c) && starts_with ps cs

-- Whether `strstr(s, p)` is not NULL.
abbrev pub strstr : Str → Str → Bool
strstr [] p = starts_with p []
strstr (c ∷ cs) p = starts_with p (c ∷ cs) || strstr cs p

-- The string before the first '?' and the one behind it, where `index(s, '?')` is not NULL.
unfoldable pub split_at_mark : Str → Option (Str × Str)
split_at_mark [] = none
split_at_mark (c ∷ cs) =
    let rest = split_at_mark cs in
    if c == question_mark
    then some ([], cs)
    else elim rest [ none ↦ none | some (before, behind) ↦ some (c ∷ before, behind) ]

-- `uri[strlen(uri) - 1]`, which reads before an empty string.
unfoldable pub last_char : Str → Option ℕ
last_char [] = none
last_char (c ∷ []) = some c
last_char (c ∷ d ∷ cs) = last_char (d ∷ cs)

-- The result, and what is left in `uri`, which is cut off at the mark.
pub record Target : Type 0 where
  pub is_static : Bool
  pub filename : Str
  pub cgiargs : Str
  pub uri_after : Str

-- `none` is a read out of bounds.
unfoldable pub request_parse_uri : Str → Option Target
request_parse_uri uri =
    if strstr uri cgi
    then elim (split_at_mark uri) [
      | none ↦
          some (record { is_static = false; filename = dot ∷ uri; cgiargs = []; uri_after = uri })
      | some (before, behind) ↦ some (record {
        is_static = false;
        filename = dot ∷ before;
        cgiargs = behind;
        uri_after = before;
      })
    ]
    else elim (last_char uri) [
      | none ↦ none
      | some c ↦ some (record {
        is_static = true;
        filename = if c == slash then dot ∷ (uri ++ home_html) else dot ∷ uri;
        cgiargs = [];
        uri_after = uri;
      })
    ]

-- The types "text/html", "image/gif", "image/jpeg" and "text/plain".
pub data FileType : Type 0 where
  html gif jpeg plain : FileType

-- ".html", ".gif" and ".jpg" anywhere in the name.
unfoldable pub request_get_filetype : Str → FileType
request_get_filetype filename =
    if strstr filename (46 ∷ 104 ∷ 116 ∷ 109 ∷ 108 ∷ [])
    then html
    else if strstr filename (46 ∷ 103 ∷ 105 ∷ 102 ∷ [])
    then gif
    else if strstr filename (46 ∷ 106 ∷ 112 ∷ 103 ∷ [])
    then jpeg
    else plain
