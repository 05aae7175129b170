-- ===== src/Server/Tests.antt =====
-- The theorems on the server at a concrete queue and a concrete URI.
use cos.Base.{none, some, List, [], ◌∷◌}
use cos.Server.Request.{Request}
use cos.Server.Schedule.{rff, sff, choose}
use cos.Base.{Str}
use cos.Server.Uri.{slash, question_mark, request_parse_uri}
use cos.Server.UriParse.{Parsed, request_parse_uri-Parsed}
use cos.Server.Choice.{Latest, choose-Latest, Smallest, choose-Smallest}
use cos.Base.{Option}
use cos.Base.{ℕ}
use cos.Base.{true}

-- A request with a file of a size and a time.
abbrev sized : Option ℕ → ℕ → Option ℕ → Request
sized fd size time = record {
  connfd = fd;
  is_static = true;
  stat_return = true;
  st_size = size;
  st_mtime = time;
  st_mode = 33188;
  buf = [];
  method = [];
  uri = [];
  version = [];
  filename = [];
  cgiargs = [];
}

-- An empty slot and three requests.
abbrev four_slots : List Request
four_slots =
    sized none 1 (some 9)
    ∷ sized (some 4) 30 (some 7)
    ∷ sized (some 5) 20 none
    ∷ sized (some 6) 20 (some 8)
    ∷ []

choose-Smallest_example : Smallest four_slots (choose sff 1 four_slots)
choose-Smallest_example = choose-Smallest 1 four_slots

-- "/cgi?5"
abbrev cgi_uri : Str
cgi_uri = slash ∷ 99 ∷ 103 ∷ 105 ∷ question_mark ∷ 53 ∷ []

request_parse_uri-Parsed_example : Parsed cgi_uri (request_parse_uri cgi_uri)
request_parse_uri-Parsed_example = request_parse_uri-Parsed cgi_uri

choose-Latest_example : Latest four_slots (choose rff 1 four_slots)
choose-Latest_example = choose-Latest 1 four_slots
