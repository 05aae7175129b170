-- ===== src/Server/Client/Listed.antt =====
-- A connection of client.c of multiThreadedWebServer as the lines that are left in it.
use cos.Base.{◌≡◌, refl, Bool, true, ◌&&◌, Option, none, some, List, [], ◌∷◌, arith, Str}
use cos.Server.Client.Sends.{Sends, flatten}
use cos.Server.Client.Framed.{ended}
use cos.Server.Client.Reply.{newline_free, no_newline}

abbrev pub pop : List Str → Option (Str × List Str)
pop [] = none
pop (line ∷ lines) = some (line, lines)

abbrev pub free_of_newlines : List Str → Bool
free_of_newlines [] = true
free_of_newlines (line ∷ lines) = newline_free line && free_of_newlines lines

-- Whole lines are given as they are.
pub ended-Sends :
    (lines : List Str)
    → free_of_newlines lines ≡ true
    → Sends pop (ended lines) (flatten (ended lines))
ended-Sends [] h = Sends.nothing [] refl
ended-Sends (line ∷ lines) h =
    let here : newline_free line ≡ true = ground arith in
    let behind : free_of_newlines lines ≡ true = ground arith in
    Sends.line line _ _ _ refl (no_newline line here) (ended-Sends lines behind)
