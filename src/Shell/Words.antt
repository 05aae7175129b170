-- ===== src/Shell/Words.antt =====
-- `trim` and `parseCommand` of myShell/hw1.c. A string is the list of its characters up to the
-- terminating zero.
pub mod Trim
pub mod Parse
use cos.Base.{is_space}
use cos.Base.{
  ℕ, zero, suc, ◌+◌, ◌-◌, Bool, ◌&&◌, ◌||◌, Option, none, some, List, [], ◌∷◌, ◌==◌, ltb, leb,
  if◌then◌else◌, length, get_or, take, drop, Str,
}

-- `begin`
unfoldable pub begin_loop : Str → ℕ
begin_loop [] = 0
begin_loop (c ∷ cs) = if is_space c then suc (begin_loop cs) else 0

-- `end + 1`, from such a number on.
unfoldable pub end_loop : (str : Str) → (begin : ℕ) → ℕ → ℕ
end_loop str begin zero = zero
end_loop str begin (suc end) =
    if leb begin end && is_space (get_or str end 0) then end_loop str begin end else suc end

unfoldable pub trim : Str → Str
unfolding begin_loop end_loop
trim str =
    let begin = begin_loop str in
    let stop = end_loop str begin (length str) in take (stop - begin) (drop begin str)

abbrev pub max_args_count : ℕ
max_args_count = 64

-- The delimiter of `strtok`
abbrev pub is_blank : ℕ → Bool
is_blank c = c == 32

unfoldable pub skip_blanks : Str → Str
skip_blanks [] = []
skip_blanks (c ∷ cs) = if is_blank c then skip_blanks cs else c ∷ cs

unfoldable pub token : Str → Str
token [] = []
token (c ∷ cs) = if is_blank c then [] else c ∷ token cs

unfoldable pub behind_token : Str → Str
behind_token [] = []
behind_token (c ∷ cs) = if is_blank c then cs else behind_token cs

-- The next token, and where `strtok` goes on; `none` is NULL.
unfoldable pub strtok : Str → Option (Str × Str)
unfolding skip_blanks token behind_token
strtok s = elim (skip_blanks s) [
  | [] ↦ none
  | c ∷ cs ↦ some (token (c ∷ cs), behind_token (c ∷ cs))
]

-- The loop of `parseCommand`, with `args` from `i` on; `none` is a write behind `args`.
unfoldable pub parse_loop : ℕ → (i : ℕ) → Str → Option (List Str)
parse_loop zero i s = none
parse_loop (suc k) i s = elim (strtok s) [
  | none ↦ if ltb i max_args_count then some [] else none
  | some (arg, rest) ↦
      if ltb i max_args_count
      then elim (parse_loop k (i + 1) rest) [ none ↦ none | some args ↦ some (arg ∷ args) ]
      else none
]

unfoldable pub parse_command : Str → Option (List Str)
unfolding parse_loop
parse_command command = parse_loop (suc (length command)) 0 command

-- What is left in `command`, which the first `strtok` cuts off behind its token.
unfoldable pub command_after : Str → Str
unfolding token
command_after [] = []
command_after (c ∷ cs) = if is_blank c then c ∷ command_after cs else token (c ∷ cs)
