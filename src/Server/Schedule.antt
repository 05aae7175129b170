-- ===== src/Server/Schedule.antt =====
-- multiThreadedWebServer/server.c: which slot of the request queue a thread serves next, under the
-- policies FIFO, RFF and SFF.
use cos.Base.{
  ℕ, suc, ◌-◌, ◌^◌, Bool, true, false, ◌&&◌, not, leb, Option, none, some, List, [], ◌∷◌, ltb, ◌==◌,
  if◌then◌else◌,
}
use cos.Server.Request.{Request}

abbrev pub is_used : Request → Bool
is_used r = elim r.connfd [ none ↦ false | some fd ↦ true ]

abbrev pub long_max : ℕ
long_max = 2 ^ 63 - 1

-- `queue[i].sbuf.st_size < smallest`
abbrev pub is_smaller : Request → ℕ → Bool
is_smaller r smallest = is_used r && ltb r.st_size smallest

-- `queue[i].sbuf.st_mtime > latest`, where `latest` is -1 as long as it is `none`.
abbrev pub is_later : Request → Option ℕ → Bool
is_later r latest =
    is_used r
    && elim r.st_mtime [ none ↦ false | some t ↦ elim latest [ none ↦ true | some l ↦ ltb l t ] ]

-- The loop of SFF over the slots from index `i` on; `target` is `none` for -1.
unfoldable pub sff_loop : List Request → (i smallest : ℕ) → (target : Option ℕ) → Option ℕ
sff_loop [] i smallest target = target
sff_loop (r ∷ rs) i smallest target =
    let chosen = sff_loop rs (suc i) r.st_size (some i) in
    let kept = sff_loop rs (suc i) smallest target in if is_smaller r smallest then chosen else kept

-- The loop of RFF.
unfoldable pub rff_loop : List Request → ℕ → (latest target : Option ℕ) → Option ℕ
rff_loop [] i latest target = target
rff_loop (r ∷ rs) i latest target =
    let chosen = rff_loop rs (suc i) r.st_mtime (some i) in
    let kept = rff_loop rs (suc i) latest target in if is_later r latest then chosen else kept

pub data Policy : Type 0 where
  fifo sff rff : Policy

-- The target of `thread_handle`.
unfoldable pub choose : Policy → (head : ℕ) → List Request → Option ℕ
choose fifo head queue = some head
choose rff head queue = rff_loop queue 0 none none
choose sff head queue = sff_loop queue 0 long_max none

-- `*port`, `*nthreads`, `nbuffer` and `sched_policy`.
pub record Args : Type 0 where
  pub port : ℕ
  pub nthreads : ℕ
  pub nbuffer : ℕ
  pub policy : Policy

-- `getargs` on the results of `atoi`, where a number below 0 is 0, and of the comparisons with the
-- names of the policies; `none` where it exits.
unfoldable pub getargs : (argc port nthreads nbuffer : ℕ) → (policy : Option Policy) → Option Args
getargs argc port nthreads nbuffer policy =
    if not (argc == 5)
    then none
    else if leb port 2000
    then none
    else if nthreads == 0
    then none
    else if nbuffer == 0
    then none
    else elim policy [
      | none ↦ none
      | some p ↦ some (record { port = port; nthreads = nthreads; nbuffer = nbuffer; policy = p })
    ]
