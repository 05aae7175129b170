-- ===== src/Server/Response/Handle.antt =====
-- When `requestHandle` of multiThreadedWebServer/request.c serves a request.
use cos.Base.{◌≡◌, ap, ◌∙◌, ◌⊎◌, inl, inr, true, false, Bool-cases, if◌then◌else◌, codes, Str}
use cos.Server.Request.{Request}
use cos.Server.Response.{
  same_ignoring_case, is_regular, user_reads, user_runs, Reply, error, static, dynamic,
  request_handle,
}

-- What holds of the request for each reply.
pub data Handled (r : Request) : Reply → Type 0 where
  other_method :
      (longmsg : Str)
      → same_ignoring_case r.method (codes "GET") ≡ false
      → Handled r (error r.method (codes "501") (codes "Not Implemented") longmsg)
  missing :
      (longmsg : Str)
      → same_ignoring_case r.method (codes "GET") ≡ true
      → r.stat_return ≡ false
      → Handled r (error r.filename (codes "404") (codes "Not found") longmsg)
  forbidden :
      (longmsg : Str)
      → same_ignoring_case r.method (codes "GET") ≡ true
      → r.stat_return ≡ true
      → (is_regular r.st_mode ≡ false)
        ⊎ ((if r.is_static then user_reads r.st_mode else user_runs r.st_mode) ≡ false)
      → Handled r (error r.filename (codes "403") (codes "Forbidden") longmsg)
  file :
      same_ignoring_case r.method (codes "GET") ≡ true
      → r.stat_return ≡ true
      → r.is_static ≡ true
      → is_regular r.st_mode ≡ true
      → user_reads r.st_mode ≡ true
      → Handled r (static r.filename r.st_size)
  program :
      same_ignoring_case r.method (codes "GET") ≡ true
      → r.stat_return ≡ true
      → r.is_static ≡ false
      → is_regular r.st_mode ≡ true
      → user_runs r.st_mode ≡ true
      → Handled r (dynamic r.filename r.cgiargs)

-- `requestHandle` serves a file only for a request whose method is GET in any case, and only if the
-- file is there, is a regular file and can be read by its owner; it runs a program only if that holds,
-- with a right to run in place of the right to read. Otherwise it answers 501 for another method, else
-- 404 if there is no such file, and 403 only if the file is not regular or lacks that right.
pub request_handle-Handled : (r : Request) → Handled r (request_handle r)
unfolding request_handle
request_handle-Handled r = elim (Bool-cases (same_ignoring_case r.method (codes "GET"))) [
  | inr no_get ↦ simp no_get (other_method _ no_get)
  | inl get ↦ elim (Bool-cases r.stat_return) [
    | inr no_file ↦ simp (get, no_file) (missing _ get no_file)
    | inl there ↦ elim (Bool-cases (is_regular r.st_mode)) [
      | inr irregular ↦ elim (Bool-cases r.is_static) [
        | inl s ↦ simp (get, there, s, irregular) (forbidden _ get there (inl irregular))
        | inr d ↦ simp (get, there, d, irregular) (forbidden _ get there (inl irregular))
      ]
      | inl regular ↦ elim (Bool-cases r.is_static) [
        | inl s ↦ elim (Bool-cases (user_reads r.st_mode)) [
          | inl reads ↦ simp (get, there, s, regular, reads) (file get there s regular reads)
          | inr no_right ↦
              simp (get, there, s, regular, no_right)
                (forbidden _ get there (
                  inr (
                    ap (λ b. if b then user_reads r.st_mode else user_runs r.st_mode) s
                    ∙ no_right)))
        ]
        | inr d ↦ elim (Bool-cases (user_runs r.st_mode)) [
          | inl runs ↦ simp (get, there, d, regular, runs) (program get there d regular runs)
          | inr no_right ↦
              simp (get, there, d, regular, no_right)
                (forbidden _ get there (
                  inr (
                    ap (λ b. if b then user_reads r.st_mode else user_runs r.st_mode) d
                    ∙ no_right)))
        ]
      ]
    ]
  ]
]
