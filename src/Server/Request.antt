-- ===== src/Server/Request.antt =====
-- `request_t` of multiThreadedWebServer/request.h, less the read buffer `rio`. A string is the list of
-- its characters.
use cos.Base.{ℕ, Bool, Option}
use cos.Base.{Str}

-- `connfd` is `none` for -1, an empty slot. `stat_return` is true for 0. Of `sbuf` these are the
-- fields that the server reads: a file size is a number; a modification time before 1970, which no
-- slot is chosen for, is `none`.
pub record Request : Type 0 where
  pub connfd : Option ℕ
  pub is_static : Bool
  pub stat_return : Bool
  pub st_size : ℕ
  pub st_mtime : Option ℕ
  pub st_mode : ℕ
  pub buf : Str
  pub method : Str
  pub uri : Str
  pub version : Str
  pub filename : Str
  pub cgiargs : Str
