-- ===== src/Server/Queue/Holds.antt =====
-- What it is for the ring of multiThreadedWebServer/server.c to hold a list of requests.
use cos.Base.{ℕ, ◌≤◌, ◌<◌, ◌≡◌, true, none, List}
use cos.Server.Request.{Request}
use cos.Server.Schedule.{is_used}
use cos.Server.Queue.{Ring}
use cos.Server.Queue.Slots.{slot, requests}

-- The ring is well formed and holds the requests `xs`, in order from the head on: the `count` slots
-- from the head to the tail are used, the others are empty.
pub record Holds (s : Ring) (xs : List Request) : Type 0 where
  pub inside : s.head < s.nbuffer
  pub fits : s.count ≤ s.nbuffer
  pub tail_eq : s.tail ≡ slot s.nbuffer s.head s.count
  pub in_order : requests s.nbuffer s.head s.queue 0 s.count ≡ xs
  pub used : (i : ℕ) → i < s.count → is_used (s.queue (slot s.nbuffer s.head i)) ≡ true
  pub free :
      (i : ℕ) → s.count ≤ i → i < s.nbuffer → (s.queue (slot s.nbuffer s.head i)).connfd ≡ none
