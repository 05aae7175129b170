-- ===== src/Malloc/Candidate.antt =====
-- What the loop of `bestFit` and `worstFit` has found among the blocks that it has seen.
use cos.Base.{
  ℕ, ◌<◌, ◌≤◌, ◌≡◌, refl, Bool, true, false, [], ◌∷◌, ◌++◌, append_assoc, arith, All, All-append,
}
use cos.Malloc.Memory.{Ptr, null}
use cos.Malloc.FreeList.{smaller, larger}
use cos.Malloc.Tiling.{Block, Blocks}
use cos.Malloc.Chain.{last_addr}
use cos.Malloc.Fit.{NoFit}

-- `new` is better than the candidate `old`.
module _ (better : ℕ → ℕ → Bool) (size : ℕ) where
  -- Every block before the chosen one that is large enough is worse, and none behind it is better.
  abbrev pub IsExtremal : Blocks → Block → Blocks → Type 0
  IsExtremal pre b post =
      All (λ c. size ≤ c.1 → better b.1 c.1 ≡ true) pre
      × All (λ c. size ≤ c.1 → better c.1 b.1 ≡ false) post

  -- The candidate after the blocks `seen`.
  pub data Candidate (seen : Blocks) : Ptr × Ptr → Type 0 where
    unset : All (NoFit size) seen → Candidate seen (null, null)
    chosen :
        (pre post : Blocks) (a : Ptr) (s : ℕ)
        → seen ≡ pre ++ (a, s) ∷ post
        → size ≤ s
        → IsExtremal pre (a, s) post
        → Candidate seen (a, last_addr pre)

module _ {better : ℕ → ℕ → Bool} {size : ℕ} where
  -- A block that is too small leaves the candidate as it is.
  pub Candidate-small :
      (seen : Blocks) (b : Block) (r : Ptr × Ptr)
      → b.1 < size
      → Candidate better size seen r
      → Candidate better size (seen ++ b ∷ []) r
  Candidate-small seen b r small (unset none_fits) =
      unset (All-append (NoFit size) seen (b ∷ []) none_fits (small, tt))
  Candidate-small seen b r small (chosen pre post a s e large ext) =
      chosen pre (post ++ b ∷ []) a s (rw (e, append_assoc pre ((a, s) ∷ post) (b ∷ [])) refl) large
        (ext.0, All-append _ post (b ∷ []) ext.1 ((λ fits. absurd (omega arith)), tt))

  -- A block that is not better leaves it too.
  pub Candidate-worse :
      (seen : Blocks) (b : Block) (pre post : Blocks) (a : Ptr) (s : ℕ)
      → better b.1 s ≡ false
      → seen ≡ pre ++ (a, s) ∷ post
      → size ≤ s
      → IsExtremal better size pre (a, s) post
      → Candidate better size (seen ++ b ∷ []) (a, last_addr pre)
  Candidate-worse seen b pre post a s worse e large ext =
      chosen pre (post ++ b ∷ []) a s (rw (e, append_assoc pre ((a, s) ∷ post) (b ∷ [])) refl) large
        (ext.0, All-append _ post (b ∷ []) ext.1 ((λ fits. worse), tt))

-- What the searches need of `better`: a strict order, with a block that is not better than the old
-- candidate worse than a better one.
pub record IsRanking (better : ℕ → ℕ → Bool) : Type 0 where
  pub chain : (x y z : ℕ) → better x y ≡ true → better y z ≡ true → better x z ≡ true
  pub beats : (x y z : ℕ) → better x y ≡ true → better z y ≡ false → better x z ≡ true

pub smaller-IsRanking : IsRanking smaller
smaller-IsRanking = record { chain = λ x y z p q. ground arith; beats = λ x y z p q. ground arith }

pub larger-IsRanking : IsRanking larger
larger-IsRanking = record { chain = λ x y z p q. ground arith; beats = λ x y z p q. ground arith }
