-- ===== src/PushSender/Chunks.antt =====
-- chunkStrings of internal/service/push_sender.go: batches of at most a hundred tokens.
use ficct_boutique_backend_g.Base.{
  ℕ, zero, suc, ◌≤◌, ◌<◌, ◌≡◌, refl, ap, ◌∙◌, String, List, [], ◌∷◌, ◌++◌, take, drop, length, All,
  take-append-drop, length-take, length-drop, arith, if◌then◌else◌,
}
use ficct_boutique_backend_g.Base.Int.{ℤ, pos, pos_part, leb_ℤ}

-- `for i := 0; i < len(in); i += size`, on the slice that is left; every pass takes at least one
-- string, so there are at most as many passes as strings.
unfoldable pub chunk_from : ℕ → ℕ → List String → List (List String)
chunk_from zero size xs = []
chunk_from (suc fuel) size [] = []
chunk_from (suc fuel) size (x ∷ xs) = take size (x ∷ xs) ∷ chunk_from fuel size (drop size (x ∷ xs))

-- `if size <= 0 { size = 100 }`
abbrev pub chunk_size : ℤ → ℕ
chunk_size size = if leb_ℤ size (pos 0) then 100 else pos_part size

unfoldable pub chunk_strings : List String → ℤ → List (List String)
chunk_strings xs size = chunk_from (length xs) (chunk_size size) xs

abbrev pub concat : List (List String) → List String
concat [] = []
concat (xs ∷ rest) = xs ++ concat rest

chunk_from-concat :
    (fuel size : ℕ) (xs : List String)
    → 0 < size
    → length xs ≤ fuel
    → concat (chunk_from fuel size xs) ≡ xs
unfolding chunk_from
chunk_from-concat zero size [] positive enough = refl
chunk_from-concat zero size (x ∷ xs) positive enough = absurd (omega arith)
chunk_from-concat (suc fuel) size [] positive enough = refl
chunk_from-concat (suc fuel) size (x ∷ xs) positive enough =
    ap (λ r. take size (x ∷ xs) ++ r)
      (chunk_from-concat fuel size (drop size (x ∷ xs)) positive
        (omega (arith, length-drop size (x ∷ xs))))
    ∙ take-append-drop size (x ∷ xs)

-- A batch has at least one string and at most `size`.
abbrev pub IsBatch : ℕ → List String → Type 0
IsBatch size xs = (1 ≤ length xs) × (length xs ≤ size)

chunk_from-IsBatch :
    (fuel size : ℕ) (xs : List String) → 0 < size → All (IsBatch size) (chunk_from fuel size xs)
unfolding chunk_from
chunk_from-IsBatch zero size xs positive = tt
chunk_from-IsBatch (suc fuel) size [] positive = tt
chunk_from-IsBatch (suc fuel) size (x ∷ xs) positive = (
  (omega (arith, length-take size (x ∷ xs)), omega (arith, length-take size (x ∷ xs))),
  chunk_from-IsBatch fuel size (drop size (x ∷ xs)) positive,
)

chunk_size_pos : (size : ℤ) → 0 < chunk_size size
chunk_size_pos size = ground arith

-- Splitting a list of tokens loses, repeats and reorders none of them: the batches, one after the
-- other, are the list, and each has at least one token and at most the number asked for, a hundred
-- where that is not positive.
pub chunk_strings-concat :
    (xs : List String) (size : ℤ)
    → (concat (chunk_strings xs size) ≡ xs)
      × All (IsBatch (chunk_size size)) (chunk_strings xs size)
unfolding chunk_strings
chunk_strings-concat xs size = (
  chunk_from-concat (length xs) (chunk_size size) xs (chunk_size_pos size) (omega arith),
  chunk_from-IsBatch (length xs) (chunk_size size) xs (chunk_size_pos size),
)
