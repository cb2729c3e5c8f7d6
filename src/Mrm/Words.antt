-- ===== src/Mrm/Words.antt =====
-- The copies of kMRMPublish and kMRMGet (core/src/kmrm.c): words of four bytes at byte
-- addresses, in the memory in which the links of free blocks stand too.
use rk.Base.{ℕ, zero, suc, ◌+◌, ◌*◌, ◌≤◌, ◌<◌, ◌≡◌, refl, ap, ◌∙◌, ◌⊎◌, List, [], ◌∷◌, arith}
use rk.Base.Memory.{Mem, store, store_self}

-- the copy to `mrmMesgPtr_` at `p` of the `n` words `f 0`, `f 1`, ... of a message
unfoldable pub put_words : Mem → ℕ → ℕ → (ℕ → ℕ) → Mem
unfolding store
put_words m p zero f = m
put_words m p (suc n) f = put_words (store m p (f 0)) (p + 4) n (λ i. f (suc i))

-- the `n` words from the address `p` on
unfoldable pub block_words : Mem → ℕ → ℕ → List ℕ
block_words m p zero = []
block_words m p (suc n) = m p ∷ block_words m (p + 4) n

-- the first `n` words of a message
unfoldable pub first_words : ℕ → (ℕ → ℕ) → List ℕ
first_words zero f = []
first_words (suc n) f = f 0 ∷ first_words n (λ i. f (suc i))

-- `n` words from `p` and `k` words from `q` share no byte
abbrev pub Separate : ℕ → ℕ → ℕ → ℕ → Type 0
Separate p n q k = (p + 4 * n ≤ q) ⊎ (q + 4 * k ≤ p)

pub block_words-store :
    (m : Mem) (q v p n : ℕ) → Separate q 1 p n → block_words (store m q v) p n ≡ block_words m p n
unfolding block_words store
block_words-store m q v p zero h = refl
block_words-store m q v p (suc n) h = ground (arith, block_words-store m q v (p + 4) n)

-- A copy keeps the words that are separate from its destination.
pub block_words-put_words :
    (n : ℕ) (m : Mem) (d p k : ℕ) (f : ℕ → ℕ)
    → Separate d n p k
    → block_words (put_words m d n f) p k ≡ block_words m p k
unfolding put_words
block_words-put_words zero m d p k f h = refl
block_words-put_words (suc n) m d p k f h =
    block_words-put_words n (store m d (f 0)) (d + 4) p k (λ i. f (suc i)) (omega arith)
    ∙ block_words-store m d (f 0) p k (omega arith)

put_words_below : (n : ℕ) (m : Mem) (d a : ℕ) (f : ℕ → ℕ) → a < d → put_words m d n f a ≡ m a
unfolding put_words store
put_words_below zero m d a f h = refl
put_words_below (suc n) m d a f h =
    ground (arith, put_words_below n (store m d (f 0)) (d + 4) a (λ i. f (suc i)))

-- The destination holds the words of the message.
pub block_words-put_words_self :
    (n : ℕ) (m : Mem) (d : ℕ) (f : ℕ → ℕ) → block_words (put_words m d n f) d n ≡ first_words n f
unfolding put_words block_words first_words
block_words-put_words_self zero m d f = refl
block_words-put_words_self (suc n) m d f =
    let m' = store m d (f 0) in
    let g : ℕ → ℕ = λ i. f (suc i) in
    ap (λ v. v ∷ block_words (put_words m' (d + 4) n g) (d + 4) n)
      (put_words_below n m' (d + 4) d g (omega arith) ∙ store_self m d (f 0))
    ∙ ap (λ vs. f 0 ∷ vs) (block_words-put_words_self n m' (d + 4) g)
