-- ===== src/Base/Memory.antt =====
-- Word-addressed memory: a pointer to `ULONG` is the number of the word it points at.
use rk.Base.{
  ℕ, zero, suc, ◌+◌, ◌≤◌, ◌<◌, ◌≡◌, refl, ◌⊎◌, ◌∙◌, List, [], ◌∷◌, ◌==◌, if◌then◌else◌, arith,
}

abbrev pub Mem : Type 0
Mem = ℕ → ℕ

-- `*p = v`
unfoldable pub store : Mem → ℕ → ℕ → Mem
store m p v a = if a == p then v else m a

-- `n` rounds of `*d++ = *s++`
unfoldable pub copy_words : Mem → ℕ → ℕ → ℕ → Mem
copy_words m d s zero = m
copy_words m d s (suc n) = copy_words (store m d (m s)) (d + 1) (s + 1) n

-- the `n` words from `p` on
unfoldable pub words_at : Mem → ℕ → ℕ → List ℕ
words_at m p zero = []
words_at m p (suc n) = m p ∷ words_at m (p + 1) n

-- `n` words from `p` and `k` words from `q` have no word in common
abbrev pub Apart : ℕ → ℕ → ℕ → ℕ → Type 0
Apart p n q k = (p + n ≤ q) ⊎ (q + k ≤ p)

pub words_at-store :
    (m : Mem) (p q v n : ℕ) → Apart q 1 p n → words_at (store m q v) p n ≡ words_at m p n
unfolding words_at store
words_at-store m p q v zero h = refl
words_at-store m p q v (suc n) h = ground (arith, words_at-store m (p + 1) q v n)

-- A copy changes nothing outside its destination.
pub words_at-copy_words :
    (n : ℕ) (m : Mem) (d s p k : ℕ)
    → Apart d n p k
    → words_at (copy_words m d s n) p k ≡ words_at m p k
unfolding copy_words
words_at-copy_words zero m d s p k h = refl
words_at-copy_words (suc n) m d s p k h =
    words_at-copy_words n (store m d (m s)) (d + 1) (s + 1) p k (omega arith)
    ∙ words_at-store m p d (m s) k (omega arith)

pub store_self : (m : Mem) (p v : ℕ) → store m p v p ≡ v
unfolding store
store_self m p v = ground arith

copy_words_below : (n : ℕ) (m : Mem) (d s a : ℕ) → a < d → copy_words m d s n a ≡ m a
unfolding copy_words store
copy_words_below zero m d s a h = refl
copy_words_below (suc n) m d s a h =
    ground (arith, copy_words_below n (store m d (m s)) (d + 1) (s + 1) a)

-- The destination of a copy from elsewhere holds the words of the source.
pub words_at-copy_words_self :
    (n : ℕ) (m : Mem) (d s : ℕ) → Apart d n s n → words_at (copy_words m d s n) d n ≡ words_at m s n
unfolding copy_words words_at
words_at-copy_words_self zero m d s h = refl
words_at-copy_words_self (suc n) m d s h = ground (
  arith,
  copy_words_below n (store m d (m s)) (d + 1) (s + 1) d,
  store_self m d (m s),
  words_at-copy_words_self n (store m d (m s)) (d + 1) (s + 1),
  words_at-store m (s + 1) d (m s) n,
)
