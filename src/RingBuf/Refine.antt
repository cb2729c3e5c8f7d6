-- ===== src/RingBuf/Refine.antt =====
-- A valid ring behaves as the double-ended queue of the elements that it holds.
use rk.Base.{
  ℕ, zero, suc, ◌+◌, ◌-◌, ◌*◌, ◌≤◌, ◌<◌, ◌≡◌, ◌≢◌, refl, ap, inl, inr, ◌∙◌, List, [], ◌∷◌, ◌++◌,
  dec_lt, sym, arith,
}
use mathlib.Core.Path.{ap₂, subst}
use rk.Base.Memory.{Mem, Apart, words_at, copy_words, words_at-copy_words, words_at-copy_words_self}
use rk.Base.Word.{add_word, sub_word}
use rk.RingBuf.Defs.{Ring, ringbuf_cpy, write, read, retreat, peek, jam}
use rk.RingBuf.Inv.{ReadsAt, slot, round, prev, retreat-slot}

module _ (b d mx : ℕ) where
  -- the words of element `j`
  abbrev pub element : Mem → ℕ → List ℕ
  element m j = words_at m (b + d * j) d

  -- the `n` elements from index `j` on, going round
  abbrev pub window : Mem → ℕ → ℕ → List (List ℕ)
  window m j zero = []
  window m j (suc n) = element m j ∷ window m (round mx (j + 1)) n

  -- `d` words from `p` on have no word in common with those elements
  abbrev Avoids : ℕ → ℕ → ℕ → Type 0
  Avoids p j zero = Unit
  Avoids p j (suc n) = Apart p d (b + d * j) d × Avoids p (round mx (j + 1)) n

  window-copy_words :
      (n j : ℕ) (m : Mem) (p s : ℕ) → Avoids p j n → window (copy_words m p s d) j n ≡ window m j n
  window-copy_words zero j m p s h = refl
  window-copy_words (suc n) j m p s h =
      ap₂ ◌∷◌ (words_at-copy_words d m p s (b + d * j) d h.0)
        (window-copy_words n (round mx (j + 1)) m p s h.1)

-- an element lies before the next one
element-inside : (d j m : ℕ) → j < m → d * j + d ≤ d * m
element-inside d j m h = grind arith

-- two different elements have no word in common
element-Apart : (b d j k : ℕ) → j ≢ k → Apart (b + d * j) d (b + d * k) d
element-Apart b d j k h = elim (dec_lt j k) [
  | yes p ↦ inl (omega (arith, element-inside d j k p))
  | no p ↦ inr (omega (arith, element-inside d k j (omega arith)))
]

-- A block outside the buffer avoids every window.
outside-Avoids : (b d mx p n j : ℕ) → j < mx → Apart p d b (d * mx) → Avoids b d mx p j n
outside-Avoids b d mx p zero j h a = tt
outside-Avoids b d mx p (suc n) j h a = (
  omega (arith, element-inside d j mx h),
  outside-Avoids b d mx p n (round mx (j + 1)) (ground arith) a,
)

-- The element `k` places after `j` avoids a window of at most `k` elements from `j` on.
element-Avoids :
    (b d mx q n j k : ℕ)
    → j < mx
    → n ≤ k
    → k < mx
    → round mx (j + k) ≡ q
    → Avoids b d mx (b + d * q) j n
element-Avoids b d mx q zero j k h l u e = tt
element-Avoids b d mx q (suc n) j k h l u e = (
  element-Apart b d q j (ground arith),
  element-Avoids b d mx q n (round mx (j + 1)) (k - 1) (ground arith) (omega arith) (omega arith)
      (ground arith),
)

-- A window extended by the element that follows it.
window-suc :
    (b d mx : ℕ) (m : Mem) (n j q : ℕ)
    → j < mx
    → n < mx
    → round mx (j + n) ≡ q
    → window b d mx m j (suc n) ≡ window b d mx m j n ++ element b d mx m q ∷ []
window-suc b d mx m zero j q h u e = ap (λ k. element b d mx m k ∷ []) (ground arith)
window-suc b d mx m (suc n) j q h u e =
    ap (λ w. element b d mx m j ∷ w)
      (window-suc b d mx m n (round mx (j + 1)) q (ground arith) (omega arith) (ground arith))

-- what a ring that reads at `i` holds, oldest element first
abbrev pub contents : Ring → Mem → ℕ → List (List ℕ)
contents r m i = window r.buf_ptr r.data_size r.max_buf m i r.n_full

-- a block of one element's size lies outside the ring's buffer
abbrev pub Outside : Ring → ℕ → Type 0
Outside r p = Apart p r.data_size r.buf_ptr (r.data_size * r.max_buf)

cpy_lem : (m : Mem) (d s z : ℕ) → 0 < z → ringbuf_cpy m d s z ≡ copy_words m d s z
unfolding ringbuf_cpy
cpy_lem m d s z h = ground arith

module _ (b d mx : ℕ) (sized : 0 < d) (m : Mem) where
  window-write :
      (n i q src : ℕ)
      → i < mx
      → n < mx
      → round mx (i + n) ≡ q
      → Apart src d b (d * mx)
      → window b d mx (ringbuf_cpy m (b + d * q) src d) i (suc n)
        ≡ window b d mx m i n ++ words_at m src d ∷ []
  window-write n i q src h u e o =
      subst (λ μ. window b d mx μ i (suc n) ≡ window b d mx m i n ++ words_at m src d ∷ [])
        (sym (cpy_lem m (b + d * q) src d sized))
        (window-suc b d mx (copy_words m (b + d * q) src d) n i q h u e
          ∙ ap₂ (λ w x. w ++ x ∷ [])
              (window-copy_words b d mx n i m (b + d * q) src
                (element-Avoids b d mx q n i n h (omega arith) u e))
              (words_at-copy_words_self d m (b + d * q) src
                (omega (arith, element-inside d q mx (ground arith)))))

  window-read :
      (n i dst : ℕ)
      → i < mx
      → Apart dst d b (d * mx)
      → window b d mx m i (suc n)
        ≡ words_at (ringbuf_cpy m dst (b + d * i) d) dst d
          ∷ window b d mx (ringbuf_cpy m dst (b + d * i) d) (round mx (i + 1)) n
  window-read n i dst h o =
      subst
        (λ μ. window b d mx m i (suc n) ≡ words_at μ dst d ∷ window b d mx μ (round mx (i + 1)) n)
        (sym (cpy_lem m dst (b + d * i) d sized))
        (ap₂ ◌∷◌
          (sym
            (words_at-copy_words_self d m dst (b + d * i) (omega (arith, element-inside d i mx h))))
          (sym (
            window-copy_words b d mx n (round mx (i + 1)) m dst (b + d * i)
              (outside-Avoids b d mx dst n (round mx (i + 1)) (ground arith) o))))

  window-jam :
      (n i src : ℕ)
      → i < mx
      → n < mx
      → Apart src d b (d * mx)
      → window b d mx (ringbuf_cpy m (b + d * prev mx i) src d) (prev mx i) (suc n)
        ≡ words_at m src d ∷ window b d mx m i n
  window-jam n i src h u o =
      subst (λ μ. window b d mx μ (prev mx i) (suc n) ≡ words_at m src d ∷ window b d mx m i n)
        (sym (cpy_lem m (b + d * prev mx i) src d sized))
        (ap₂ ◌∷◌
          (words_at-copy_words_self d m (b + d * prev mx i) src
            (omega (arith, element-inside d (prev mx i) mx (ground arith))))
          (ap (λ k. window b d mx (copy_words m (b + d * prev mx i) src d) k n) back
            ∙ window-copy_words b d mx n i m (b + d * prev mx i) src (
                element-Avoids b d mx (prev mx i) n i (mx - 1) h (omega arith) (omega arith)
                  (ground arith))))
    where
      back : round mx (prev mx i + 1) ≡ i
      back = ground arith

module _ (r : Ring) (i : ℕ) (m : Mem) (v : ReadsAt r i) where
  open r use {data_size, max_buf, n_full, buf_ptr}

  -- kRingBufWrite to a ring in order that is not full, from a source outside its buffer,
  -- appends the words at `src` as the newest element.
  pub write_refines :
      (src : ℕ)
      → n_full < max_buf
      → Outside r src
      → contents (write r m src).0 (write r m src).1 i
        ≡ contents r m i ++ words_at m src data_size ∷ []
  unfolding write
  write_refines src h o =
      subst
        (λ p.
          window buf_ptr data_size max_buf (ringbuf_cpy m p src data_size) i (add_word n_full 1)
          ≡ contents r m i ++ words_at m src data_size ∷ [])
        (sym v.write_at)
        (ap (window buf_ptr data_size max_buf (ringbuf_cpy m at src data_size) i) count
          ∙ window-write buf_ptr data_size max_buf v.sized m n_full i (round max_buf (i + n_full))
              src v.inside h refl o)
    where
      at : ℕ
      at = slot r (round max_buf (i + n_full))

      count : add_word n_full 1 ≡ suc n_full
      count = omega (arith, v)

  -- kRingBufRead of a ring in order that is not empty, to a destination outside its buffer,
  -- removes the oldest element and leaves its words at `dst`.
  pub read_refines :
      (dst : ℕ)
      → 0 < n_full
      → Outside r dst
      → contents r m i
        ≡ words_at (read r m dst).1 dst data_size
          ∷ contents (read r m dst).0 (read r m dst).1 (round max_buf (i + 1))
  unfolding read
  read_refines dst h o =
      subst
        (λ p.
          contents r m i
          ≡ words_at (ringbuf_cpy m dst p data_size) dst data_size
            ∷ window buf_ptr data_size max_buf (ringbuf_cpy m dst p data_size)
                (round max_buf (i + 1)) (sub_word n_full 1))
        (sym v.read_at)
        (ap (window buf_ptr data_size max_buf m i) count
          ∙ window-read buf_ptr data_size max_buf v.sized m (sub_word n_full 1) i dst v.inside o)
    where
      count : n_full ≡ suc (sub_word n_full 1)
      count = omega (arith, v)

  -- `kRingBufPeek` leaves the words of the oldest element at `dst`, and the contents as they were.
  pub peek_refines :
      (dst : ℕ)
      → 0 < n_full
      → Outside r dst
      → (words_at (peek r m dst) dst data_size ≡ element buf_ptr data_size max_buf m i)
        × (contents r (peek r m dst) i ≡ contents r m i)
  unfolding peek
  peek_refines dst h o =
      subst
        (λ μ.
          (words_at μ dst data_size ≡ element buf_ptr data_size max_buf m i)
          × (contents r μ i ≡ contents r m i))
        (sym (cpy_lem m dst r.read_ptr data_size v.sized))
        (subst
          (λ p.
            (words_at (copy_words m dst p data_size) dst data_size
              ≡ element buf_ptr data_size max_buf m i)
            × (contents r (copy_words m dst p data_size) i ≡ contents r m i))
          (sym v.read_at)
          (
            words_at-copy_words_self data_size m dst (slot r i)
                (omega (arith, element-inside data_size i max_buf v.inside)),
            window-copy_words buf_ptr data_size max_buf n_full i m dst (slot r i)
                (outside-Avoids buf_ptr data_size max_buf dst n_full i v.inside o),
          ))

  -- kRingBufJam to a ring in order that is not full, from a source outside its buffer, puts the
  -- words at `src` before the oldest element.
  pub jam_refines :
      (src : ℕ)
      → n_full < max_buf
      → Outside r src
      → contents (jam r m src).0 (jam r m src).1 (prev max_buf i)
        ≡ words_at m src data_size ∷ contents r m i
  unfolding jam
  jam_refines src h o =
      subst
        (λ p.
          window buf_ptr data_size max_buf (ringbuf_cpy m p src data_size) (prev max_buf i)
            (add_word n_full 1)
          ≡ words_at m src data_size ∷ contents r m i)
        (sym (ap (retreat r) v.read_at ∙ retreat-slot r i i v v.inside))
        (ap
            (window buf_ptr data_size max_buf
              (ringbuf_cpy m (slot r (prev max_buf i)) src data_size) (prev max_buf i))
            count
          ∙ window-jam buf_ptr data_size max_buf v.sized m n_full i src v.inside h o)
    where
      count : add_word n_full 1 ≡ suc n_full
      count = omega (arith, v)
