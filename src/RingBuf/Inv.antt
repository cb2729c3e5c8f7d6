-- ===== src/RingBuf/Inv.antt =====
-- The representation invariant of the ring (the contracts at the head of kringbuf.c).
use rk.Base.{ℕ, zero, suc, ◌+◌, ◌-◌, ◌*◌, ◌%◌, ◌≤◌, ◌<◌, ◌≡◌, some, if◌then◌else◌, ◌==◌, ltb, arith}
use rk.Base.Word.{ulong_max, word_mod, address_mod, add_words}
use rk.Base.Memory.{Mem}
use rk.RingBuf.Defs.{Ring, advance, retreat, init, reset, write, read, jam, overwrite}

-- the address of element `j`
abbrev pub slot : Ring → ℕ → ℕ
slot r j = r.buf_ptr + r.data_size * j

-- an index below twice the number of elements, brought round
abbrev pub round : ℕ → ℕ → ℕ
round m k = if ltb k m then k else k - m

-- the element before `j`
abbrev pub prev : ℕ → ℕ → ℕ
prev m j = (if j == 0 then m else j) - 1

-- The ring reads at element `i`: both pointers stand at element boundaries inside the buffer, and
-- the write pointer stands `n_full` elements after the read pointer, going round.
pub record ReadsAt (r : Ring) (i : ℕ) : Type 0 where
  pub sized : 0 < r.data_size
  pub inside : i < r.max_buf
  pub bounded : r.n_full ≤ r.max_buf
  pub in_word : r.max_buf ≤ ulong_max
  pub end_at : r.buf_end_ptr ≡ slot r r.max_buf
  pub read_at : r.read_ptr ≡ slot r i
  pub write_at : r.write_ptr ≡ slot r (round r.max_buf (i + r.n_full))

slot_eq : (d b j k : ℕ) → 0 < d → b + d * j ≡ b + d * k → j ≡ k
slot_eq d b j k h e = grind arith

slot_suc : (b d j : ℕ) → b + d * j + d ≡ b + d * (j + 1)
slot_suc b d j = omega arith

-- advancing a pointer at element `j` moves it to the next element
pub advance-slot :
    (r : Ring) (i j : ℕ)
    → ReadsAt r i
    → j < r.max_buf
    → advance r (slot r j) ≡ slot r (round r.max_buf (j + 1))
unfolding advance
advance-slot r i j v h = ground (
  arith,
  slot_suc r.buf_ptr r.data_size j,
  slot_eq r.data_size r.buf_ptr (j + 1) r.max_buf v.sized,
)

slot_zero : (b d j : ℕ) → 0 < d → b + d * j ≡ b → j ≡ 0
slot_zero b d j h e = grind arith

-- retreating a pointer at element `j` moves it to the element before
pub retreat-slot :
    (r : Ring) (i j : ℕ)
    → ReadsAt r i
    → j < r.max_buf
    → retreat r (slot r j) ≡ slot r (prev r.max_buf j)
unfolding retreat
retreat-slot r i zero v h = ground (arith, slot_suc r.buf_ptr r.data_size (r.max_buf - 1))
retreat-slot r i (suc j) v h =
    ground
      (arith, slot_suc r.buf_ptr r.data_size j, slot_zero r.buf_ptr r.data_size (suc j) v.sized)

end_fits : (p n : ℕ) → p + n < address_mod → add_words p (n % word_mod) ≡ p + n
end_fits p n h = omega arith

-- `kRingBufInit` of a buffer that ends before the last word of the address space gives a valid ring
-- that is empty, whatever the old contents of the block.
pub init-ReadsAt :
    (r : Ring) (buf size max : ℕ) {r' : Ring}
    → max ≤ ulong_max
    → buf + size * max < address_mod
    → init r buf size max ≡ some r'
    → ReadsAt r' 0 × (r'.n_full ≡ 0)
unfolding init reset
init-ReadsAt r buf size max h u e = ground (arith, slot_suc buf size 0, end_fits buf (size * max) u)

-- `kRingBufWrite` on a ring with room keeps the invariant and the read index.
pub write-ReadsAt :
    (r : Ring) (i : ℕ) (m : Mem) (src : ℕ)
    → ReadsAt r i
    → r.n_full < r.max_buf
    → ReadsAt (write r m src).0 i
unfolding write
write-ReadsAt r i m src v h = ground (arith, advance-slot r i (round r.max_buf (i + r.n_full)) v)

-- `kRingBufRead` on a ring with a message keeps the invariant, the read index moved on.
pub read-ReadsAt :
    (r : Ring) (i : ℕ) (m : Mem) (dst : ℕ)
    → ReadsAt r i
    → 0 < r.n_full
    → ReadsAt (read r m dst).0 (round r.max_buf (i + 1))
unfolding read
read-ReadsAt r i m dst v h = ground (arith, advance-slot r i i v)

-- `kRingBufJam` on a ring with room keeps the invariant, the read index moved back.
pub jam-ReadsAt :
    (r : Ring) (i : ℕ) (m : Mem) (src : ℕ)
    → ReadsAt r i
    → r.n_full < r.max_buf
    → ReadsAt (jam r m src).0 (prev r.max_buf i)
unfolding jam
jam-ReadsAt r i m src v h = ground (arith, retreat-slot r i i v)

-- `kRingBufOverwrite` keeps the invariant of a ring of one element (a mailbox).
pub overwrite-ReadsAt :
    (r : Ring) (i : ℕ) (m : Mem) (src : ℕ)
    → ReadsAt r i
    → r.max_buf ≡ 1
    → ReadsAt (overwrite r m src).0 0
unfolding overwrite
overwrite-ReadsAt r i m src v h = ground arith
