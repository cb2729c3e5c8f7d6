-- ===== src/RingBuf/Defs.antt =====
-- The functions of core/src/kringbuf.c. `ULONG *` pointers are word addresses.
use rk.Base.{ℕ, ◌+◌, ◌-◌, ◌*◌, ◌%◌, Bool, ◌||◌, Option, none, some, ◌==◌, leb, if◌then◌else◌}
use rk.Base.Word.{word_mod, add_word, sub_word, add_words}
use rk.Base.Memory.{Mem, copy_words}

-- `struct RK_STRUCT_RING_BUFFER`
pub record Ring : Type 0 where
  pub data_size : ℕ
  pub max_buf : ℕ
  pub n_full : ℕ
  pub buf_ptr : ℕ
  pub write_ptr : ℕ
  pub read_ptr : ℕ
  pub buf_end_ptr : ℕ

-- K_RINGBUF_CPY: `while (--words)` runs round the whole `ULONG` range when `z` is 0.
unfoldable pub ringbuf_cpy : Mem → ℕ → ℕ → ℕ → Mem
ringbuf_cpy m d s z = copy_words m d s (if z == 0 then word_mod else z)

-- kRingBufAdvance_ and kRingBufRetreat_ of a pointer into the buffer
unfoldable pub advance : Ring → ℕ → ℕ
advance r p = let q = p + r.data_size in if q == r.buf_end_ptr then r.buf_ptr else q

unfoldable pub retreat : Ring → ℕ → ℕ
retreat r p = (if p == r.buf_ptr then r.buf_end_ptr else p) - r.data_size

-- kRingBufReset
unfoldable pub reset : Ring → Ring
reset r = record r { n_full = 0; write_ptr = r.buf_ptr; read_ptr = r.buf_ptr }

-- kRingBufInit: `none` is RK_ERR_INVALID_PARAM, and so is a null `kobj`, which has no ring here.
unfoldable pub init : Ring → ℕ → ℕ → ℕ → Option Ring
init r buf_ptr data_size max_buf =
    if buf_ptr == 0 || (data_size == 0 || max_buf == 0)
    then none
    else some (
        reset (record r {
          data_size = data_size;
          max_buf = max_buf;
          buf_ptr = buf_ptr;
          buf_end_ptr = add_words buf_ptr (data_size * max_buf % word_mod);
        }))

-- kRingBufIsEmpty
unfoldable pub is_empty : Ring → Bool
is_empty r = r.n_full == 0

-- kRingBufIsFull
unfoldable pub is_full : Ring → Bool
is_full r = leb r.max_buf r.n_full

-- kRingBufWrite
unfoldable pub write : Ring → Mem → ℕ → Ring × Mem
write r m src = (
  record r { write_ptr = advance r r.write_ptr; n_full = add_word r.n_full 1 },
  ringbuf_cpy m r.write_ptr src r.data_size,
)

-- kRingBufRead
unfoldable pub read : Ring → Mem → ℕ → Ring × Mem
read r m dst = (
  record r { read_ptr = advance r r.read_ptr; n_full = sub_word r.n_full 1 },
  ringbuf_cpy m dst r.read_ptr r.data_size,
)

-- kRingBufPeek
unfoldable pub peek : Ring → Mem → ℕ → Mem
peek r m dst = ringbuf_cpy m dst r.read_ptr r.data_size

-- kRingBufJam
unfoldable pub jam : Ring → Mem → ℕ → Ring × Mem
jam r m src =
    let p = retreat r r.read_ptr in
    (record r { read_ptr = p; n_full = add_word r.n_full 1 }, ringbuf_cpy m p src r.data_size)

-- kRingBufOverwrite
unfoldable pub overwrite : Ring → Mem → ℕ → Ring × Mem
overwrite r m src = (
  record r { write_ptr = r.buf_ptr; read_ptr = r.buf_ptr; n_full = 1 },
  ringbuf_cpy m r.write_ptr src r.data_size,
)
