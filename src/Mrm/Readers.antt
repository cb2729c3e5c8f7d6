-- ===== src/Mrm/Readers.antt =====
-- The buffers that tasks use keep their words when another is published (core/src/kmrm.c).
use rk.Base.{
  ℕ, ◌≡◌, ◌≢◌, refl, sym, ap, ◌∙◌, inl, inr, true, ◌&&◌, ◌||◌, not, Option, some, List, ◌==◌,
  Bool-cases, if_both, arith, if◌then◌else◌,
}
use rk.Base.Memory.{Mem}
use rk.Err.{Err, success, err-case, obj_null}
use rk.Obj.{object_ready_err}
use rk.Kernel.{Kernel, update, run_domain}
use rk.Mem.{Partition, free, free_ready, memalloc_kobj_id}
use rk.Mrm.Words.{block_words, Separate, block_words-store, block_words-put_words}
use rk.Mrm.Defs.{
  Lease, State, set_leases, release_block, release_data, release_buffer, buffer_reserved,
  payload_valid, buffer_valid, reserve_drop,
}
use rk.Mrm.Ops.{mrm_ready_err, publish_copy, publish_over, publish_dropped, publish_words, publish}
use rk.Mrm.Recent.{SameData, release_buffer-SameData, publish_outcome}

-- The `n` words at `p` are the same in both memories.
abbrev Keeps : ℕ → ℕ → Mem → Mem → Type 0
Keeps p n m m' = block_words m' p n ≡ block_words m p n

module _ (p n : ℕ) where
  -- a free writes one word, the link, in the block that it frees
  free_ready-Keeps :
      (q : Partition) (m : Mem) (b : ℕ) → Separate b 1 p n → Keeps p n m (free_ready q m b).2
  unfolding free_ready
  free_ready-Keeps q m b h =
      let Kept : Err × Partition × Mem → Type 0 = λ x. Keeps p n m x.2 in
      if_both Kept (b == 0) _ _ refl
        (if_both Kept _ _ _ refl (block_words-store m b q.free_list_ptr p n h))

  free-Keeps :
      (q : Partition) (m : Mem) (c : Option ℕ) (b : ℕ)
      → Separate b 1 p n
      → Keeps p n m (free q m c b).2
  unfolding free
  free-Keeps q m c b h =
      err-case {A = Err × Partition × Mem} (λ x. Keeps p n m x.2)
        (object_ready_err (some q.header) memalloc_kobj_id c) (free_ready q m b) (λ e. (e, q, m))
        (free_ready-Keeps q m b h) (λ e n. refl)

  release_data-Keeps :
      (k : Kernel) (s : State) (a b : ℕ) (r : Err × Partition × Mem)
      → Separate b 1 p n
      → Keeps p n s.mem r.2
      → Keeps p n s.mem (release_data k s a b r).1.mem
  unfolding release_data release_block
  release_data-Keeps k s a b (e, q, m) h v =
      let s' : State = record s {
        mrms = update s.mrms a (record (s.mrms a) { data_mem = q });
        mem = m;
      } in
      let r = free (s'.mrms a).mrm_mem m (run_domain k) b in
      err-case (λ x. Keeps p n s.mem x.1.mem) e (release_block s' a b r) (λ g. (g, s'))
        (free-Keeps (s'.mrms a).mrm_mem m (run_domain k) b h ∙ v) (λ g n. v)

  release_buffer-Keeps :
      (k : Kernel) (s : State) (a b : ℕ)
      → Separate b 1 p n
      → Separate (s.block b) 1 p n
      → Keeps p n s.mem (release_buffer k s a b).1.mem
  unfolding release_buffer
  release_buffer-Keeps k s a b h g =
      release_data-Keeps k s a b (free (s.mrms a).data_mem s.mem (run_domain k) (s.block b)) h
        (free-Keeps (s.mrms a).data_mem s.mem (run_domain k) (s.block b) g)

  publish_over-Keeps :
      (s : State) (a b : ℕ) (words : ℕ → ℕ) (r : Err × State)
      → SameData a s r.1
      → Separate (s.block b) (s.mrms a).size p n
      → Keeps p n s.mem r.1.mem
      → Keeps p n s.mem (publish_over s a b words r).1.mem
  unfolding publish_over publish_copy
  publish_over-Keeps s a b words (success, s') v h g =
      block_words-put_words (s'.mrms a).size s'.mem (s'.block b) p n words
        (rw (v.size, ap (λ f. f b) v.block) h)
      ∙ g
  publish_over-Keeps s a b words (e, s') v h g = g

  -- what a publication in buffer `b` may write is separate from the words
  abbrev IsSafe : State → ℕ → ℕ → Type 0
  IsSafe s a b =
      let c = (s.mrms a).curr in
      (s.users b ≡ 0 → Separate (s.block b) (s.mrms a).size p n)
      × (s.users c ≡ 0 → Separate c 1 p n × Separate (s.block c) 1 p n)

  publish_dropped-Keeps :
      (k : Kernel) (s : State) (a b : ℕ) (words : ℕ → ℕ) (r : Err × List Lease)
      → s.users b ≡ 0
      → IsSafe s a b
      → Keeps p n s.mem (publish_dropped k s a b words r).1.mem
  unfolding publish_dropped
  publish_dropped-Keeps k s a b words (success, ls) z h =
      let s' = set_leases s ls in
      let c = (s.mrms a).curr in
      let v : SameData a s s' = record { block = refl; curr = refl; size = refl } in
      let t = not (c == 0) && not (c == b) && s.users c == 0 && not (buffer_reserved k ls a c) in
      elim (Bool-cases t) [
        | inl e ↦
            let x = h.1 (ground (arith, e)) in
            let w = release_buffer-SameData k s' a c in
            rw e (
              publish_over-Keeps s a b words (release_buffer k s' a c)
                (record { block = w.block; curr = w.curr; size = w.size }) (h.0 z)
                (release_buffer-Keeps k s' a c x.0 x.1))
        | inr e ↦ rw e (publish_over-Keeps s a b words (success, s') v (h.0 z) refl)
      ]
  publish_dropped-Keeps k s a b words (e, ls) z h = refl

  publish_words-Keeps :
      (k : Kernel) (s : State) (a b : ℕ) (words : ℕ → ℕ)
      → IsSafe s a b
      → Keeps p n s.mem (publish_words k s a b (some words)).1.mem
  unfolding publish_words
  publish_words-Keeps k s a b words h =
      elim (Bool-cases (not (buffer_valid s a b) || not (s.users b == 0))) [
        | inl e ↦ rw e refl
        | inr e ↦ rw e (
            err-case (λ x. Keeps p n s.mem x.1.mem) (payload_valid (s.mrms a) true)
              (publish_dropped k s a b words (reserve_drop k s.leases a b)) (λ f. (f, s))
              (publish_dropped-Keeps k s a b words (reserve_drop k s.leases a b) (ground (arith, e))
                h)
              (λ f n. refl))
      ]

  publish-Keeps :
      (k : Kernel) (s : State) (a b : ℕ) (words : ℕ → ℕ)
      → IsSafe s a b
      → Keeps p n s.mem (publish k s a b (some words)).1.mem
  unfolding publish
  publish-Keeps k s a b words h =
      err-case (λ x. Keeps p n s.mem x.1.mem) (mrm_ready_err k (s.mrms a))
        (if b == 0 then (obj_null, s) else publish_words k s a b (some words)) (λ e. (e, s))
        (if_both (λ x. Keeps p n s.mem x.1.mem) (b == 0) (obj_null, s)
          (publish_words k s a b (some words)) refl (publish_words-Keeps k s a b words h))
        (λ e n. refl)

publish-block :
    (k : Kernel) (s : State) (a b : ℕ) (words : ℕ → ℕ)
    → (publish k s a b (some words)).1.block ≡ s.block
publish-block k s a b words = elim (publish_outcome k s a b words) [ inl h ↦ h.2 | inr h ↦ h.3 ]

-- The block of buffer `d`, and the first word of `d`, are separate from the block of `c`.
abbrev pub IsApart : State → ℕ → ℕ → ℕ → Type 0
IsApart s a c d =
    let n = (s.mrms a).size in
    Separate (s.block d) n (s.block c) n
    × Separate (s.block d) 1 (s.block c) n
    × Separate d 1 (s.block c) n

-- kMRMPublish, whatever its outcome, leaves a buffer that has users its block of data and
-- the words in it, in the memory that also has the links of the free blocks. The buffer
-- published and the current one, where they are others, are assumed to have blocks of data
-- separate from that block, and first words of their own outside it.
pub publish_keeps_readers :
    (k : Kernel) (s : State) (a b c : ℕ) (words : ℕ → ℕ)
    → s.users c ≢ 0
    → (b ≢ c → IsApart s a c b)
    → ((s.mrms a).curr ≢ c → IsApart s a c (s.mrms a).curr)
    → let s' = (publish k s a b (some words)).1 in
      let n = (s.mrms a).size in
      (s'.block c ≡ s.block c)
      × (block_words s'.mem (s'.block c) n ≡ block_words s.mem (s.block c) n)
publish_keeps_readers k s a b c words u f g =
    let n = (s.mrms a).size in
    let e = ap (λ x. x c) (publish-block k s a b words) in
    let other : (d : ℕ) → s.users d ≡ 0 → d ≢ c = λ d z q. u (ap s.users (sym q) ∙ z) in
    (
      e,
      rw e (
          publish-Keeps (s.block c) n k s a b words
            ((λ z. (f (other b z)).0), (λ z. let x = g (other (s.mrms a).curr z) in (x.2, x.1)))),
    )
