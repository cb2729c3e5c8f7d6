-- ===== src/Mrm/Recent.antt =====
-- What is published is what is got next (core/src/kmrm.c).
use rk.Base.{
  ℕ, ◌≡◌, ◌≢◌, refl, ap, ◌∙◌, ◌⊎◌, inl, inr, Bool, true, ◌&&◌, ◌||◌, not, some, List, [], ◌==◌,
  Bool-cases, if_both, arith, if◌then◌else◌,
}
use rk.Base.Memory.{Mem}
use rk.Err.{Err, success, err-case, mem_free, obj_null}
use rk.Kernel.{Kernel, update, update-same, run_domain}
use rk.Mem.{free, Partition}
use rk.Mrm.Words.{put_words, block_words, first_words, block_words-put_words_self}
use rk.Mrm.Defs.{
  Mrm, Lease, State, set_leases, release_block, release_data, release_buffer, buffer_reserved,
  payload_valid, buffer_valid, reserve_drop, get_track,
}
use rk.Mrm.Ops.{
  mrm_ready_err, get_leased, get_ready, get, publish_copy, publish_over, publish_dropped,
  publish_words, publish,
}

-- the object at `a` has the same current buffer and size, and every buffer its block
pub record SameData (a : ℕ) (s s' : State) : Type 0 where
  pub block : s'.block ≡ s.block
  pub curr : (s'.mrms a).curr ≡ (s.mrms a).curr
  pub size : (s'.mrms a).size ≡ (s.mrms a).size

SameData-refl : (a : ℕ) (s : State) → SameData a s s
SameData-refl a s = record { block = refl; curr = refl; size = refl }

SameData-trans : (a : ℕ) (s s' s'' : State) → SameData a s s' → SameData a s' s'' → SameData a s s''
SameData-trans a s s' s'' v w = record {
  block = w.block ∙ v.block;
  curr = w.curr ∙ v.curr;
  size = w.size ∙ v.size;
}

-- another partition of the object
set_mem-SameData :
    (a : ℕ) (s : State) (x : Mrm) (m : Mem)
    → x.curr ≡ (s.mrms a).curr
    → x.size ≡ (s.mrms a).size
    → SameData a s (record s { mrms = update s.mrms a x; mem = m })
set_mem-SameData a s x m e f = record {
  block = refl;
  curr = ap (λ y. y.curr) (update-same s.mrms a x) ∙ e;
  size = ap (λ y. y.size) (update-same s.mrms a x) ∙ f;
}

release_data-SameData :
    (k : Kernel) (s : State) (a b : ℕ) (r : Err × Partition × Mem)
    → SameData a s (release_data k s a b r).1
unfolding release_data release_block
release_data-SameData k s a b (e, p, m) =
    let s' : State = record s {
      mrms = update s.mrms a (record (s.mrms a) { data_mem = p });
      mem = m;
    } in
    let v = set_mem-SameData a s (record (s.mrms a) { data_mem = p }) m refl refl in
    let (f, q, n) = free (s'.mrms a).mrm_mem m (run_domain k) b in
    err-case (λ x. SameData a s x.1) e (release_block s' a b (f, q, n)) (λ g. (g, s'))
      (SameData-trans a s s' _ v
        (set_mem-SameData a s' (record (s'.mrms a) { mrm_mem = q }) n refl refl))
      (λ g n. v)

pub release_buffer-SameData :
    (k : Kernel) (s : State) (a b : ℕ) → SameData a s (release_buffer k s a b).1
unfolding release_buffer
release_buffer-SameData k s a b =
    release_data-SameData k s a b (free (s.mrms a).data_mem s.mem (run_domain k) (s.block b))

-- How a publication of `words` in buffer `b` ends.
abbrev pub Publishes : State → ℕ → ℕ → (ℕ → ℕ) → Err × State → Type 0
Publishes s a b words (e, s') =
    ((e ≢ success) × ((s'.mrms a).curr ≡ (s.mrms a).curr) × (s'.block ≡ s.block))
    ⊎ ((e ≡ success)
        × ((s'.mrms a).curr ≡ b)
        × ((s'.mrms a).size ≡ (s.mrms a).size)
        × (s'.block ≡ s.block)
        × (block_words s'.mem (s.block b) (s.mrms a).size ≡ first_words (s.mrms a).size words)
        × (s.users b ≡ 0))

-- what the copy leaves in the block, its address and length told twice
copied_words :
    (s : State) (p n q m : ℕ) (words : ℕ → ℕ)
    → q ≡ p
    → m ≡ n
    → block_words (put_words s.mem q m words) p n ≡ first_words n words
copied_words s p n q m words e f = rw (e, f) (block_words-put_words_self n s.mem p words)

publish_over-Publishes :
    (s : State) (a b : ℕ) (words : ℕ → ℕ) (r : Err × State)
    → s.users b ≡ 0
    → SameData a s r.1
    → Publishes s a b words (publish_over s a b words r)
unfolding publish_over publish_copy
publish_over-Publishes s a b words (success, s') z v =
    let x : Mrm = record (s'.mrms a) { curr = b } in
    inr (
      refl,
      ap (λ y. y.curr) (update-same s'.mrms a x),
      ap (λ y. y.size) (update-same s'.mrms a x) ∙ v.size,
      v.block,
      copied_words s' (s.block b) (s.mrms a).size (s'.block b) (s'.mrms a).size words
          (ap (λ f. f b) v.block) v.size,
      z,
    )
publish_over-Publishes s a b words (e, s') z v = inl ((λ p. cc p), v.curr, v.block)

refused :
    (s : State) (a b : ℕ) (words : ℕ → ℕ) (e : Err) → e ≢ success → Publishes s a b words (e, s)
refused s a b words e n = inl (n, refl, refl)

publish_dropped-Publishes :
    (k : Kernel) (s : State) (a b : ℕ) (words : ℕ → ℕ) (r : Err × List Lease)
    → s.users b ≡ 0
    → Publishes s a b words (publish_dropped k s a b words r)
unfolding publish_dropped
publish_dropped-Publishes k s a b words (success, ls) z =
    let s' = set_leases s ls in
    let c = (s.mrms a).curr in
    let v : SameData a s s' = record { block = refl; curr = refl; size = refl } in
    let t = not (c == 0) && not (c == b) && s.users c == 0 && not (buffer_reserved k ls a c) in
    publish_over-Publishes s a b words (if t then release_buffer k s' a c else (success, s')) z
      (elim (Bool-cases t) [
        | inl e ↦
            rw e (
              SameData-trans a s s' (release_buffer k s' a c).1 v
                (release_buffer-SameData k s' a c))
        | inr e ↦ rw e v
      ])
publish_dropped-Publishes k s a b words (e, ls) z = refused s a b words e (λ p. cc p)

publish_words-Publishes :
    (k : Kernel) (s : State) (a b : ℕ) (words : ℕ → ℕ)
    → Publishes s a b words (publish_words k s a b (some words))
unfolding publish_words
publish_words-Publishes k s a b words =
    elim (Bool-cases (not (buffer_valid s a b) || not (s.users b == 0))) [
      | inl e ↦ rw e (refused s a b words mem_free (λ p. cc p))
      | inr e ↦ rw e (
          err-case (Publishes s a b words) (payload_valid (s.mrms a) true)
            (publish_dropped k s a b words (reserve_drop k s.leases a b)) (λ f. (f, s))
            (publish_dropped-Publishes k s a b words (reserve_drop k s.leases a b)
              (ground (arith, e)))
            (λ f n. refused s a b words f n))
    ]

pub publish_outcome :
    (k : Kernel) (s : State) (a b : ℕ) (words : ℕ → ℕ)
    → Publishes s a b words (publish k s a b (some words))
unfolding publish
publish_outcome k s a b words =
    err-case (Publishes s a b words) (mrm_ready_err k (s.mrms a))
      (if b == 0 then (obj_null, s) else publish_words k s a b (some words)) (λ e. (e, s))
      (if_both (Publishes s a b words) (b == 0) (obj_null, s) (publish_words k s a b (some words))
        (refused s a b words obj_null (λ p. cc p)) (publish_words-Publishes k s a b words))
      (λ e n. refused s a b words e n)

-- What a get gives: nothing, or the current buffer with the words of its block.
abbrev Gets : State → ℕ → ℕ × List ℕ × State → Type 0
Gets s a (c, words, s') =
    ((c ≡ 0) × (words ≡ []))
    ⊎ ((c ≡ (s.mrms a).curr) × (words ≡ block_words s.mem (s.block c) (s.mrms a).size))

get_leased-Gets :
    (s : State) (a : ℕ) (r : Err × List Lease) → Gets s a (get_leased s a (s.mrms a).curr r)
unfolding get_leased
get_leased-Gets s a (success, ls) = inr (refl, refl)
get_leased-Gets s a (e, ls) = inl (refl, refl)

get_ready-Gets : (k : Kernel) (s : State) (a : ℕ) (dst : Bool) → Gets s a (get_ready k s a dst)
unfolding get_ready
get_ready-Gets k s a dst =
    let c = (s.mrms a).curr in
    let r = get_track k s.leases a c in
    elim (Bool-cases (not dst || (c == 0 || buffer_reserved k s.leases a c))) [
      | inl b ↦ rw b (inl (refl, refl))
      | inr b ↦ rw b (
          err-case (Gets s a) (payload_valid (s.mrms a) dst) (get_leased s a c r) (λ e. (0, [], s))
            (get_leased-Gets s a r) (λ e n. inl (refl, refl)))
    ]

get-Gets : (k : Kernel) (s : State) (a : ℕ) (dst : Bool) → Gets s a (get k s a dst)
unfolding get
get-Gets k s a dst =
    err-case (Gets s a) (mrm_ready_err k (s.mrms a)) (get_ready k s a dst) (λ e. (0, [], s))
      (get_ready-Gets k s a dst) (λ e n. inl (refl, refl))

-- After a kMRMPublish that succeeds, a kMRMGet gives the buffer that was published with the
-- first `size` words of the message, or NULL and no words.
pub get-publish :
    (k k' : Kernel) (s : State) (a b : ℕ) (words : ℕ → ℕ) (dst : Bool)
    → (publish k s a b (some words)).0 ≡ success
    → let (c, got, s') = get k' (publish k s a b (some words)).1 a dst in
      ((c ≡ 0) × (got ≡ [])) ⊎ ((c ≡ b) × (got ≡ first_words (s.mrms a).size words))
get-publish k k' s a b words dst e =
    let s' = (publish k s a b (some words)).1 in
    elim (publish_outcome k s a b words) [
      | inl h ↦ absurd (h.0 e)
      | inr h ↦ elim (get-Gets k' s' a dst) [
        | inl g ↦ inl g
        | inr g ↦
            let p = g.0 ∙ h.1 in
            inr (
              p,
              g.1
                  ∙ ap (λ c. block_words s'.mem (s'.block c) (s'.mrms a).size) p
                  ∙ ap (λ f. block_words s'.mem (f b) (s'.mrms a).size) h.3
                  ∙ ap (λ n. block_words s'.mem (s.block b) n) h.2
                  ∙ h.4,
            )
      ]
    ]
