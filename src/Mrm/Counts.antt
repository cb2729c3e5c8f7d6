-- ===== src/Mrm/Counts.antt =====
-- The users of a buffer are the get references that the lease table counts on it: kMRMGet,
-- kMRMUnget and kMRMPublish keep it so.
use rk.Base.{
  ℕ, ◌+◌, ◌-◌, ◌*◌, ◌≤◌, ◌≡◌, ◌≢◌, refl, sym, inl, inr, Bool, true, false, ◌&&◌, ◌||◌, not, Option,
  none, some, List, [], ◌==◌, length, Bool-cases, arith, ltb, if◌then◌else◌,
}
use mathlib.Core.Path.{subst}
use rk.Base.Word.{add_word}
use rk.Base.Distinct.{All}
use rk.Err.{Err, success, err-case, mem_free, obj_null}
use rk.Kernel.{Kernel, update, run_domain}
use rk.Mem.{free, Partition}
use rk.Base.Memory.{Mem}
use rk.Mrm.Defs.{
  Lease, State, set_users, set_leases, lease_find, lease_slot, lease_task, get_at, get_slot,
  get_track, get_drop_at, reserve_drop_at, get_drop_slot, get_drop, reserve_drop_slot, reserve_drop,
  release_block, release_data, release_buffer, get_release, buffer_reserved, payload_valid,
  buffer_valid,
}
use rk.Mrm.Ops.{
  mrm_ready_err, get_leased, get_ready, get, unget_dropped, unget, publish_copy, publish_over,
  publish_dropped, publish_words, publish,
}
use rk.Mrm.Leases.{
  total, LeaseOk, Moves, total-le, get_at-Moves, get_drop_at-Moves, reserve_drop_at-Moves,
  lease_slot-At, lease_find-holds,
}

-- The users of every buffer are the references that the table counts; the table is short enough
-- for the counts to fit a word.
pub record LeasesAgree (s : State) : Type 0 where
  pub counts : (b : ℕ) → b ≢ 0 → s.users b ≡ total b s.leases
  pub leases_ok : All LeaseOk s.leases
  pub room : length s.leases ≤ 65536

module _ (k : Kernel) (t : ℕ) (runs : lease_task k ≡ some t) where
  get_slot-Moves :
      (ls : List Lease) (a b : ℕ) (o : Option ℕ)
      → lease_slot ls t a b ≡ o
      → All LeaseOk ls
      → a ≢ 0
      → (get_slot ls t a b o).0 ≡ success
      → Moves ls (get_slot ls t a b o).1 b 1 0
  unfolding get_slot
  get_slot-Moves ls a b none p h n e = absurd (ground (arith, e))
  get_slot-Moves ls a b (some i) p h n e =
      let (l, g, w) = lease_slot-At ls t a b i p in
      subst (λ o. Moves ls (get_at ls t a b i o).1 b 1 0) (sym g)
        (get_at-Moves ls t a b i l h g w n (subst (λ o. (get_at ls t a b i o).0 ≡ success) g e))

  get_track-Moves :
      (ls : List Lease) (a b : ℕ)
      → All LeaseOk ls
      → a ≢ 0
      → (get_track k ls a b).0 ≡ success
      → Moves ls (get_track k ls a b).1 b 1 0
  unfolding get_track
  get_track-Moves ls a b h n e =
      let f = λ (o : Option ℕ). elim o as (λ p. Err × List Lease) [
        | none ↦ (success, ls)
        | some u ↦ get_slot ls u a b (lease_slot ls u a b)
      ] in
      subst (λ o. Moves ls (f o).1 b 1 0) (sym runs)
        (get_slot-Moves ls a b (lease_slot ls t a b) refl h n
          (subst (λ o. (f o).0 ≡ success) runs e))

  get_drop_slot-Moves :
      (ls : List Lease) (a b : ℕ) (o : Option ℕ)
      → lease_find ls t a b ≡ o
      → All LeaseOk ls
      → (get_drop_slot ls o).0 ≡ success
      → Moves ls (get_drop_slot ls o).1 b 0 1
  unfolding get_drop_slot
  get_drop_slot-Moves ls a b none p h e = absurd (ground (arith, e))
  get_drop_slot-Moves ls a b (some i) p h e =
      let (l, g, w) = lease_find-holds ls t a b i p in
      subst (λ o. Moves ls (get_drop_at ls i o).1 b 0 1) (sym g)
        (get_drop_at-Moves ls b i l h g (ground (arith, w))
          (subst (λ o. (get_drop_at ls i o).0 ≡ success) g e))

  get_drop-Moves :
      (ls : List Lease) (a b : ℕ)
      → All LeaseOk ls
      → (get_drop k ls a b).0 ≡ success
      → Moves ls (get_drop k ls a b).1 b 0 1
  unfolding get_drop
  get_drop-Moves ls a b h e =
      let f = λ (o : Option ℕ). elim o as (λ p. Err × List Lease) [
        | none ↦ (success, ls)
        | some u ↦ get_drop_slot ls (lease_find ls u a b)
      ] in
      subst (λ o. Moves ls (f o).1 b 0 1) (sym runs)
        (get_drop_slot-Moves ls a b (lease_find ls t a b) refl h
          (subst (λ o. (f o).0 ≡ success) runs e))

  reserve_drop_slot-Moves :
      (ls : List Lease) (a b : ℕ) (o : Option ℕ)
      → lease_find ls t a b ≡ o
      → All LeaseOk ls
      → (reserve_drop_slot ls o).0 ≡ success
      → Moves ls (reserve_drop_slot ls o).1 b 0 0
  unfolding reserve_drop_slot
  reserve_drop_slot-Moves ls a b none p h e = absurd (ground (arith, e))
  reserve_drop_slot-Moves ls a b (some i) p h e =
      let (l, g, w) = lease_find-holds ls t a b i p in
      subst (λ o. Moves ls (reserve_drop_at ls i o).1 b 0 0) (sym g)
        (reserve_drop_at-Moves ls b i l h g (subst (λ o. (reserve_drop_at ls i o).0 ≡ success) g e))

  reserve_drop-Moves :
      (ls : List Lease) (a b : ℕ)
      → All LeaseOk ls
      → (reserve_drop k ls a b).0 ≡ success
      → Moves ls (reserve_drop k ls a b).1 b 0 0
  unfolding reserve_drop
  reserve_drop-Moves ls a b h e =
      let f = λ (o : Option ℕ). elim o as (λ p. Err × List Lease) [
        | none ↦ (success, ls)
        | some u ↦ reserve_drop_slot ls (lease_find ls u a b)
      ] in
      subst (λ o. Moves ls (f o).1 b 0 0) (sym runs)
        (reserve_drop_slot-Moves ls a b (lease_find ls t a b) refl h
          (subst (λ o. (f o).0 ≡ success) runs e))

-- Releasing a buffer touches no count and no lease.
abbrev SameCounts : State → State → Type 0
SameCounts s s' = (s'.users ≡ s.users) × (s'.leases ≡ s.leases)

release_data-SameCounts :
    (k : Kernel) (s : State) (a b : ℕ) (r : Err × Partition × Mem)
    → SameCounts s (release_data k s a b r).1
unfolding release_data release_block
release_data-SameCounts k s a b (e, p, m) =
    let s' : State = record s {
      mrms = update s.mrms a (record (s.mrms a) { data_mem = p });
      mem = m;
    } in
    err-case (λ x. SameCounts s x.1) e
      (release_block s' a b (free (s'.mrms a).mrm_mem m (run_domain k) b)) (λ f. (f, s'))
      (refl, refl) (λ f n. (refl, refl))

release_buffer-SameCounts :
    (k : Kernel) (s : State) (a b : ℕ) → SameCounts s (release_buffer k s a b).1
unfolding release_buffer
release_buffer-SameCounts k s a b =
    release_data-SameCounts k s a b (free (s.mrms a).data_mem s.mem (run_domain k) (s.block b))

SameCounts-LeasesAgree : (s s' : State) → SameCounts s s' → LeasesAgree s → LeasesAgree s'
SameCounts-LeasesAgree s s' (e, f) h = record {
  counts = λ b n. rw (e, f) (h.counts b n);
  leases_ok = rw f h.leases_ok;
  room = rw f h.room;
}

-- one more user and one more reference
count-more :
    (users : ℕ → ℕ) (ls ls' : List Lease) (b c : ℕ)
    → users b ≡ total b ls
    → total b ls' + (if c == b then 0 else 0) ≡ total b ls + (if c == b then 1 else 0)
    → total b ls ≤ length ls * 65535
    → length ls ≤ 65536
    → update users c (add_word (users c) 1) b ≡ total b ls'
count-more users ls ls' b c e m l r = ground (arith, e, m, l, r)

-- one user and one reference less
count-less :
    (users : ℕ → ℕ) (ls ls' : List Lease) (b c : ℕ)
    → users b ≡ total b ls
    → total b ls' + (if c == b then 1 else 0) ≡ total b ls + (if c == b then 0 else 0)
    → update users c (users c - 1) b ≡ total b ls'
count-less users ls ls' b c e m = ground (arith, e, m)

get_leased-LeasesAgree :
    (s : State) (a c : ℕ) (r : Err × List Lease)
    → LeasesAgree s
    → (r.0 ≡ success → Moves s.leases r.1 c 1 0)
    → LeasesAgree (get_leased s a c r).2
unfolding get_leased
get_leased-LeasesAgree s a c (success, ls) h m =
    let v = m refl in
    record {
      counts = λ b n.
          count-more s.users s.leases ls b c (h.counts b n) (v.count b)
            (total-le b s.leases h.leases_ok) h.room;
      leases_ok = v.leases_ok;
      room = omega (arith, v.as_long, h.room);
    }
get_leased-LeasesAgree s a c (e, ls) h m = h

-- a kernel with a live task running, and an object that is there
module _ (k : Kernel) (t : ℕ) (runs : lease_task k ≡ some t) (s : State) (a : ℕ)
    (there : a ≢ 0) where
  get_ready-LeasesAgree : (dst : Bool) → LeasesAgree s → LeasesAgree (get_ready k s a dst).2
  unfolding get_ready
  get_ready-LeasesAgree dst h =
      let c = (s.mrms a).curr in
      let r = get_track k s.leases a c in
      elim (Bool-cases (not dst || (c == 0 || buffer_reserved k s.leases a c))) [
        | inl b ↦ rw b h
        | inr b ↦ rw b (
            err-case (λ x. LeasesAgree x.2) (payload_valid (s.mrms a) dst) (get_leased s a c r)
              (λ e. (0, [], s))
              (get_leased-LeasesAgree s a c r h
                (get_track-Moves k t runs s.leases a c h.leases_ok there))
              (λ e n. h))
      ]

  get-LeasesAgree : (dst : Bool) → LeasesAgree s → LeasesAgree (get k s a dst).2
  unfolding get
  get-LeasesAgree dst h =
      err-case (λ x. LeasesAgree x.2) (mrm_ready_err k (s.mrms a)) (get_ready k s a dst)
        (λ e. (0, [], s)) (get_ready-LeasesAgree dst h) (λ e n. h)

get_release-SameCounts :
    (k : Kernel) (s : State) (a b : ℕ)
    → (s.users b == 0) ≡ false
    → SameCounts (set_users s b (s.users b - 1)) (get_release k s a b 1).2
unfolding get_release
get_release-SameCounts k s a b z =
    let s' = set_users s b (s.users b - 1) in
    let e : ltb (s.users b) 1 ≡ false = ground (arith, z) in
    rw e (elim (Bool-cases (s'.users b == 0 && not ((s.mrms a).curr == b))) [
      | inl c ↦ rw c (release_buffer-SameCounts k s' a b)
      | inr c ↦ rw c (refl, refl)
    ])

unget_dropped-LeasesAgree :
    (k : Kernel) (s : State) (a b : ℕ) (r : Err × List Lease)
    → LeasesAgree s
    → (s.users b == 0) ≡ false
    → (r.0 ≡ success → Moves s.leases r.1 b 0 1)
    → LeasesAgree (unget_dropped k s a b r).1
unfolding unget_dropped
unget_dropped-LeasesAgree k s a b (success, ls) h z m =
    let v = m refl in
    let s' : State = set_users (set_leases s ls) b (s.users b - 1) in
    SameCounts-LeasesAgree s' (get_release k (set_leases s ls) a b 1).2
      (get_release-SameCounts k (set_leases s ls) a b z)
      (record {
        counts = λ c n. count-less s.users s.leases ls c b (h.counts c n) (v.count c);
        leases_ok = v.leases_ok;
        room = omega (arith, v.as_long, h.room);
      })
unget_dropped-LeasesAgree k s a b (e, ls) h z m = h

-- a table in which a reservation was dropped
set_leases-LeasesAgree :
    (s : State) (ls : List Lease) (b : ℕ)
    → LeasesAgree s
    → Moves s.leases ls b 0 0
    → LeasesAgree (set_leases s ls)
set_leases-LeasesAgree s ls b h v = record {
  counts = λ c n. ground (arith, h.counts c n, v.count c);
  leases_ok = v.leases_ok;
  room = omega (arith, v.as_long, h.room);
}

publish_over-LeasesAgree :
    (s : State) (a b : ℕ) (words : ℕ → ℕ) (r : Err × State)
    → LeasesAgree r.1
    → LeasesAgree (publish_over s a b words r).1
unfolding publish_over publish_copy
publish_over-LeasesAgree s a b words (success, s') h =
    SameCounts-LeasesAgree s' (publish_copy s' a b words) (refl, refl) h
publish_over-LeasesAgree s a b words (e, s') h = h

publish_dropped-LeasesAgree :
    (k : Kernel) (s : State) (a b : ℕ) (words : ℕ → ℕ) (r : Err × List Lease)
    → LeasesAgree s
    → (r.0 ≡ success → Moves s.leases r.1 b 0 0)
    → LeasesAgree (publish_dropped k s a b words r).1
unfolding publish_dropped
publish_dropped-LeasesAgree k s a b words (success, ls) h m =
    let s' = set_leases s ls in
    let c = (s.mrms a).curr in
    let g = set_leases-LeasesAgree s ls b h (m refl) in
    publish_over-LeasesAgree s a b words
      (if not (c == 0) && not (c == b) && s.users c == 0 && not (buffer_reserved k ls a c)
        then release_buffer k s' a c
        else (success, s'))
      (elim (Bool-cases
        (not (c == 0) && not (c == b) && s.users c == 0 && not (buffer_reserved k ls a c))) [
          | inl e ↦ rw e (
              SameCounts-LeasesAgree s' (release_buffer k s' a c).1
                (release_buffer-SameCounts k s' a c) g)
          | inr e ↦ rw e g
        ])
publish_dropped-LeasesAgree k s a b words (e, ls) h m = h

module _ (k : Kernel) (t : ℕ) (runs : lease_task k ≡ some t) (s : State) (a : ℕ) where
  unget-LeasesAgree : (b : ℕ) → LeasesAgree s → LeasesAgree (unget k s a b).1
  unfolding unget
  unget-LeasesAgree b h =
      let r = get_drop k s.leases a b in
      err-case (λ x. LeasesAgree x.1) _
        (if not (buffer_valid s a b) || s.users b == 0
          then (mem_free, s)
          else unget_dropped k s a b r)
        (λ e. (e, s))
        (elim (Bool-cases (not (buffer_valid s a b) || s.users b == 0)) [
          | inl e ↦ rw e h
          | inr e ↦ rw e (
              unget_dropped-LeasesAgree k s a b r h (ground (arith, e))
                (get_drop-Moves k t runs s.leases a b h.leases_ok))
        ])
        (λ e n. h)

  publish_words-LeasesAgree :
      (b : ℕ) (words : Option (ℕ → ℕ)) → LeasesAgree s → LeasesAgree (publish_words k s a b words).1
  unfolding publish_words
  publish_words-LeasesAgree b none h = h
  publish_words-LeasesAgree b (some words) h =
      let r = reserve_drop k s.leases a b in
      elim (Bool-cases (not (buffer_valid s a b) || not (s.users b == 0))) [
        | inl e ↦ rw e h
        | inr e ↦ rw e (
            err-case (λ x. LeasesAgree x.1) (payload_valid (s.mrms a) true)
              (publish_dropped k s a b words r) (λ f. (f, s))
              (publish_dropped-LeasesAgree k s a b words r h
                (reserve_drop-Moves k t runs s.leases a b h.leases_ok))
              (λ f n. h))
      ]

  publish-LeasesAgree :
      (b : ℕ) (words : Option (ℕ → ℕ)) → LeasesAgree s → LeasesAgree (publish k s a b words).1
  unfolding publish
  publish-LeasesAgree b words h =
      err-case (λ x. LeasesAgree x.1) (mrm_ready_err k (s.mrms a))
        (if b == 0 then (obj_null, s) else publish_words k s a b words) (λ e. (e, s))
        (elim (Bool-cases (b == 0)) [
          | inl e ↦ rw e h
          | inr e ↦ rw e (publish_words-LeasesAgree b words h)
        ])
        (λ e n. h)

-- kMRMGet, kMRMUnget and kMRMPublish, called from a live task on an object that is there,
-- whatever their outcome, keep the counts in order: the users of every buffer are the get
-- references that the lease table counts on it, a count fits 16 bits, and a free lease
-- counts nothing.
pub calls-LeasesAgree :
    (k : Kernel) (t : ℕ) (s : State) (a b : ℕ) (dst : Bool) (words : Option (ℕ → ℕ))
    → lease_task k ≡ some t
    → a ≢ 0
    → LeasesAgree s
    → LeasesAgree (get k s a dst).2
      × LeasesAgree (unget k s a b).1
      × LeasesAgree (publish k s a b words).1
calls-LeasesAgree k t s a b dst words runs there h = (
  get-LeasesAgree k t runs s a there dst h,
  unget-LeasesAgree k t runs s a b h,
  publish-LeasesAgree k t runs s a b words h,
)
