-- ===== src/Delta/Expiry.antt =====
-- Remaining delays: what the deltas stand for.
use rk.Base.{
  ℕ, ◌+◌, ◌-◌, ◌≤◌, ◌<◌, ◌≡◌, refl, sym, ap, inl, inr, Bool, false, ◌||◌, Option, none, some, List,
  [], ◌∷◌, map, ◌==◌, ltb, leb, if◌then◌else◌, Bool-cases, arith,
}
use mathlib.Core.Path.{subst}
use rk.Base.Word.{ulong_max}
use rk.Base.Distinct.{NotIn, Distinct}
use rk.Delta.{Node, insert_delta, donate, remove_node, dec_head, expire, tick}

-- the ticks until node `k` expires, counted from `base` ticks before the head's countdown
unfoldable pub remaining : ℕ → List Node → ℕ → Option ℕ
remaining base [] k = none
remaining base (c ∷ cs) k =
    if c.id == k then some (base + c.dtick) else remaining (base + c.dtick) cs k

-- Insertion gives the new node its own delay and leaves that of every other node.
remaining-insert_from :
    (b : ℕ) (ns : List Node) (n : Node) (k : ℕ)
    → remaining b ns n.id ≡ none
    → remaining b (insert_delta ns n) k
      ≡ (if n.id == k then some (b + n.dtick) else remaining b ns k)
unfolding remaining insert_delta
remaining-insert_from b [] n k h = refl
remaining-insert_from b (c ∷ cs) n k h =
    ground
      (arith, remaining-insert_from (b + c.dtick) cs (record n { dtick = n.dtick - c.dtick }) k)

abbrev pub ids : List Node → List ℕ
ids = map (λ n. n.id)

-- the delay of the last node to expire
abbrev pub total : List Node → ℕ
total [] = 0
total (c ∷ cs) = c.dtick + total cs

pub remaining-NotIn : (b : ℕ) (ns : List Node) (k : ℕ) → NotIn k (ids ns) → remaining b ns k ≡ none
unfolding remaining
remaining-NotIn b [] k h = refl
remaining-NotIn b (c ∷ cs) k h = ground (arith, remaining-NotIn (b + c.dtick) cs k h.1)

-- Adding a timeout for a node that is not in the list: the new node expires after its own
-- delay, and every other node as before.
pub remaining-insert_delta :
    (ns : List Node) (n : Node) (k : ℕ)
    → NotIn n.id (ids ns)
    → remaining 0 (insert_delta ns n) k ≡ (if n.id == k then some n.dtick else remaining 0 ns k)
remaining-insert_delta ns n k h =
    ground (arith, remaining-insert_from 0 ns n k, remaining-NotIn 0 ns n.id h)

remaining-donate :
    (b d : ℕ) (cs : List Node) (k : ℕ)
    → d + total cs ≤ ulong_max
    → remaining b (donate d cs) k ≡ remaining (b + d) cs k
unfolding remaining donate
remaining-donate b d [] k h = refl
remaining-donate b d (c ∷ cs) k h =
    ap (λ t. if c.id == k then some t else remaining t cs k) (omega arith)

remaining-remove_from :
    (b : ℕ) (ns : List Node) (j k : ℕ)
    → total ns ≤ ulong_max
    → Distinct (ids ns)
    → remaining b (remove_node ns j) k ≡ (if j == k then none else remaining b ns k)
unfolding remaining remove_node
remaining-remove_from b [] j k u h = ground arith
remaining-remove_from b (c ∷ cs) j k u h = ground (
  arith,
  remaining-donate b c.dtick cs k u,
  remaining-remove_from (b + c.dtick) cs j k,
  remaining-NotIn (b + c.dtick) cs k,
  same,
)
  where
    same : c.id ≡ k → remaining (b + c.dtick) cs k ≡ none
    same e = remaining-NotIn (b + c.dtick) cs k (subst (λ i. NotIn i (ids cs)) e h.0)

-- Removing a node from a list where none stands twice and whose delays add up to a word: the
-- node is gone, and every other node expires as before.
pub remaining-remove_node :
    (ns : List Node) (j k : ℕ)
    → total ns ≤ ulong_max
    → Distinct (ids ns)
    → remaining 0 (remove_node ns j) k ≡ (if j == k then none else remaining 0 ns k)
remaining-remove_node = remaining-remove_from 0

abbrev pub contains : ℕ → List ℕ → Bool
contains k [] = false
contains k (x ∷ xs) = x == k || contains k xs

-- a delay after one more tick, and whether that tick was its last
abbrev pub later : Option ℕ → Option ℕ
later none = none
later (some t) = if leb t 1 then none else some (t - 1)

abbrev pub is_due : Option ℕ → Bool
is_due none = false
is_due (some t) = leb t 1

abbrev keep : Option ℕ → Option ℕ
keep none = none
keep (some t) = if t == 0 then none else some t

abbrev is_zero : Option ℕ → Bool
is_zero none = false
is_zero (some t) = t == 0

keep_pos :
    (b : ℕ) (ns : List Node) (k : ℕ)
    → 0 < b
    → (keep (remaining b ns k) ≡ remaining b ns k) × (is_zero (remaining b ns k) ≡ false)
unfolding remaining
keep_pos b [] k h = (refl, refl)
keep_pos b (c ∷ cs) k h = ground (arith, keep_pos (b + c.dtick) cs k)

remaining-expire :
    (ns : List Node) (k : ℕ)
    → Distinct (ids ns)
    → (remaining 0 (expire ns).1 k ≡ keep (remaining 0 ns k))
      × (contains k (expire ns).0 ≡ is_zero (remaining 0 ns k))
unfolding remaining expire
remaining-expire [] k h = (refl, refl)
remaining-expire (c ∷ cs) k h =
    ground (arith, remaining-expire cs k h.1, same, keep_pos c.dtick cs k)
  where
    same : c.id ≡ k → remaining 0 cs k ≡ none
    same e = remaining-NotIn 0 cs k (subst (λ i. NotIn i (ids cs)) e h.0)

-- No linked node is due already: the head's countdown is not 0.
abbrev pub IsLive : List Node → Type 0
IsLive [] = Unit
IsLive (c ∷ cs) = 0 < c.dtick

abbrev less_one : Option ℕ → Option ℕ
less_one none = none
less_one (some t) = some (t - 1)

remaining_shift :
    (b : ℕ) (ns : List Node) (k : ℕ) → remaining b ns k ≡ less_one (remaining (b + 1) ns k)
unfolding remaining
remaining_shift b [] k = refl
remaining_shift b (c ∷ cs) k = ground (arith, remaining_shift (b + c.dtick) cs k, swap)
  where
    swap : remaining (b + c.dtick + 1) cs k ≡ remaining (b + 1 + c.dtick) cs k
    swap = ap (λ t. remaining t cs k) (omega arith)

remaining-dec_head :
    (ns : List Node) (k : ℕ) → IsLive ns → remaining 0 (dec_head ns) k ≡ less_one (remaining 0 ns k)
unfolding remaining dec_head
remaining-dec_head [] k h = refl
remaining-dec_head (c ∷ cs) k h = ground (arith, remaining_shift (c.dtick - 1) cs k, back)
  where
    back : remaining (c.dtick - 1 + 1) cs k ≡ remaining c.dtick cs k
    back = ap (λ t. remaining t cs k) (omega arith)

ids-dec_head : (ns : List Node) → ids (dec_head ns) ≡ ids ns
unfolding dec_head
ids-dec_head [] = refl
ids-dec_head (c ∷ cs) = ground arith

-- One system tick on a list whose head has a tick to go and where no node stands twice: a
-- node with one tick left expires and is reported, every other one has one tick less to go.
pub remaining-tick :
    (ns : List Node) (k : ℕ)
    → IsLive ns
    → Distinct (ids ns)
    → (remaining 0 (tick ns).1 k ≡ later (remaining 0 ns k))
      × (contains k (tick ns).0 ≡ is_due (remaining 0 ns k))
unfolding tick
remaining-tick ns k live h = ground (
  arith,
  remaining-expire (dec_head ns) k (subst Distinct (sym (ids-dec_head ns)) h),
  remaining-dec_head ns k live,
)

-- `IsLive` is kept: a positive delay may be added, any node removed, and a tick reports what is due.
pub insert_delta-IsLive :
    (ns : List Node) (n : Node) → IsLive ns → 0 < n.dtick → IsLive (insert_delta ns n)
unfolding insert_delta
insert_delta-IsLive [] n live h = h
insert_delta-IsLive (c ∷ cs) n live h = elim (Bool-cases (ltb c.dtick n.dtick)) [
  | inl e ↦ rw e live
  | inr e ↦ rw e h
]

pub remove_node-IsLive :
    (ns : List Node) (k : ℕ) → total ns ≤ ulong_max → IsLive ns → IsLive (remove_node ns k)
unfolding remove_node
remove_node-IsLive [] k u live = tt
remove_node-IsLive (c ∷ cs) k u live = elim (Bool-cases (c.id == k)) [
  | inl e ↦ rw e (donated cs u)
  | inr e ↦ rw e live
]
  where
    donated : (cs : List Node) → c.dtick + total cs ≤ ulong_max → IsLive (donate c.dtick cs)
    donated [] u = unfold donate in tt
    donated (x ∷ xs) u = unfold donate in omega arith

expire-IsLive : (ns : List Node) → IsLive (expire ns).1
unfolding expire
expire-IsLive [] = tt
expire-IsLive (c ∷ cs) = elim (Bool-cases (c.dtick == 0)) [
  | inl e ↦ rw e (expire-IsLive cs)
  | inr e ↦ rw e (ground arith)
]

pub tick-IsLive : (ns : List Node) → IsLive (tick ns).1
unfolding tick
tick-IsLive ns = expire-IsLive (dec_head ns)
