-- ===== src/Mrm/Ops.antt =====
-- The calls of core/src/kmrm.c on the object at address `a`, after the handle was resolved.
use rk.Base.{ℕ, Bool, true, ◌&&◌, ◌||◌, not, Option, none, some, List, [], ◌==◌, if◌then◌else◌}
use rk.Base.Word.{add_word}
use rk.Err.{Err, success, obj_null, obj_not_init, invalid_obj, mem_free}
use rk.Kernel.{Kernel, update}
use rk.DynObj.Family.{◌then_err◌}
use rk.Mrm.Words.{put_words, block_words}
use rk.Mrm.Defs.{
  Mrm, Lease, State, mrm_kobj_id, set_users, set_leases, mrm_access_err, payload_valid,
  buffer_valid, release_buffer, buffer_alloc, buffer_reserved, reserve_track, reserve_drop,
  get_track, get_drop, get_release,
}

-- the tests that the calls begin with
unfoldable pub mrm_ready_err : Kernel → Mrm → Err
unfolding mrm_access_err
mrm_ready_err k x =
    (if x.header.init then success else obj_not_init)
    then_err (if x.header.obj_id == mrm_kobj_id then success else invalid_obj)
    then_err mrm_access_err k x

-- what kMRMReserve hands out before the lease: the current buffer where none uses or reserves it,
-- or else a new one
unfoldable pub reserve_choice : Kernel → State → ℕ → ℕ × State
unfolding buffer_reserved buffer_alloc
reserve_choice k s a =
    let c = (s.mrms a).curr in
    let fresh = buffer_alloc k s a in
    if not (c == 0) && s.users c == 0 && not (buffer_reserved k s.leases a c)
    then (c, set_users s c 0)
    else fresh

unfoldable pub reserve_leased : Kernel → State → ℕ → ℕ → Err × List Lease → ℕ × State
unfolding release_buffer
reserve_leased k s a b (success, ls) = (b, set_leases s ls)
reserve_leased k s a b (e, ls) =
    if b == (s.mrms a).curr then (0, s) else (0, (release_buffer k s a b).1)

unfoldable pub reserve_chosen : Kernel → ℕ → ℕ × State → ℕ × State
unfolding reserve_leased reserve_track
reserve_chosen k a (b, s) =
    if b == 0 then (0, s) else reserve_leased k s a b (reserve_track k s.leases a b)

-- kMRMReserve: the buffer, or NULL
unfoldable pub reserve : Kernel → State → ℕ → ℕ × State
unfolding mrm_ready_err reserve_chosen reserve_choice
reserve k s a = elim (mrm_ready_err k (s.mrms a)) [
  | success ↦ reserve_chosen k a (reserve_choice k s a)
  | _ ↦ (0, s)
]

-- the end of kMRMPublish: the words are copied and the buffer becomes the current one
unfoldable pub publish_copy : State → ℕ → ℕ → (ℕ → ℕ) → State
unfolding put_words
publish_copy s a b words =
    let x = s.mrms a in
    record s {
      mem = put_words s.mem (s.block b) x.size words;
      mrms = update s.mrms a (record x { curr = b });
    }

unfoldable pub publish_over : State → ℕ → ℕ → (ℕ → ℕ) → Err × State → Err × State
unfolding publish_copy
publish_over s a b words (success, s') = (success, publish_copy s' a b words)
publish_over s a b words (e, s') = (e, s')

-- after the reservation was dropped: the buffer that was current is released where none needs it
unfoldable pub publish_dropped : Kernel → State → ℕ → ℕ → (ℕ → ℕ) → Err × List Lease → Err × State
unfolding publish_over release_buffer buffer_reserved
publish_dropped k s a b words (success, ls) =
    let s' = set_leases s ls in
    let c = (s.mrms a).curr in
    publish_over s a b words (
      if not (c == 0) && not (c == b) && s.users c == 0 && not (buffer_reserved k ls a c)
      then release_buffer k s' a c
      else (success, s'))
publish_dropped k s a b words (e, ls) = (e, s)

-- kMRMPublish of the words `pubMesgPtr[i]`, `none` for NULL
unfoldable pub publish_words : Kernel → State → ℕ → ℕ → Option (ℕ → ℕ) → Err × State
unfolding publish_dropped reserve_drop buffer_valid payload_valid
publish_words k s a b none = (obj_null, s)
publish_words k s a b (some words) =
    if not (buffer_valid s a b) || not (s.users b == 0)
    then (mem_free, s)
    else elim (payload_valid (s.mrms a) true) [
      | success ↦ publish_dropped k s a b words (reserve_drop k s.leases a b)
      | e ↦ (e, s)
    ]

unfoldable pub publish : Kernel → State → ℕ → ℕ → Option (ℕ → ℕ) → Err × State
unfolding mrm_ready_err publish_words
publish k s a b words = elim (mrm_ready_err k (s.mrms a)) [
  | success ↦ if b == 0 then (obj_null, s) else publish_words k s a b words
  | e ↦ (e, s)
]

-- kMRMGet: the buffer, or NULL; the words that are copied out; `there` is whether `getMesgPtr` is
unfoldable pub get_leased : State → ℕ → ℕ → Err × List Lease → ℕ × List ℕ × State
unfolding block_words
get_leased s a c (success, ls) = (
  c,
  block_words s.mem (s.block c) (s.mrms a).size,
  set_users (set_leases s ls) c (add_word (s.users c) 1),
)
get_leased s a c (e, ls) = (0, [], s)

unfoldable pub get_ready : Kernel → State → ℕ → Bool → ℕ × List ℕ × State
unfolding get_leased get_track buffer_reserved payload_valid
get_ready k s a there =
    let c = (s.mrms a).curr in
    if not there || (c == 0 || buffer_reserved k s.leases a c)
    then (0, [], s)
    else elim (payload_valid (s.mrms a) there) [
      | success ↦ get_leased s a c (get_track k s.leases a c)
      | _ ↦ (0, [], s)
    ]

unfoldable pub get : Kernel → State → ℕ → Bool → ℕ × List ℕ × State
unfolding mrm_ready_err get_ready
get k s a there = elim (mrm_ready_err k (s.mrms a)) [
  | success ↦ get_ready k s a there
  | _ ↦ (0, [], s)
]

-- kMRMUnget
unfoldable pub unget_dropped : Kernel → State → ℕ → ℕ → Err × List Lease → Err × State
unfolding get_release
unget_dropped k s a b (success, ls) =
    let (e, released, s') = get_release k (set_leases s ls) a b 1 in (e, s')
unget_dropped k s a b (e, ls) = (e, s)

unfoldable pub unget : Kernel → State → ℕ → ℕ → Err × State
unfolding unget_dropped get_drop buffer_valid mrm_access_err
unget k s a b =
    let x = s.mrms a in
    let e =
      (if x.header.init then success else obj_not_init)
      then_err (if b == 0 then obj_null else success)
      then_err (if x.header.obj_id == mrm_kobj_id then success else invalid_obj)
      then_err mrm_access_err k x in
    elim e [
      | success ↦
          if not (buffer_valid s a b) || s.users b == 0
          then (mem_free, s)
          else unget_dropped k s a b (get_drop k s.leases a b)
      | e' ↦ (e', s)
    ]
