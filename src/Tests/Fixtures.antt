-- ===== src/Tests/Fixtures.antt =====
-- A kernel that serves, kernels that refuse, a worker thread and a list as Boost's channel.
use fiberexec.Base.{
  ℕ, ◌+◌, refl, pos, negsuc, minus, Bool, true, false, List, [], ◌∷◌, ◌++◌, Option, none, some,
  length, is_empty, ltb, lt→ltb, le→ltb-false, if◌then◌else◌,
}
use fiberexec.Runtime.Abi.{ecanceled}
use fiberexec.Runtime.Uring.{Kernel, empty_ring}
use fiberexec.Runtime.Thread.{Thread}
use fiberexec.FiberOps.Submission.{IsReady, Serves}
use fiberexec.Channel.Boost.{BoostStatus, BoostChannel, IsDocumented}

-- Every wait ends with the result 5; a zero-copy send has two completions.
abbrev pub kernel : Kernel
kernel = record {
  room = λ r. true;
  submit_ret = λ r. pos 1;
  setup_buf_ring = λ r n g. pos 0;
  register_buffers = λ r n. pos 0;
  register_files = λ r n. pos 0;
  update_file = λ r i fd. pos 1;
  completions = λ r h. (pos 5, 2) ∷ (pos 0, 8) ∷ [];
  result = λ r h. pos 5;
  pool_stops = λ r h. false;
  fiber_stops = λ r h. false;
}

pub kernel-Serves : Serves kernel
kernel-Serves = record { room = λ r. refl; takes = λ r. refl }

-- No vacant entry; one vacant entry; no descriptor registered; every entry cancelled.
abbrev pub full_kernel : Kernel
full_kernel = record kernel { room = λ r. false }

abbrev pub narrow_kernel : Kernel
narrow_kernel = record kernel { room = λ r. is_empty r.sq }

abbrev pub refusing_kernel : Kernel
refusing_kernel = record kernel { update_file = λ r i fd. negsuc 8 }

abbrev pub cancelling_kernel : Kernel
cancelling_kernel = record kernel { result = λ r h. minus ecanceled }

abbrev pub thread : Thread
thread = record {
  has_ring = true;
  ring = empty_ring;
  fiber_stop = none;
  pool_stop = false;
  cancel_queue = [];
  notified = 0;
  frames = 0;
  shut_down = [];
  buf_groups = [];
}

pub thread-IsReady : IsReady thread
thread-IsReady = record { on_worker = refl; running = refl }

abbrev pub stopped_thread : Thread
stopped_thread = record thread { fiber_stop = some true }

-- A list of items, the size of the ring, and whether it is closed.
pub record ListChannel : Type 0 where
  pub items : List ℕ
  pub slots : ℕ
  pub shut : Bool

abbrev list_try_push : ℕ → ListChannel → BoostStatus × ListChannel
list_try_push x c =
    if c.shut
    then (BoostStatus.closed, c)
    else if ltb (length c.items + 1) c.slots
    then (BoostStatus.success, record c { items = c.items ++ (x ∷ []) })
    else (BoostStatus.full, c)

abbrev list_push : ℕ → ListChannel → Option (BoostStatus × ListChannel)
list_push x c =
    if c.shut
    then some (BoostStatus.closed, c)
    else if ltb (length c.items + 1) c.slots
    then some (BoostStatus.success, record c { items = c.items ++ (x ∷ []) })
    else none

abbrev list_pop_from : List ℕ → ListChannel → Option (BoostStatus × Option ℕ × ListChannel)
list_pop_from [] c = if c.shut then some (BoostStatus.closed, none, c) else none
list_pop_from (x ∷ xs) c = some (BoostStatus.success, some x, record c { items = xs })

abbrev list_value_pop_from : List ℕ → ListChannel → Option (Option ℕ × ListChannel)
list_value_pop_from [] c = if c.shut then some (none, c) else none
list_value_pop_from (x ∷ xs) c = some (some x, record c { items = xs })

abbrev list_try_pop_from : List ℕ → ListChannel → BoostStatus × Option ℕ × ListChannel
list_try_pop_from [] c = (if c.shut then BoostStatus.closed else BoostStatus.empty, none, c)
list_try_pop_from (x ∷ xs) c = (BoostStatus.success, some x, record c { items = xs })

abbrev pub list_channel : BoostChannel ℕ
list_channel = record {
  Chan = ListChannel;
  make = λ n. record { items = []; slots = n; shut = false };
  push = list_push;
  try_push = list_try_push;
  pop = λ c. list_pop_from c.items c;
  value_pop = λ c. list_value_pop_from c.items c;
  try_pop = λ c. list_try_pop_from c.items c;
  close = λ c. record c { shut = true };
  is_closed = λ c. c.shut;
}

abbrev pub list_channel-IsDocumented : IsDocumented list_channel
list_channel-IsDocumented = record {
  items = λ c. c.items;
  slots = λ c. c.slots;
  make-items = λ i one. refl;
  make-slots = λ i one. refl;
  make-open = λ i one. refl;
  push-room = λ x c opened room. (
    record c { items = c.items ++ (x ∷ []) },
    rw (opened, lt→ltb (length c.items + 1) c.slots room) refl,
    record { holds = refl; slots_same = refl; closed_same = refl },
  );
  push-waits = λ x c opened full. rw (opened, le→ltb-false (length c.items + 1) c.slots full) refl;
  try_push-room = λ x c opened room. (
    record c { items = c.items ++ (x ∷ []) },
    rw (opened, lt→ltb (length c.items + 1) c.slots room) refl,
    record { holds = refl; slots_same = refl; closed_same = refl },
  );
  pop-some = λ x xs c e. (
    record c { items = xs },
    rw e refl,
    record { holds = refl; slots_same = refl; closed_same = refl },
  );
  pop-waits = λ c e opened. rw (e, opened) refl;
  pop-closed = λ c e shut. rw (e, shut) refl;
  close-closed = λ c. refl;
  close-items = λ c. refl;
  close-slots = λ c. refl;
}
