-- ===== src/Tests/Multishot.antt =====
-- An acceptor and a receiver from their construction on.
use fiberexec.Base.{ℤ, ℕ, pos, ◌≡◌, ◌+◌, ◌≢◌, refl, true, false, [], ◌∷◌, ◌++◌, none, some}
use fiberexec.Base.Range.{range, count}
use fiberexec.Runtime.Uring.{empty_ring}
use fiberexec.MultishotAcceptor.{
  complete as acceptor_complete, Acceptor, next_start as acceptor_next,
}
use fiberexec.MultishotAcceptor.System as AcceptorSystem
use fiberexec.MultishotAcceptor.Order.{accepted_in_order}
use fiberexec.MultishotAcceptor.Armed.{waiting_is_armed, full_ring_strands, IsStuck, IsWaiting}
use fiberexec.MultishotRecv.{complete, next_resume, Recv, next_start}
use fiberexec.MultishotRecv.Buffer.{ReceivedBuffer}
use fiberexec.MultishotRecv.System as RecvSystem
use fiberexec.MultishotRecv.Order.{messages_in_order}
use fiberexec.MultishotRecv.Buffers.{each_buffer_once}
use fiberexec.MultishotRecv.Armed.{IsWaiting as IsWaitingRecv}
use fiberexec.Tests.Fixtures.{kernel, kernel-Serves, full_kernel}

abbrev acceptor : Acceptor
acceptor = record {
  self = 64;
  server_fd = pos 3;
  addr = 0;
  addrlen = 0;
  pending_fds = [];
  waiter = false;
  answer = none;
  error = pos 0;
}

abbrev listening : AcceptorSystem.System
listening = record {
  obj = acceptor;
  ring = empty_ring;
  armed = true;
  waiting = false;
  accepted = [];
  handed = [];
}

listening-IsNew : AcceptorSystem.IsNew listening
listening-IsNew = record {
  armed = refl;
  waiting = refl;
  no_fds = refl;
  no_waiter = refl;
  no_answer = refl;
  no_error = refl;
  none_accepted = refl;
  none_handed = refl;
}

-- The fiber waits; then the descriptors 7 and 9 arrive.
abbrev asked : AcceptorSystem.System
asked = AcceptorSystem.after_call none listening

abbrev two_accepted : AcceptorSystem.System
two_accepted =
    AcceptorSystem.after_complete kernel (pos 9) 2
      (AcceptorSystem.after_complete kernel (pos 7) 2 asked)

two_accepted-Reach : AcceptorSystem.Reach kernel listening two_accepted
unfolding acceptor_complete acceptor_next
two_accepted-Reach =
    AcceptorSystem.later
      (AcceptorSystem.later
        (AcceptorSystem.later AcceptorSystem.here (AcceptorSystem.calls none refl))
        (AcceptorSystem.completes (pos 7) 2 refl))
      (AcceptorSystem.completes (pos 9) 2 refl)

accepted_in_order_example :
    two_accepted.handed
      ++ (AcceptorSystem.fds_of_answer two_accepted.obj.answer ++ two_accepted.obj.pending_fds)
    ≡ pos 7 ∷ pos 9 ∷ []
accepted_in_order_example = accepted_in_order listening-IsNew two_accepted-Reach

asked-Reach : AcceptorSystem.Reach kernel listening asked
asked-Reach = AcceptorSystem.later AcceptorSystem.here (AcceptorSystem.calls none refl)

waiting_is_armed_example : asked.armed ≡ true
unfolding acceptor_next
waiting_is_armed_example = waiting_is_armed kernel-Serves listening-IsNew asked-Reach refl refl

asked-IsWaiting : IsWaiting asked
unfolding acceptor_next
asked-IsWaiting = record {
  waits = refl;
  engaged = refl;
  unanswered = refl;
  no_fds = refl;
  no_error = refl;
}

-- The fiber was resumed with the last descriptor of an entry that the full ring lost.
abbrev stranding : ℤ → AcceptorSystem.System
stranding fd = AcceptorSystem.after_resume fd (AcceptorSystem.after_complete full_kernel fd 0 asked)

full_ring_strands_example :
    AcceptorSystem.Reach full_kernel asked (stranding (pos 7))
    × ((stranding (pos 7)).handed ≡ pos 7 ∷ [])
    × AcceptorSystem.Reach full_kernel asked (AcceptorSystem.after_call none (stranding (pos 7)))
    × IsStuck full_kernel (AcceptorSystem.after_call none (stranding (pos 7)))
unfolding acceptor_next
full_ring_strands_example =
    full_ring_strands full_kernel asked (pos 7) 0 asked-IsWaiting refl refl refl refl

-- A receiver with two buffers of 16 bytes.
abbrev receiver : Recv
receiver = record {
  self = 72;
  fd = pos 4;
  bgid = 0;
  buf_size = 16;
  buf_count = 2;
  storage = 32;
  buf_ring = true;
  ring_bufs = range 2;
  pending = [];
  waiter = false;
  woken = false;
  error = pos 0;
}

abbrev connected : RecvSystem.System
connected = record {
  obj = receiver;
  ring = empty_ring;
  armed = true;
  waiting = false;
  lent = [];
  arrived = [];
  handed = [];
}

connected-IsNew : RecvSystem.IsNew 2 connected
connected-IsNew = record {
  armed = refl;
  waiting = refl;
  bufs = refl;
  no_items = refl;
  no_waiter = refl;
  asleep = refl;
  no_error = refl;
  none_lent = refl;
  none_arrived = refl;
  none_handed = refl;
}

-- A fiber waits; 5 bytes come in buffer 0 and 6 in buffer 1; it resumes, and calls `next` again.
abbrev awaiting : RecvSystem.System
awaiting = RecvSystem.after_call none connected

abbrev first_in : RecvSystem.System
first_in =
    RecvSystem.after_complete kernel (pos 5) 3 (RecvSystem.without_front (1 ∷ []) awaiting.obj)
      (RecvSystem.message 5 3 ∷ []) awaiting

abbrev second_in : RecvSystem.System
second_in =
    RecvSystem.after_complete kernel (pos 6) 65_539 (RecvSystem.without_front [] first_in.obj)
      (RecvSystem.message 6 65_539 ∷ []) first_in

abbrev both_lent : RecvSystem.System
both_lent = RecvSystem.after_call none (RecvSystem.after_resume second_in)

both_lent-Reach : RecvSystem.Reach kernel connected both_lent
unfolding complete next_start next_resume
both_lent-Reach =
    RecvSystem.later
      (RecvSystem.later
        (RecvSystem.later
          (RecvSystem.later (RecvSystem.later RecvSystem.here (RecvSystem.calls none refl))
            (RecvSystem.arrives 4 3 (1 ∷ []) refl refl))
          (RecvSystem.arrives 5 65_539 [] refl refl))
        (RecvSystem.resumes refl refl))
      (RecvSystem.calls none refl)

messages_in_order_example :
    (both_lent.handed ++ both_lent.obj.pending ≡ both_lent.arrived)
    × (both_lent.obj.woken ≡ true → both_lent.obj.pending ≡ [] → both_lent.obj.error ≢ pos 0)
messages_in_order_example = messages_in_order connected-IsNew both_lent-Reach

each_buffer_once_example :
    count 1 both_lent.obj.ring_bufs
      + count 1 (RecvSystem.ids both_lent.obj.pending)
      + count 1 both_lent.lent
    ≡ 1
each_buffer_once_example = each_buffer_once connected-IsNew both_lent-Reach 1

abbrev handle : ℕ → ℕ → ReceivedBuffer
handle id size = record { owner = some 72; buf_id = id; size = size }

awaiting-Reach : RecvSystem.Reach kernel connected awaiting
awaiting-Reach = RecvSystem.later RecvSystem.here (RecvSystem.calls none refl)

awaiting-IsWaiting : IsWaitingRecv awaiting
unfolding next_start
awaiting-IsWaiting = record { waits = refl; engaged = refl; no_items = refl; no_error = refl }
