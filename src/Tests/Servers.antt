-- ===== src/Tests/Servers.antt =====
-- The server with a pool of workers: a connection, and two workers with a channel of capacity 1.
use fiberexec.Base.{
  true, Bool, Option, ℕ, pos, ltb, le→ltb-false, if◌then◌else◌, ◌≡◌, ◌+◌, ◌<◌, ◌⊎◌, refl, false, [],
  ◌∷◌, some, length, arith, bit_ceil,
}
use fiberexec.Base.Range.{count}
use fiberexec.Channel.{success, channel, push, pop}
use fiberexec.EchoServerPool.{
  Server, started, pushing, popping, handling, Step, accepts, pushes, pops, Reach, here, later,
  after_push, after_pop,
}
use fiberexec.EchoServerPool.Progress.{IsOver, IsIdle, IsServing, GoesOn, by_client}
use fiberexec.EchoServerPool.Ends.{each_connection_once, server_ends, work}
use fiberexec.Runtime.Uring.{Kernel}
use fiberexec.Runtime.Thread.{Thread, Outcome, ok}
use fiberexec.FiberOps.Submission.{IsOpen}
use fiberexec.EchoServerPool.Echo.{handle_connection}
use fiberexec.EchoToFile as ToFile
use fiberexec.EchoToFile.Session.{connection_logged, LogSession}
use fiberexec.Exchange.{Session, receive_into, reply_from}
use fiberexec.AsyncIo.Runs.{Lets}
use fiberexec.EchoServerPool.Echo.Session.{connection_echoed}
use fiberexec.Tests.Fixtures.{kernel, thread, list_channel, list_channel-IsDocumented}

-- The client sends one message of five bytes.
abbrev client_kernel : Kernel
client_kernel = record kernel { result = λ r h. if ltb (length r.sent) 3 then pos 5 else pos 0 }

client_kernel-Lets : Lets client_kernel
client_kernel-Lets = record {
  serves = record { room = λ r. refl; takes = λ r. refl };
  unstopped = λ r h. refl;
}

thread-IsOpen : IsOpen thread
thread-IsOpen = record { on_worker = refl; going = refl; no_entries = refl }

connection_echoed_example :
    (t' : Thread) × (handle_connection 4 (pos 7) 4096 client_kernel thread
      ≡ (ok (some (pos 7)), t'))
    × IsOpen t'
    × Session client_kernel
        (receive_into (pos 7) 4096)
        (reply_from (pos 7) 4096)
        thread.ring
        t'.ring
connection_echoed_example =
    connection_echoed client_kernel-Lets (pos 7) 4096 3 4 thread
      (λ r h late. rw (le→ltb-false (length r.sent) 3 late) refl) thread-IsOpen (omega arith)

-- The same client, whose message goes to the file with the descriptor 5, as connection 5.
abbrev file_kernel : Kernel
file_kernel = record kernel { result = λ r h. if ltb (length r.sent) 4 then pos 5 else pos 0 }

file_kernel-Lets : Lets file_kernel
file_kernel-Lets = record {
  serves = record { room = λ r. refl; takes = λ r. refl };
  unstopped = λ r h. refl;
}

connection_logged_example :
    (x : Outcome (Option Bool)) × (t' : Thread) × (ToFile.handle_connection 5 "connection_5.log" 5
        (pos 7)
        4096
        file_kernel
        thread
      ≡ (x, t'))
    × IsOpen t'
    × LogSession file_kernel "connection_5.log" (pos 7) 4096 true thread.ring x t'.ring
connection_logged_example =
    connection_logged file_kernel-Lets 5 4 "connection_5.log" 5 (pos 7) 4096 thread
      (λ r h late. rw (le→ltb-false (length r.sent) 4 late) refl) thread-IsOpen (omega arith)

-- The first worker has the connection 7, and 8 was accepted.
abbrev busy : Server list_channel
busy = record {
  conn_ch = record { items = []; slots = 2; shut = false };
  loop = pushing 8;
  workers = handling 7 ∷ popping ∷ [];
  accepted = 7 ∷ 8 ∷ [];
  taken = 7 ∷ [];
  closed_fds = [];
}

busy-Reach : Reach list_channel (started list_channel 2 1) busy
unfolding started channel bit_ceil after_push after_pop push pop
busy-Reach =
    later
      (later
        (later (later here (accepts 7 refl))
          (pushes 7 (success, record { items = 7 ∷ []; slots = 2; shut = false }) refl refl))
        (pops [] (popping ∷ []) (success, some 7, record { items = []; slots = 2; shut = false })
          refl refl))
      (accepts 8 refl)

each_connection_once_example :
    (7 ∷ 8 ∷ [] ≡ busy.accepted)
    × ((id : ℕ) → count id (7 ∷ []) ≡ count id (7 ∷ []) + count id [])
    × (0 < bit_ceil 2)
each_connection_once_example =
    each_connection_once list_channel-IsDocumented 2 1 (omega arith) busy-Reach

server_ends_example :
    (IsOver list_channel-IsDocumented busy
      ⊎ IsIdle list_channel-IsDocumented busy
      ⊎ IsServing list_channel-IsDocumented busy
      ⊎ GoesOn busy)
    × ((u : Server list_channel) (st : Step list_channel busy u)
        → by_client st ≡ false
        → work list_channel-IsDocumented u < work list_channel-IsDocumented busy)
    × (IsOver list_channel-IsDocumented busy
        → (busy.taken ≡ busy.accepted)
          × ((id : ℕ) → count id busy.closed_fds ≡ count id busy.accepted))
server_ends_example =
    server_ends list_channel-IsDocumented 2 1 (omega arith) (omega arith) busy-Reach
