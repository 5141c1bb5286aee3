-- ===== src/Tests/Loop.antt =====
-- The collector and the event loop at concrete calls.
use rapp.Eloop.{find_callback_by_fd}
use rapp.Prelude.Run.{fault}
use rapp.Eloop.Turn.{EpollEvent, entry_at, dispatch}
use rapp.Eloop.Interest.{interest}
use rapp.Prelude.{Option, false, negsuc, suc}
use rapp.TcpConnection.Closing.{tcp_connection_close-watcher}
use rapp.TcpConnection.{TcpConnection, tcp_connection_close}
use rapp.Prelude.{ℕ, ◌≡◌, refl, true, none, some, List, [], ◌∷◌, pos, ℤ, generous}
use rapp.Collector.{collector_collect}
use rapp.Collector.Frees.{schedule_all, logged, firsts, schedule_all-collect}
use rapp.Eloop.{
  find_callback_by_fd, epoll_ctl_add, ELoop, eloop_callback_read, eloop_callback_close,
  event_loop_add_fd_watch, event_loop_remove_fd_watch, EpollOperation, unlink_callback, watching,
  blank_callback,
}
use rapp.Eloop.Entries.{Distinct, IsValid, watcher}
use rapp.Eloop.Interest.{
  interest, Proper, Asked, asking, Synced, add_fd_watch-Synced, remove_fd_watch-Synced,
}

abbrev requests : List (ℕ × ℕ)
requests = (7, 100) ∷ (7, 200) ∷ (8, 100) ∷ []

schedule_all-collect_example :
    (let (c, m') = schedule_all (record { collect_entries_list = [] }) requests generous in
      let (c', log, m'') = collector_collect logged c [] m' in
      (c'.collect_entries_list ≡ []) × (log ≡ firsts [] requests) × (m''.live ≡ 0))
schedule_all-collect_example = schedule_all-collect requests generous (λ n. refl)

firsts-requests : firsts [] requests ≡ (7, 100) ∷ (7, 200) ∷ []
unfolding firsts
firsts-requests = refl

abbrev idle : ELoop
idle = record {
  collector = record { collect_entries_list = [] };
  callbacks_list = [];
  running = true;
}

abbrev answer : EpollOperation → ℕ → ℤ
answer op fd = pos 0

idle-Synced : Synced idle []
unfolding Proper interest Distinct find_callback_by_fd
idle-Synced = record {
  valid = record { consistent = tt; distinct = tt };
  agrees = λ fd. refl;
  proper = tt;
}

add_fd_watch-Synced_example :
    (let (_, el', k', _) =
        event_loop_add_fd_watch
          (asking answer)
          idle
          5
          eloop_callback_read
          40
          (some 41)
          []
          generous in
      Synced el' k')
add_fd_watch-Synced_example =
    add_fd_watch-Synced answer idle 5 eloop_callback_read [] generous 40 (some 41) idle-Synced

abbrev reading : ELoop
reading = record idle {
  callbacks_list = watching (blank_callback 0) 5 eloop_callback_read 40 (some 41) ∷ [];
}

abbrev asked : Asked
asked =
    (epoll_ctl_add, 5, some (watching (blank_callback 0) 5 eloop_callback_read 40 none).events) ∷ []

reading-Synced : Synced reading asked
unfolding event_loop_add_fd_watch
reading-Synced =
    add_fd_watch-Synced answer idle 5 eloop_callback_read [] generous 40 (some 41) idle-Synced

reading-IsValid : IsValid reading
reading-IsValid = reading-Synced.valid

remove_fd_watch-Synced_example :
    (let (_, el', k', _) =
        event_loop_remove_fd_watch (asking answer) reading 5 eloop_callback_read asked generous in
      Synced el' k')
remove_fd_watch-Synced_example =
    remove_fd_watch-Synced answer reading 5 eloop_callback_read asked generous reading-Synced

abbrev connection : TcpConnection
connection = record {
  fd = pos 5;
  read_callback = some 40;
  write_callback = none;
  close_callback = none;
  user_data = some 41;
}

tcp_connection_close-watcher_example :
    (let (c', el', k', _) =
        tcp_connection_close (asking answer) connection reading asked generous in
      (c'.fd ≡ negsuc 0)
      × Synced el' k'
      × (interest k' 5 ≡ none)
      × (watcher el' 5 eloop_callback_read ≡ (none, none)))
tcp_connection_close-watcher_example =
    tcp_connection_close-watcher answer 5 reading asked generous connection 5 eloop_callback_read
      refl reading-Synced

-- A callback that drops the entry of its descriptor and stops the loop; the other part counts calls.
abbrev hanging_up : ℕ → ℕ → Option ℕ → ELoop × ℕ → ELoop × ℕ
hanging_up callback fd datum (el, calls) = (
  record el { callbacks_list = unlink_callback el.callbacks_list fd; running = false },
  suc calls,
)

abbrev closable : ELoop
closable = record idle {
  callbacks_list =
      watching (blank_callback 0) 5 eloop_callback_close 60 (some 61)
      ∷ watching (blank_callback 1) 6 eloop_callback_read 70 none
      ∷ [];
}

abbrev hung_up : EpollEvent
hung_up = record { events = record { read = false; write = false; close = true }; ptr = 0 }

abbrev readable : EpollEvent
readable = record { events = record { read = true; write = false; close = false }; ptr = 1 }

-- The second turn is not run, and its event is of an entry that is gone.
abbrev turns : List (List EpollEvent)
turns = (hung_up ∷ readable ∷ []) ∷ (hung_up ∷ []) ∷ []

-- The same event has bytes to read: the entry is read after it was freed.
reads_freed :
    dispatch hanging_up
      (record hung_up { events = record { read = true; write = false; close = true } })
      (closable, 0)
    ≡ fault
unfolding dispatch entry_at unlink_callback
reads_freed = refl
