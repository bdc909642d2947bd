-- ===== src/Ai/Stream/Forwarding.antt =====
-- What an event stream writes, and when it ends.
use jobilee.Prelude.{
  ◌≡◌, refl, sym, ◌≢◌, All, All-append, Bool, Bool-cases, inl, inr, true, false, List, [], ◌∷◌,
  ◌++◌, if◌then◌else◌, ◌⊎◌,
}
use mathlib.Core.List.{append_assoc, append-nil}
use jobilee.Shared.Ai.{is_terminal_status}
use jobilee.Ai.Tasks.{TaskEvent}
use jobilee.Ai.Service.{GenerationTask}
use jobilee.Ai.Stream.{
  Written, task_event, ping, ended, headers, Stream, close, on_event, on_heartbeat, current, opened,
  Signal, emitted, tick, expired, disconnected, receive, receive_all,
}

-- What a client is to see: the events up to the first that settles the task, with the pings between
-- them, and an end at that event, at the time-out or at the disconnection.
unfoldable pub expected : List Signal → List Written
expected [] = []
expected (emitted event ∷ xs) =
    let rest = expected xs in
    task_event event ∷ (if is_terminal_status event.status then ended ∷ [] else rest)
expected (tick ∷ xs) = ping ∷ expected xs
expected (expired ∷ xs) = ended ∷ []
expected (disconnected ∷ xs) = ended ∷ []

-- a stream that runs, and one that is over
abbrev live : List Written → Stream
live ws = record {
  closed = false;
  subscribed = true;
  heartbeat = true;
  max_lifetime = true;
  on_close = true;
  written = ws;
}

abbrev over : Bool → List Written → Stream
over listens ws = record {
  closed = listens;
  subscribed = false;
  heartbeat = false;
  max_lifetime = false;
  on_close = listens;
  written = ws;
}

receive_all-over :
    (listens : Bool) (ws : List Written) (xs : List Signal)
    → receive_all (over listens ws) xs ≡ over listens ws
unfolding receive_all receive close on_event on_heartbeat
receive_all-over listens ws [] = refl
receive_all-over listens ws (emitted event ∷ xs) = receive_all-over listens ws xs
receive_all-over listens ws (tick ∷ xs) = receive_all-over listens ws xs
receive_all-over listens ws (expired ∷ xs) = receive_all-over listens ws xs
receive_all-over true ws (disconnected ∷ xs) = receive_all-over true ws xs
receive_all-over false ws (disconnected ∷ xs) = receive_all-over false ws xs

receive_all-settling :
    (ws : List Written) (event : TaskEvent) (xs : List Signal)
    → is_terminal_status event.status ≡ true
    → receive_all (live ws) (emitted event ∷ xs)
      ≡ over true ((ws ++ task_event event ∷ []) ++ ended ∷ [])
unfolding receive_all receive close on_event
receive_all-settling ws event xs h =
    rw h (receive_all-over true ((ws ++ task_event event ∷ []) ++ ended ∷ []) xs)

receive_all-progress :
    (ws : List Written) (event : TaskEvent) (xs : List Signal)
    → is_terminal_status event.status ≡ false
    → receive_all (live ws) (emitted event ∷ xs)
      ≡ receive_all (live (ws ++ task_event event ∷ [])) xs
unfolding receive_all receive close on_event
receive_all-progress ws event xs h = rw h refl

receive_all-live :
    (ws : List Written) (xs : List Signal) → (receive_all (live ws) xs).written ≡ ws ++ expected xs
unfolding receive_all receive close on_heartbeat expected
receive_all-live ws [] = sym (append-nil ws)
receive_all-live ws (emitted event ∷ xs) = elim (Bool-cases (is_terminal_status event.status)) [
  | inl e ↦
      rw (receive_all-settling ws event xs e, expected, e)
        (append_assoc ws (task_event event ∷ []) (ended ∷ []))
  | inr e ↦
      rw
        (
          receive_all-progress ws event xs e,
          expected,
          e,
          receive_all-live (ws ++ task_event event ∷ []) xs,
        )
        (append_assoc ws (task_event event ∷ []) (expected xs))
]
receive_all-live ws (tick ∷ xs) =
    rw (receive_all-live (ws ++ ping ∷ []) xs) (append_assoc ws (ping ∷ []) (expected xs))
receive_all-live ws (expired ∷ xs) = rw (receive_all-over true (ws ++ ended ∷ []) xs) refl
receive_all-live ws (disconnected ∷ xs) = rw (receive_all-over true (ws ++ ended ∷ []) xs) refl

-- Whatever signals reach a stream, and in whatever order, it writes its headers and then what a
-- client is to see of the task's state at the opening followed by these signals: every event up to
-- the first that settles the task, the pings between them, and one end.
pub opened-expected :
    (task : GenerationTask) (xs : List Signal)
    → (receive_all (opened task) xs).written ≡ headers ∷ expected (emitted (current task) ∷ xs)
unfolding opened expected
opened-expected task xs = elim (Bool-cases (is_terminal_status task.status)) [
  | inl e ↦
      rw (e, receive_all-over false (headers ∷ task_event (current task) ∷ ended ∷ []) xs) refl
  | inr e ↦ rw (e, receive_all-live (headers ∷ task_event (current task) ∷ []) xs) refl
]

abbrev IsOpenWrite : Written → Type 0
IsOpenWrite x = x ≢ ended

-- A stream holds its subscription and both its timers and did not end, or holds none of them and
-- ended with its last write.
abbrev pub IsSettled : Stream → Type 0
IsSettled s =
    (((s.subscribed ≡ true) × ((s.heartbeat ≡ true) × (s.max_lifetime ≡ true)))
      × All IsOpenWrite s.written)
    ⊎ (((s.subscribed ≡ false) × ((s.heartbeat ≡ false) × (s.max_lifetime ≡ false)))
        × ((body : List Written) × ((s.written ≡ body ++ ended ∷ []) × All IsOpenWrite body)))

live-IsSettled : (ws : List Written) → All IsOpenWrite ws → IsSettled (live ws)
live-IsSettled ws h = inl ((refl, (refl, refl)), h)

over-IsSettled :
    (listens : Bool) (ws : List Written)
    → All IsOpenWrite ws
    → IsSettled (over listens (ws ++ ended ∷ []))
over-IsSettled listens ws h = inr ((refl, (refl, refl)), (ws, (refl, h)))

written-one :
    (ws : List Written) (x : Written)
    → All IsOpenWrite ws
    → x ≢ ended
    → All IsOpenWrite (ws ++ x ∷ [])
written-one ws x h k = All-append IsOpenWrite ws (x ∷ []) h (k, tt)

IsSettled-live :
    (ws : List Written) (xs : List Signal)
    → All IsOpenWrite ws
    → IsSettled (receive_all (live ws) xs)
unfolding receive_all receive close on_heartbeat
IsSettled-live ws [] h = live-IsSettled ws h
IsSettled-live ws (emitted event ∷ xs) h = elim (Bool-cases (is_terminal_status event.status)) [
  | inl e ↦
      rw (receive_all-settling ws event xs e) (
        over-IsSettled true (ws ++ task_event event ∷ [])
          (written-one ws (task_event event) h (cc)))
  | inr e ↦
      rw (receive_all-progress ws event xs e)
        (IsSettled-live (ws ++ task_event event ∷ []) xs (written-one ws (task_event event) h (cc)))
]
IsSettled-live ws (tick ∷ xs) h = IsSettled-live (ws ++ ping ∷ []) xs (written-one ws ping h (cc))
IsSettled-live ws (expired ∷ xs) h =
    rw (receive_all-over true (ws ++ ended ∷ []) xs) (over-IsSettled true ws h)
IsSettled-live ws (disconnected ∷ xs) h =
    rw (receive_all-over true (ws ++ ended ∷ []) xs) (over-IsSettled true ws h)

-- After any signals, a stream still holds its subscription and both timers and has not ended, or it
-- holds none of them and its last write, and no other, is the end.
pub opened-IsSettled :
    (task : GenerationTask) (xs : List Signal) → IsSettled (receive_all (opened task) xs)
unfolding opened
opened-IsSettled task xs = elim (Bool-cases (is_terminal_status task.status)) [
  | inl e ↦
      rw (e, receive_all-over false (headers ∷ task_event (current task) ∷ ended ∷ []) xs)
        (over-IsSettled false (headers ∷ task_event (current task) ∷ []) ((cc), ((cc), tt)))
  | inr e ↦ rw e (IsSettled-live (headers ∷ task_event (current task) ∷ []) xs ((cc), ((cc), tt)))
]
