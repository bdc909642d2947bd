-- ===== src/Ai/Stream/Tests.antt =====
-- A stream whose task is settled between two pings.
use jobilee.Prelude.{◌≡◌, refl, none, some, [], ◌∷◌}
use jobilee.Shared.Ai.{queued, succeeded, research}
use jobilee.Ai.Tasks.{TaskEvent}
use jobilee.Ai.Service.{GenerationTask}
use jobilee.Ai.Stream.{
  headers, task_event, ping, ended, current, opened, emitted, tick, expired, disconnected,
  receive_all,
}
use jobilee.Ai.Stream.Forwarding.{expected, opened-expected}

abbrev task : GenerationTask
task = record {
  id = "t";
  user_id = "u";
  request = research (record { job_id = "j"; company = "c"; title = "e"; jd = "d" });
  status = queued;
  result = none;
  error = none;
}

abbrev done_event : TaskEvent
done_event = record { task_id = "t"; status = succeeded; result = some "brief"; error = none }

stream_test :
    (receive_all (opened task) (tick ∷ emitted done_event ∷ tick ∷ disconnected ∷ [])).written
    ≡ headers ∷ task_event (current task) ∷ ping ∷ task_event done_event ∷ ended ∷ []
unfolding receive_all opened
stream_test = refl

opened-expected_example :
    (receive_all (opened task) (tick ∷ emitted done_event ∷ expired ∷ [])).written
    ≡ headers ∷ expected (emitted (current task) ∷ tick ∷ emitted done_event ∷ expired ∷ [])
opened-expected_example = opened-expected task (tick ∷ emitted done_event ∷ expired ∷ [])
