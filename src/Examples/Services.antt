-- ===== src/Examples/Services.antt =====
-- The operations of supertel/lib/io-service.c and timer.c on a table of two descriptors.
use interview.Base.{
  ℕ, ◌+◌, ◌≡◌, refl, true, false, not, ◌&&◌, Option, none, some, List, [], ◌∷◌, arith, ◌==◌,
  if◌then◌else◌,
}
use interview.IoService.{
  Op, read, write, Element, IoService, is_set, io_service_post_job, io_service_remove_job, ready_op,
}
use interview.IoService.Table.{same_op, first_of, job_at, has_fd, IsTable}
use interview.IoService.Dispatch.{Called}
use interview.IoService.Service.{
  woken, io_service_post_job-job_at, io_service_remove_job-job_at, ready_op-call, ready_op-freed,
}
use interview.Timer.{
  relative, periodic, absolute, TimerSpec, Tmr, no_class, timer_set_deadline, timer_set_periodic,
  timer_set_absolute,
}
use interview.Timer.Laws.{Arms, timer_set-Arms}

-- descriptor 7 has a one-shot reader and a writer, descriptor 9 lost its reader; the jobs are numbers
abbrev seven : Element ℕ
seven = record {
  fd = 7;
  events_in = true;
  events_out = true;
  on_read = record { job = some 70; oneshot = true };
  on_write = record { job = some 71; oneshot = false };
}

abbrev nine : Element ℕ
nine = record {
  fd = 9;
  events_in = false;
  events_out = false;
  on_read = record { job = none; oneshot = true };
  on_write = record { job = none; oneshot = false };
}

abbrev service : IoService ℕ
service = record {
  allow_new = true;
  running = true;
  event_fd = 3;
  notified = 1;
  lookup_table = seven ∷ nine ∷ [];
}

service-IsTable : IsTable service.lookup_table
unfolding has_fd
service-IsTable = ground arith

io_service_post_job-job_at_example :
    IsTable ((io_service_post_job 9 read true (some 90) service).lookup_table)
    × ((io_service_post_job 9 read true (some 90) service).notified
        ≡ 1 + woken true (not (is_set (job_at 9 read service.lookup_table))))
    × ((fd' : ℕ) (op' : Op)
        → job_at fd' op' (io_service_post_job 9 read true (some 90) service).lookup_table ≡ (
            if (9 == fd') && same_op read op'
            then first_of (job_at fd' op' service.lookup_table) (some 90)
            else job_at fd' op' service.lookup_table))
io_service_post_job-job_at_example =
    io_service_post_job-job_at 9 read true 90 service refl service-IsTable

io_service_remove_job-job_at_example :
    IsTable ((io_service_remove_job 7 write service).lookup_table)
    × ((io_service_remove_job 7 write service).notified
        ≡ 1 + woken true (is_set (job_at 7 write service.lookup_table)))
    × ((fd' : ℕ) (op' : Op)
        → job_at fd' op' (io_service_remove_job 7 write service).lookup_table
          ≡ (if (7 == fd') && same_op write op' then none else job_at fd' op' service.lookup_table))
io_service_remove_job-job_at_example = io_service_remove_job-job_at 7 write service service-IsTable

-- a job that counts its calls
abbrev count_call : ℕ → IoService ℕ → ℕ → Option (IoService ℕ × ℕ)
count_call j s calls = some (s, calls + 1)

ready_op-call_example :
    (table : List (Element ℕ)) × (ready_op count_call 7 read true service 0
      ≡ count_call 70 (record service { lookup_table = table }) 0)
    × IsTable table
    × Called 7 read service.lookup_table table
ready_op-call_example =
    ready_op-call count_call 7 read service 0 70 service-IsTable (unfold job_at in refl)

ready_op-freed_example :
    ready_op count_call 8 read true
      (io_service_remove_job 8 read (io_service_post_job 8 read true (some 80) service))
      0
    ≡ none
ready_op-freed_example = ready_op-freed count_call 8 read service 0 80 refl (unfold has_fd in refl)

abbrev tmr : Tmr ℕ
tmr = record {
  fd = 7;
  armed = false;
  tmr_class = no_class;
  spec = record { value_sec = 0; value_nsec = 0; interval_sec = 0; interval_nsec = 0 };
  job = none;
}

abbrev one_second : ℕ → TimerSpec
one_second sec = record { value_sec = 1; value_nsec = 0; interval_sec = sec; interval_nsec = 0 }

timer_set-Arms_example :
    Arms 5 6 relative true (one_second 0) tmr service (timer_set_deadline 5 1 0 6 tmr service)
    × Arms 5 6 periodic false (one_second 1) tmr service (timer_set_periodic 5 1 0 6 tmr service)
    × Arms 5 6 absolute true (one_second 0) tmr service (timer_set_absolute 5 1 0 6 tmr service)
timer_set-Arms_example = timer_set-Arms 5 1 0 6 tmr service refl service-IsTable
