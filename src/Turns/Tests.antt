-- ===== src/Turns/Tests.antt =====
-- Two threads, of which the first has written its block and the second fails to, and the theorems
-- on them.
use lrzip.Common.{ℕ, ◌+◌, ◌≤◌, ◌≡◌, refl, arith, false, [], ◌∷◌}
use lrzip.Turns.{
  Threads, put, compressing, waiting, failing, written_out, released, fresh_threads, launch,
  compressed, write, fail_writing, pass_on, Reach, at_start, later, unlost, is_lost,
}
use lrzip.Turns.Order.{written_in_order, Run, all_written}

abbrev one_launched : Threads
one_launched = record fresh_threads {
  launched = 1;
  next = 1;
  cksem = put fresh_threads.cksem 0 false;
  index = put fresh_threads.index 0 0;
  phase = put fresh_threads.phase 0 compressing;
}

abbrev two_launched : Threads
two_launched = record one_launched {
  launched = 2;
  next = 0;
  cksem = put one_launched.cksem 1 false;
  index = put one_launched.index 1 1;
  phase = put one_launched.phase 1 compressing;
}

-- The second thread is ready before the first.
abbrev second_ready : Threads
second_ready = record two_launched { phase = put two_launched.phase 1 waiting }

abbrev first_ready : Threads
first_ready = record second_ready { phase = put second_ready.phase 0 waiting }

abbrev first_written : Threads
first_written = record first_ready { phase = put first_ready.phase 0 written_out; written = 0 ∷ [] }

-- The first has passed its turn on, and the second fails in its own.
abbrev first_released : Threads
first_released = record first_written {
  phase = put first_written.phase 0 released;
  output_thread = 1;
}

abbrev second_failing : Threads
second_failing = record first_released { phase = put first_released.phase 1 failing }

first_written-Reach : Reach 2 first_written
first_written-Reach =
    later {s = first_ready}
      (later {s = second_ready}
        (later {s = two_launched}
          (later {s = one_launched} (later {s = fresh_threads} at_start refl (launch refl)) refl
            (launch refl))
          refl (compressed 1 refl))
        refl (compressed 0 refl))
      refl (write 0 refl refl)

second_failing-Reach : Reach 2 second_failing
second_failing-Reach =
    later {s = first_released} (later {s = first_written} first_written-Reach refl (pass_on 0 refl))
      refl (fail_writing 1 refl refl)

written_in_order_example :
    (m : ℕ) × (second_failing.written ≡ unlost second_failing.skipped m)
    × (m ≤ second_failing.launched)
    × (second_failing.launched ≤ m + 2)
written_in_order_example = written_in_order 2 second_failing (omega arith) second_failing-Reach

all_written_example :
    (t : Threads) × (Run 2 second_failing t)
    × (t.launched ≡ second_failing.launched)
    × (t.written ≡ unlost (is_lost second_failing) second_failing.launched)
all_written_example = all_written 2 second_failing (omega arith) second_failing-Reach refl
