-- ===== src/Tests/Merge.antt =====
-- A run of the concurrent range stream of client/client_stream.go over one partition.
use kubebrain_client.Prelude.{
  arith, ◌≤◌, ◌+◌, ◌≡◌, ◌⊎◌, refl, false, true, none, List, [], ◌∷◌, Bytes, Chan,
}
use kubebrain_client.Client.Streams.{StreamRangeResponse, err_of}
use kubebrain_client.Client.RangeStream.Merge.{
  Task, Merge, receiving, sending, ended, finished, go, run, close, Reach, here, later, opened,
  advance, all_ended,
}
use kubebrain_client.Client.RangeStream.Merge.Parts.{Interleaved, Starts, sent_of}
use kubebrain_client.Client.RangeStream.Merge.Delivery.{merge_order, merge_complete}
use kubebrain_client.Client.RangeStream.Merge.Measure.{queued}
use kubebrain_client.Client.RangeStream.Merge.CutShort.{cut_short}
use kubebrain_client.Client.RangeStream.Merge.Progress.{Advances, merge_ends}

abbrev page : StreamRangeResponse Bytes
page = record {
  range_response = none;
  stream_err = record { close_err = none; cancel_reason = [] };
}

abbrev partition : Chan (StreamRangeResponse Bytes)
partition = record { sent = page ∷ []; closed = true }

abbrev task : List (StreamRangeResponse Bytes) → Task Bytes
task input = record { phase = receiving; input = input; closed = true }

abbrev started : Merge Bytes
started = record {
  limited = true;
  waiting = [];
  tasks = task (page ∷ []) ∷ [];
  output = [];
  done = false;
  closed = false;
}

abbrev complete : Merge Bytes
complete = record {
  limited = true;
  waiting = [];
  tasks = record { phase = ended finished; input = []; closed = true } ∷ [];
  output = page ∷ [];
  done = false;
  closed = true;
}

abbrev reason : Bytes → Bytes
reason r = r

start_run : Reach reason (opened 2 (partition ∷ [])) started
unfolding opened
start_run = later here (go partition [] refl)

cut_short_example : (o : Merge Bytes) × Reach reason started o × (o.closed ≡ true) × (o.output ≡ [])
cut_short_example =
    cut_short reason 2 (partition ∷ []) started (refl, tt) start_run ((λ h. ground (arith, h)), tt)

whole_run : Reach reason (opened 2 (partition ∷ [])) complete
unfolding opened advance err_of all_ended
whole_run =
    later
      (later
        (later
          (later (later here (go partition [] refl)) (
            run 0 (task (page ∷ []))
              (record {
                task = record { phase = sending; input = page ∷ []; closed = true };
                sent = [];
                cancels = false;
              })
              refl refl))
          (run 0 (record { phase = sending; input = page ∷ []; closed = true })
            (record { task = task []; sent = page ∷ []; cancels = false }) refl refl))
        (run 0 (task [])
          (record {
            task = record { phase = ended finished; input = []; closed = true };
            sent = [];
            cancels = false;
          })
          refl refl))
      (close refl refl refl)

merge_order_example :
    (parts : List (List (StreamRangeResponse Bytes))) × Interleaved parts (page ∷ [])
    × Starts parts (sent_of (partition ∷ []))
merge_order_example = merge_order reason 2 (partition ∷ []) complete whole_run

merge_complete_example : Interleaved (sent_of (partition ∷ [])) (page ∷ [])
merge_complete_example = merge_complete reason 2 (partition ∷ []) complete whole_run refl refl

merge_ends_example :
    (5 ≤ queued (partition ∷ []) + 1) × ((complete.closed ≡ true) ⊎ Advances reason complete)
unfolding whole_run
merge_ends_example = merge_ends reason 2 (partition ∷ []) complete whole_run (refl, tt)
