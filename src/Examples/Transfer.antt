-- ===== src/Examples/Transfer.antt =====
-- A sample that reaches the MES twice: the first reply does not come, the second request is handled
-- before the reply to it is read.
use data_gateway.Base.{ℕ, ◌≡◌, refl, true, ◌||◌, false, none, List, [], ◌∷◌, arith, length, All}
use data_gateway.Base.Dict.{get, put}
use data_gateway.Base.Key.{String_key}
use data_gateway.Base.Floats.{whole}
use data_gateway.Base.Int.{pos}
use data_gateway.Examples.Edge.{sampled, at_twenty}
use data_gateway.Examples.Mes.{new_mes, note}
use data_gateway.Edge.Sample.{fmt_value, raw_item, raw_items_of, to_raw_items}
use data_gateway.Edge.Filter.{accept, apply_items, apply}
use data_gateway.Edge.Buffer.{
  empty, counter, bump, number_from, enqueue, insert_row, sort_rows, take_rows, next_batch, member,
  ack, mark_failed_all,
}
use data_gateway.Edge.Buffer.Pending.{numbers_of, issued}
use data_gateway.Edge.Sender.{
  flagged, request_of, prepare, is_accepted, priority, on_sample, conclude,
}
use data_gateway.Mes.Ingest.{
  recorded, load_item, load_all, group_items, insert_group, by_time, route_all, finish_ingest,
  ingest,
}
use data_gateway.Mes.Ingest.Loop.{Unique}
use data_gateway.Transfer.{
  idle, Event, samples, sends, arrives, reply_comes, times_out, arrives_late, Settings, System,
  step, run,
}
use data_gateway.Transfer.Settles.{rounds_deliver}
use data_gateway.Transfer.Rounds.{IsReadable, rounds}
use data_gateway.Transfer.Once.{IsKnown, IsNew, run_loses_nothing, run-Unique}

abbrev settings : Settings whole
settings = record { retention = 1000; batch_max = 100; backoff_max = 30000 }

abbrev start : System whole (List ℕ)
start = record {
  edge = record {
    filter = at_twenty;
    buffer = empty;
    link_ok = none;
    backoff = 1000;
    md_ng = [];
    samples_in = 0;
  };
  store = new_mes;
  flight = idle;
  strays = [];
  purged = [];
}

start-IsNew : IsNew new_mes.equip_id whole note settings start
start-IsNew = record {
  buffer = refl;
  known = refl;
  ledger = refl;
  flight = refl;
  strays = refl;
  purged = refl;
}

abbrev sent_twice : List (Event whole)
sent_twice =
    samples 5 (sampled (pos 21))
    ∷ sends
    ∷ times_out true
    ∷ sends
    ∷ arrives 8
    ∷ arrives_late 9 0
    ∷ reply_comes
    ∷ []

sent_twice-IsKnown : All (IsKnown new_mes.equip_id whole note settings) sent_twice
unfolding get
sent_twice-IsKnown = (λ e. cc, (tt, (tt, (tt, (tt, (tt, (tt, tt)))))))

one_issued : issued (run whole note settings sent_twice start).edge.buffer ≡ 1
unfolding run step on_sample priority apply apply_items accept get put to_raw_items raw_items_of
    raw_item fmt_value enqueue number_from bump counter prepare next_batch sort_rows insert_row
    take_rows request_of flagged ingest load_all load_item finish_ingest group_items by_time
    insert_group route_all conclude is_accepted ack mark_failed_all
one_issued = refl

one_stored : length (run whole note settings sent_twice start).store.raw ≡ 1
unfolding run step on_sample priority apply apply_items accept get put to_raw_items raw_items_of
    raw_item fmt_value enqueue number_from bump counter prepare next_batch sort_rows insert_row
    take_rows request_of flagged ingest load_all load_item finish_ingest group_items by_time
    insert_group route_all conclude is_accepted ack mark_failed_all
one_stored = refl

run_loses_nothing_example :
    (member 1 (numbers_of (run whole note settings sent_twice start).edge.buffer.rows)
      || recorded 1 (run whole note settings sent_twice start).store.raw
      || member 1 (run whole note settings sent_twice start).purged)
    ≡ true
run_loses_nothing_example =
    run_loses_nothing new_mes.equip_id whole note settings sent_twice start 1 start-IsNew
      sent_twice-IsKnown (omega arith) (omega (arith, one_issued))

run-Unique_example : Unique (run whole note settings sent_twice start).store.raw
run-Unique_example =
    run-Unique new_mes.equip_id whole note settings sent_twice start start-IsNew sent_twice-IsKnown

abbrev one_lost : List (Event whole)
one_lost = samples 5 (sampled (pos 21)) ∷ sends ∷ times_out false ∷ []

abbrev after_loss : System whole (List ℕ)
after_loss = run whole note settings one_lost start

one_lost-IsKnown : All (IsKnown new_mes.equip_id whole note settings) one_lost
unfolding get
one_lost-IsKnown = (λ e. cc, (tt, (tt, tt)))

after_loss-IsReadable : IsReadable whole note settings after_loss.edge.buffer.rows
unfolding run step on_sample priority apply apply_items accept get put to_raw_items raw_items_of
    raw_item fmt_value enqueue number_from bump counter prepare next_batch sort_rows insert_row
    take_rows request_of flagged mark_failed_all
after_loss-IsReadable = (((λ e. cc), tt), tt)

after_loss-parts :
    (after_loss.flight ≡ idle)
    × (length after_loss.edge.buffer.rows ≡ 1)
    × (issued after_loss.edge.buffer ≡ 1)
unfolding run step on_sample priority apply apply_items accept get put to_raw_items raw_items_of
    raw_item fmt_value enqueue number_from bump counter prepare next_batch sort_rows insert_row
    take_rows request_of flagged mark_failed_all
after_loss-parts = (refl, refl, refl)

rounds_deliver_example :
    let t = run whole note settings (rounds whole note settings 9 1) after_loss in
    (t.edge.buffer.rows ≡ []) × ((recorded 1 t.store.raw || member 1 after_loss.purged) ≡ true)
rounds_deliver_example =
    let (idle_now, one_row, one_number) = after_loss-parts in
    rounds_deliver whole note settings new_mes.equip_id one_lost start after_loss 9 1 1 start-IsNew
      one_lost-IsKnown refl (omega arith) idle_now after_loss-IsReadable (omega (arith, one_row))
      (omega arith) (omega (arith, one_number))
