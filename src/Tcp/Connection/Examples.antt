-- ===== src/Tcp/Connection/Examples.antt =====
-- Runs of a connection on concrete events.
use tcp_udp_proxy.Prelude.{
  pos, to_int, add_int, sub_int, ◌+ℤ◌, ◌-ℤ◌, ◌≤◌, ◌≡◌, refl, ◌↔◌, true, false, List, [], ◌∷◌, ◌++◌,
  none, length, p0, p1, get, both, done, fault, success, connection_reset, system_error, arith,
  some, ◌+◌,
}
use tcp_udp_proxy.Buffer.{array_buffer}
use tcp_udp_proxy.Tcp.Connection.{
  View, Link, new_connection, start, stop, async_read, charge, set_idle, issue_write, charge_client,
  send_front, try_front, try_write, resume_read, after_pop, pop_written, write_failed, handle_write,
  refill, write_if_idle, flush_side, flush_msgs, handle_connect, read_failed, touch, received,
  enqueue, read_done, handle_read,
}
use tcp_udp_proxy.Tcp.Connection.Steps.{
  Event, flushes, connects, reads, writes, step, Reach, started, next,
}
use tcp_udp_proxy.Tcp.Connection.Flow.{waiting}
use tcp_udp_proxy.Tcp.Connection.Order.{arrivals, forwards_in_order}
use tcp_udp_proxy.Tcp.Connection.Rate.{spent}
use tcp_udp_proxy.Tcp.Connection.Limit.{AllMetered, all_granted, rate_limit}
use tcp_udp_proxy.Tcp.Connection.Safety.{
  step-faults, Reach-bounded, Reach-not-stranded, close_flag-is_open,
}

handlers : Unit {0}
unfolding step new_connection start stop async_read charge set_idle issue_write charge_client
    send_front try_front try_write resume_read after_pop pop_written write_failed handle_write
    refill write_if_idle flush_side flush_msgs handle_connect read_failed touch received enqueue
    read_done handle_read to_int add_int sub_int array_buffer ◌+ℤ◌ ◌-ℤ◌
handlers = tt

abbrev view : View
view = record {
  now = pos 1000;
  delay_ms = pos 0;
  max_bandwidth = pos 1000;
  ip_bandwidth = both (pos 0);
  has_remote = record { at0 = true; at1 = false };
}

abbrev after : Event → Link → Link
after e l = elim (step e l) [ done m ↦ m | fault f ↦ l ]

abbrev accepted : Link
accepted = start (new_connection (pos 1000) none)

abbrev opened : Link
opened = after (connects view success) accepted

abbrev hello : Event
hello = reads view p0 success 3 (72 ∷ 101 ∷ 121 ∷ [])

abbrev filled : Link
filled = after hello opened

abbrev tick : Event
tick = flushes view (pos 100) (pos 0)

abbrev sending : Link
sending = after tick filled

abbrev history : List Event
history = tick ∷ hello ∷ connects view success ∷ []

accepted_reached : Reach (both (pos 0)) [] accepted
accepted_reached = started (pos 1000) none (omega arith)

sending_reached : Reach (both (pos 0)) history sending
unfolding handlers
sending_reached =
    next tick
      (next hello
        (next (connects view success) accepted_reached (omega arith, λ e. absurd (cc)) refl)
        (omega arith, omega arith, λ e. absurd (cc)) refl)
      refl refl

metered : AllMetered history
metered = ((omega arith, omega arith, omega arith), (tt, (tt, tt)))

forwards_in_order_example :
    get p1 sending.sockets.written
      ++ waiting (get p1 sending.conn.writing_flag_pair) (get p1 sending.conn.msg_queue_pair)
    ≡ get p1 (arrivals history)
unfolding handlers
forwards_in_order_example = forwards_in_order sending_reached refl p1

written_message :
    get p1 sending.sockets.written
    ≡ record { buf = some (72 ∷ 101 ∷ 121 ∷ []); buf_size = pos 3 } ∷ []
unfolding handlers
written_message = refl

step-faults_example : system_error ≡ system_error
unfolding handlers
step-faults_example =
    step-faults sending_reached (writes view p1 connection_reset)
      (refl, omega arith, λ e. absurd (cc)) system_error refl

rate_limit_example : spent (get p1 sending.sockets.written) ≤ get p1 (all_granted history) + 4150
unfolding handlers
rate_limit_example = rate_limit sending_reached metered p1

Reach-bounded_example :
    (get p1 sending.sockets.writes ≤ 1)
    × (get p0 sending.sockets.reads ≤ 1)
    × (length (get p1 sending.conn.msg_queue_pair) ≤ 2)
    × (get p0 sending.sockets.reads + length (get p1 sending.conn.msg_queue_pair) ≤ 2)
unfolding handlers
Reach-bounded_example = Reach-bounded sending_reached p1

Reach-not-stranded_example :
    1
    ≤ accepted.sockets.connects
      + length accepted.conn.msg_queue_pair.at0
      + length accepted.conn.msg_queue_pair.at1
unfolding handlers
Reach-not-stranded_example = Reach-not-stranded accepted_reached refl refl

close_flag-is_open_example :
    (sending.conn.close_flag ≡ true) ↔ (get p0 sending.sockets.is_open ≡ false)
unfolding handlers
close_flag-is_open_example = close_flag-is_open sending_reached p0
