-- ===== src/Tcp/Connection/Steps.antt =====
-- The events of a connection's life: the timer's flush, and the completion of an operation that a
-- handler has started. The network chooses among those that are enabled, in any order.
use tcp_udp_proxy.Prelude.{
  ℕ, ◌-◌, ◌≤◌, ℤ, ◌≡◌, false, Option, none, some, List, [], ◌∷◌, PairId, p1, Pair, get, put,
  Outcome, done, ◌>>=◌, ErrorCode, operation_aborted,
}
use tcp_udp_proxy.Config.{tcp_buffer_size}
use tcp_udp_proxy.IpProxy.{IpProxy}
use tcp_udp_proxy.Tcp.Connection.Cases.{IpKnown}
use tcp_udp_proxy.Tcp.Connection.{
  View, Link, new_connection, start, handle_connect, handle_read, handle_write, flush_msgs,
}

-- `shares ip`: other connections of the client, or the thread of `ip_proxies`, change the `IPProxy`.
pub data Event : Type 0 where
  flushes : View → ℤ → ℤ → Event
  connects : View → ErrorCode → Event
  reads : View → PairId → ErrorCode → ℕ → List ℕ → Event
  writes : View → PairId → ErrorCode → Event
  shares : IpProxy → Event

-- An operation that completes waits no more, and a read leaves its bytes in the array.
abbrev pub connect_completed : Link → Link
connect_completed l = record l { sockets = record l.sockets { connects = l.sockets.connects - 1 } }

abbrev pub read_completed : PairId → List ℕ → Link → Link
read_completed p arr l = record l {
  conn = record l.conn { recv_buf_pair = put p (some arr) l.conn.recv_buf_pair };
  sockets = record l.sockets { reads = put p (get p l.sockets.reads - 1) l.sockets.reads };
}

abbrev pub write_completed : PairId → Link → Link
write_completed p l = record l {
  sockets = record l.sockets { writes = put p (get p l.sockets.writes - 1) l.sockets.writes };
}

abbrev pub share : IpProxy → Option IpProxy → Option IpProxy
share ip none = none
share ip (some old) = some ip

unfoldable pub step : Event → Link → Outcome Link
step (flushes v flush_bytes expire_time) l = do r ← flush_msgs v flush_bytes expire_time l; done r.1
step (connects v ec) l = done (handle_connect v ec (connect_completed l))
step (reads v p ec n arr) l = done (handle_read v p ec n (read_completed p arr l))
step (writes v p ec) l = handle_write v p ec (write_completed p l)
step (shares ip) l = done (record l { client_ip = share ip l.client_ip })

-- Boost.Asio completes an operation once, fills at most the buffer that it was given, and reports
-- `operation_aborted` only on a socket that was closed. The limits of `ip_proxies` do not change.
abbrev pub Enabled : Pair ℤ → Event → Link → Type 0
Enabled bw (flushes v flush_bytes expire_time) l = v.ip_bandwidth ≡ bw
Enabled bw (connects v ec) l =
    (1 ≤ l.sockets.connects) × (ec ≡ operation_aborted → get p1 l.sockets.is_open ≡ false)
Enabled bw (reads v p ec n arr) l =
    (1 ≤ get p l.sockets.reads)
    × (n ≤ tcp_buffer_size)
    × (ec ≡ operation_aborted → get p l.sockets.is_open ≡ false)
Enabled bw (writes v p ec) l =
    (v.ip_bandwidth ≡ bw)
    × (1 ≤ get p l.sockets.writes)
    × (ec ≡ operation_aborted → get p l.sockets.is_open ≡ false)
Enabled bw (shares ip) l = Unit {0}

-- The states that a connection gets to, with the events that led there, the newest first.
pub data Reach (bw : Pair ℤ) : List Event → Link → Type 0 where
  started :
      (now : ℤ) (ip : Option IpProxy) → IpKnown bw ip → Reach bw [] (start (new_connection now ip))
  next :
      {es : List Event} {l m : Link} (e : Event)
      → Reach bw es l
      → Enabled bw e l
      → step e l ≡ done m
      → Reach bw (e ∷ es) m
