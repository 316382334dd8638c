-- ===== src/Tcp/Proxy.antt =====
-- src/tcp_proxy.cpp: `TcpProxy`, one listening port with the connections that it accepted. E is the
-- type of endpoints and A that of addresses of Boost.Asio. All handlers of a proxy run on one
-- thread, so each is a step. `ip_proxies`, a global object of the program, is part of the state.
pub mod Grants
pub mod Sound
pub mod Flush
pub mod Handlers
mod Examples
use tcp_udp_proxy.Prelude.{
  ℕ, ◌+◌, ℤ, pos, ◌-ℤ◌, ◌*ℤ◌, to_int, div_thousand, leb_ℤ, Bool, true, false, not, Option, none,
  some, List, [], ◌∷◌, ◌++◌, map, if◌then◌else◌, Pair, both, Outcome, done, fault, ◌>>=◌,
  assertion_failed, dangling_pointer, system_error, is_error, ErrorCode, success, operation_aborted,
}
use tcp_udp_proxy.Prelude.Maps.{Eq, lookup, insert}
use tcp_udp_proxy.Config.{TcpProxyRule}
use tcp_udp_proxy.IpProxy.{IpProxy, IpProxies, get_ip_proxy, release}
use tcp_udp_proxy.IpProxy.Pointers.{load, store, destroy}
use tcp_udp_proxy.Tcp.Connection.{TcpConnection, Sockets, Link, View, new_connection, flush_msgs}
use tcp_udp_proxy.Tcp.Connection

-- A connection of the list, with the pointer that it keeps.
pub record Entry (A : Type 0) : Type 0 where
  pub client_ip : Option A
  pub conn : TcpConnection
  pub sockets : Sockets

-- `accepts` and `waits` count the `async_accept` and the `async_wait` that were started and not
-- cancelled.
pub record TcpProxy (E A : Type 0) : Type 0 where
  pub proxy_rule : TcpProxyRule E
  pub close_flag : Bool
  pub acceptor_open : Bool
  pub accepts : ℕ
  pub waits : ℕ
  pub now : ℤ
  pub last_flush_tm : ℤ
  pub tcp_connections : List (Entry A)
  pub ip_proxies : IpProxies A

-- The constructor, at the time `ms`.
unfoldable pub new_proxy : {E A : Type 0} → TcpProxyRule E → ℤ → IpProxies A → TcpProxy E A
new_proxy rule ms ips = record {
  proxy_rule = rule;
  close_flag = false;
  acceptor_open = false;
  accepts = 0;
  waits = 0;
  now = ms;
  last_flush_tm = ms;
  tcp_connections = [];
  ip_proxies = ips;
}

pub stop_entry : {A : Type 0} → Entry A → Entry A
stop_entry c =
    let l : Link =
      Connection.stop (record { conn = c.conn; sockets = c.sockets; client_ip = none }) in
    record c { conn = l.conn; sockets = l.sockets }

-- What the calls in `start` return, in their order.
pub record Listening : Type 0 where
  pub open_ec : ErrorCode
  pub option_ec : ErrorCode
  pub bind_ec : ErrorCode
  pub listen_ec : ErrorCode
  pub timer_ec : ErrorCode

-- `(int)((now - last_flush_tm) * proxy_rule.max_bandwidth / 1000)`
unfoldable pub flush_bytes : ℤ → ℤ → ℤ → ℤ
flush_bytes now last_flush_tm max_bandwidth =
    to_int (div_thousand ((now -ℤ last_flush_tm) *ℤ max_bandwidth))

module _ {E A : Type 0} where
  -- What the round of the timer at this time grants each connection.
  unfoldable pub round_bytes : ℤ → TcpProxy E A → ℤ
  unfolding flush_bytes
  round_bytes now p = flush_bytes now p.last_flush_tm p.proxy_rule.max_bandwidth

  unfoldable pub stop : TcpProxy E A → TcpProxy E A
  stop p = record p { close_flag = true }

  pub start_accept : TcpProxy E A → TcpProxy E A
  start_accept p = record p { accepts = p.accepts + 1 }

  -- `close` asserts that `close_flag` is set. It cancels the timer and closes every connection.
  unfoldable pub close : TcpProxy E A → Outcome (TcpProxy E A)
  unfolding stop_entry Connection.stop
  close p =
      if p.close_flag
      then done (record p {
        acceptor_open = false;
        accepts = 0;
        waits = 0;
        tcp_connections = map stop_entry p.tcp_connections;
      })
      else fault assertion_failed

  -- `expires_from_now`, with its result ec, cancels a wait that is under way.
  unfoldable pub async_wait : ErrorCode → TcpProxy E A → Outcome (TcpProxy E A)
  unfolding close
  async_wait ec p =
      if is_error ec
      then close (record p { close_flag = true; waits = 0 })
      else done (record p { waits = 1 })

  unfoldable pub start : Listening → TcpProxy E A → Outcome (Bool × TcpProxy E A)
  unfolding start_accept async_wait
  start r p =
      let opened : TcpProxy E A = record p { acceptor_open = true } in
      if is_error r.open_ec
      then done (false, p)
      else if is_error r.option_ec
      then done (false, opened)
      else if is_error r.bind_ec
      then done (false, opened)
      else if is_error r.listen_ec
      then done (false, opened)
      else do q ← async_wait r.timer_ec (start_accept opened); done (true, q)

  -- What the connections read of the proxy. A flush does not ask for a remote endpoint.
  abbrev pub view_of : TcpProxy E A → View
  view_of p = record {
    now = p.now;
    delay_ms = p.proxy_rule.delay_ms;
    max_bandwidth = p.proxy_rule.max_bandwidth;
    ip_bandwidth = p.ip_proxies.bandwidth;
    has_remote = both true;
  }

module _ {A : Type 0} ⦃e : Eq A⦄ where
  -- One connection in the loop of `handleWait`: flushed, and destroyed if it is to be dropped.
  pub flush_one : View → ℤ → ℤ → Entry A → IpProxies A → Outcome (Bool × Entry A × IpProxies A)
  unfolding load store destroy
  flush_one v bytes expire_time c s = do
    ip ← load c.client_ip s
    (kept, l) ←
        flush_msgs v bytes expire_time
          (record { conn = c.conn; sockets = c.sockets; client_ip = ip })
    let t = store c.client_ip l.client_ip s
    t' ← (if kept then done t else destroy c.client_ip t)
    done (kept, record c { conn = l.conn; sockets = l.sockets }, t')

  pub flush_all :
      View → ℤ → ℤ → List (Entry A) → IpProxies A → Outcome (List (Entry A) × IpProxies A)
  unfolding flush_one
  flush_all v bytes expire_time [] s = done ([], s)
  flush_all v bytes expire_time (c ∷ cs) s = do
    (kept, c', t) ← flush_one v bytes expire_time c s
    (cs', t') ← flush_all v bytes expire_time cs t
    done ((if kept then c' ∷ cs' else cs'), t')

module _ {E A : Type 0} ⦃e : Eq A⦄ where
  -- `ms` is the time that `getms` gives, and `tcp_timeout` that of the program's arguments.
  pub flush_round : ℤ → ℤ → TcpProxy E A → Outcome (TcpProxy E A)
  unfolding flush_all round_bytes
  flush_round ms tcp_timeout p = do
    let bytes = round_bytes ms p
    let q = record p { now = ms; last_flush_tm = ms }
    (cs, ips) ← flush_all (view_of q) bytes (ms -ℤ tcp_timeout) p.tcp_connections p.ip_proxies
    done (record q { tcp_connections = cs; ip_proxies = ips })

  -- The timer's handler. A wait that was cancelled completes with an error and does nothing.
  unfoldable pub handle_wait : ErrorCode → ErrorCode → ℤ → ℤ → TcpProxy E A → Outcome (TcpProxy E A)
  unfolding flush_round
  handle_wait ec timer_ec ms tcp_timeout p =
      if is_error ec then done p else if p.close_flag then close p else do
        q ← async_wait timer_ec p
        if leb_ℤ ms q.last_flush_tm
            then done (record q { now = ms })
            else flush_round ms tcp_timeout q

  -- `remote` is the address that `remote_endpoint()` gives, none where it throws.
  pub accept : Option A → TcpProxy E A → Outcome (TcpProxy E A)
  unfolding start_accept Connection.start new_connection
  accept none p = fault system_error
  accept (some remote) p =
      let (ptr, ips) = get_ip_proxy remote p.ip_proxies in
      let l : Link = Connection.start (new_connection p.now none) in
      done (
        start_accept (record p {
          ip_proxies = ips;
          tcp_connections =
              p.tcp_connections
              ++ record { client_ip = ptr; conn = l.conn; sockets = l.sockets } ∷ [];
        }))

  unfoldable pub handle_accept :
      ErrorCode → Listening → Option A → TcpProxy E A → Outcome (TcpProxy E A)
  unfolding accept
  handle_accept success r remote p = accept remote p
  handle_accept operation_aborted r remote p = done p
  handle_accept _ r remote p = do
    (started, q) ← start r (record p { acceptor_open = false })
    done (if started then q else stop q)
