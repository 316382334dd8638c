-- ===== src/Tcp/Connection.antt =====
-- src/tcp_proxy.cpp: `TcpConnection`, one accepted client with its socket to the destination.
-- Socket 0 is the client's, socket 1 the destination's. `Link` is the connection with what it acts
-- on: its two sockets and the `IPProxy` that `client_ip` points to (none for the null pointer).
-- A handler is a function of the link that it finds; the calls that it makes on a socket are
-- counted in `Sockets`, and `View` is what it reads of the proxy, of `ip_proxies` and of the
-- sockets at that moment.
pub mod Steps
pub mod Cases
pub mod Invariant
pub mod Preserved
pub mod Safety
pub mod Charges
pub mod Lives
pub mod Clients
pub mod Flow
pub mod Order
pub mod Rate
pub mod Limit
pub mod Untouched
mod Examples
use tcp_udp_proxy.Prelude.{
  ℕ, ◌+◌, ℤ, pos, ltb_ℤ, leb_ℤ, ◌+ℤ◌, to_int, add_int, sub_int, Bool, true, false, not, ◌&&◌,
  Option, none, some, List, [], ◌∷◌, ◌++◌, length, ltb, if◌then◌else◌, PairId, p0, p1, other, Pair,
  get, put, both, Outcome, done, fault, ◌>>=◌, assertion_failed, null_dereference, system_error,
  ErrorCode, success, operation_aborted, connection_refused, connection_reset, other_error,
}
use tcp_udp_proxy.Buffer.{Buffer, array_buffer, get_size}
use tcp_udp_proxy.Config.{tcp_packet_extra_overhead, max_tcp_msg_queue_size}
use tcp_udp_proxy.IpProxy.{IpProxy}

-- `std::pair<global::msec_t, global::Buffer>`
pub record Msg : Type 0 where
  pub first : ℤ
  pub second : Buffer

pub record TcpConnection : Type 0 where
  pub close_flag : Bool
  pub recv_buf_pair : Pair (Option (List ℕ))
  pub msg_queue_pair : Pair (List Msg)
  pub available_bytes_pair : Pair ℤ
  pub writing_flag_pair : Pair Bool
  pub reading_flag_pair : Pair Bool
  pub active_time : ℤ
  pub full_open : Bool

-- The sockets: which are open, how many operations of each kind wait for their completion, and the
-- buffers given to `async_write`, in order.
pub record Sockets : Type 0 where
  pub is_open : Pair Bool
  pub connects : ℕ
  pub reads : Pair ℕ
  pub writes : Pair ℕ
  pub written : Pair (List Buffer)

pub record Link : Type 0 where
  pub conn : TcpConnection
  pub sockets : Sockets
  pub client_ip : Option IpProxy

-- `has_remote` says whether `remote_endpoint()` of a socket gives an endpoint; else it throws.
pub record View : Type 0 where
  pub now : ℤ
  pub delay_ms : ℤ
  pub max_bandwidth : ℤ
  pub ip_bandwidth : Pair ℤ
  pub has_remote : Pair Bool

-- The constructor, once `remote_endpoint()` has answered and `getIPProxy` has returned `ip`.
unfoldable pub new_connection : ℤ → Option IpProxy → Link
new_connection now ip = record {
  conn = record {
    close_flag = false;
    recv_buf_pair = both none;
    msg_queue_pair = both [];
    available_bytes_pair = both (pos 0);
    writing_flag_pair = both false;
    reading_flag_pair = both true;
    active_time = now;
    full_open = false;
  };
  sockets = record {
    is_open = record { at0 = true; at1 = false };
    connects = 0;
    reads = both 0;
    writes = both 0;
    written = both [];
  };
  client_ip = ip;
}

-- A socket that `async_connect` is called on is opened by it.
unfoldable pub start : Link → Link
start l = record l {
  sockets = record l.sockets {
    is_open = put p1 true l.sockets.is_open;
    connects = l.sockets.connects + 1;
  };
}

unfoldable pub stop : Link → Link
stop l = record l {
  conn = record l.conn { close_flag = true };
  sockets = record l.sockets { is_open = both false };
}

-- The new array is written by the read that completes; until then nothing reads it.
unfoldable pub async_read : PairId → Link → Link
async_read p l = record l {
  conn = record l.conn { recv_buf_pair = put p (some []) l.conn.recv_buf_pair };
  sockets = record l.sockets { reads = put p (get p l.sockets.reads + 1) l.sockets.reads };
}

abbrev pub is_empty : List Msg → Bool
is_empty [] = true
is_empty (m ∷ ms) = false

-- `msg_queue_pair[0].empty() && msg_queue_pair[1].empty()`
abbrev pub queues_empty : TcpConnection → Bool
queues_empty c = is_empty c.msg_queue_pair.at0 && is_empty c.msg_queue_pair.at1

-- The parts of `handleWrite`. No write starts.
pub set_idle : PairId → Link → Link
set_idle p l = record l {
  conn = record l.conn { writing_flag_pair = put p false l.conn.writing_flag_pair };
}

-- `buf.get_size() + TCP_PACKET_EXTRA_OVERHEAD`
unfoldable pub charge : Buffer → ℤ
charge b = add_int (get_size b) tcp_packet_extra_overhead

-- `async_write` of the front message, and the connection's own allowance.
pub issue_write : View → PairId → Buffer → Link → Link
issue_write v p b l = record l {
  conn = record l.conn {
    available_bytes_pair =
        (if ltb_ℤ (pos 0) v.max_bandwidth
          then put p (sub_int (get p available_bytes_pair) (charge b)) available_bytes_pair
          else available_bytes_pair);
    writing_flag_pair = put p true l.conn.writing_flag_pair;
  };
  sockets = record l.sockets {
    writes = put p (get p l.sockets.writes + 1) l.sockets.writes;
    written = put p (get p l.sockets.written ++ b ∷ []) l.sockets.written;
  };
}
  where
    open l.conn use {available_bytes_pair}

-- The client's allowance in the direction of this write is checked and charged under its mutex.
pub charge_client : View → PairId → Buffer → Link → Option IpProxy → Outcome Link
charge_client v p b l none = fault null_dereference
charge_client v p b l (some ip) =
    if leb_ℤ (pos 0) (get (other p) ip.avail_bytes)
    then done (
        issue_write v p b (record l {
          client_ip = some (record ip {
            avail_bytes =
                put (other p) (sub_int (get (other p) ip.avail_bytes) (charge b)) ip.avail_bytes;
          });
        }))
    else done (set_idle p l)

pub send_front : View → PairId → Buffer → Link → Outcome Link
send_front v p b l =
    if ltb_ℤ (pos 0) (get (other p) v.ip_bandwidth)
    then charge_client v p b l l.client_ip
    else done (issue_write v p b l)

-- The last `if` of `handleWrite`, on the queue: the front message goes out if there is one, the
-- allowance is not used up, and the message is due.
pub try_front : View → PairId → Link → List Msg → Outcome Link
try_front v p l [] = done (set_idle p l)
try_front v p l (m ∷ ms) =
    if leb_ℤ (pos 0) (get p l.conn.available_bytes_pair) && leb_ℤ m.first v.now
    then send_front v p m.second l
    else done (set_idle p l)

pub try_write : View → PairId → Link → Outcome Link
unfolding try_front send_front charge_client issue_write set_idle
try_write v p l = try_front v p l (get p l.conn.msg_queue_pair)

-- A reader that had stopped on a full queue goes on.
pub resume_read : PairId → Link → Link
unfolding async_read
resume_read q l =
    if not (get q l.conn.reading_flag_pair)
    then async_read q (record l {
      conn = record l.conn { reading_flag_pair = put q true l.conn.reading_flag_pair };
    })
    else l

abbrev pub with_queue : PairId → List Msg → Link → Link
with_queue p q l = record l {
  conn = record l.conn { msg_queue_pair = put p q l.conn.msg_queue_pair };
}

-- What follows the pop: a connection that only had to send its rest is done when nothing is left.
pub after_pop : View → PairId → Link → Outcome Link
unfolding stop try_write resume_read
after_pop v p l =
    if not l.conn.full_open && queues_empty l.conn
    then done (stop l)
    else try_write v p (resume_read (other p) l)

-- The message whose write has completed leaves the queue.
pub pop_written : View → PairId → Link → List Msg → Outcome Link
pop_written v p l [] = fault assertion_failed
pop_written v p l (m ∷ ms) = after_pop v p (with_queue p ms l)

-- A write error is logged with the peer's address, which `remote_endpoint()` has to give.
pub write_failed : View → PairId → Link → Outcome Link
unfolding stop
write_failed v p l = if get p v.has_remote then done (stop l) else fault system_error

unfoldable pub handle_write : View → PairId → ErrorCode → Link → Outcome Link
unfolding pop_written after_pop write_failed try_write
handle_write v p success l =
    if get p l.conn.writing_flag_pair
    then pop_written v p l (get p l.conn.msg_queue_pair)
    else try_write v p l
handle_write v p operation_aborted l = done l
handle_write v p connection_refused l = write_failed v p l
handle_write v p connection_reset l = write_failed v p l
handle_write v p (other_error n) l = write_failed v p l

-- An allowance that is used up grows by the bytes of the time that has passed.
pub refill : View → ℤ → PairId → Link → Link
refill v flush_bytes p l =
    if ltb_ℤ (pos 0) v.max_bandwidth && ltb_ℤ (get p available_bytes_pair) (pos 0)
    then record l {
      conn = record l.conn {
        available_bytes_pair =
            put p (add_int (get p available_bytes_pair) flush_bytes) available_bytes_pair;
      };
    }
    else l
  where
    open l.conn use {available_bytes_pair}

pub write_if_idle : View → PairId → Link → Outcome Link
write_if_idle v p l =
    if not (get p l.conn.writing_flag_pair) then handle_write v p success l else done l

-- One round of the loop in `flushMsgs`.
pub flush_side : View → ℤ → PairId → Link → Outcome Link
unfolding handle_write refill write_if_idle
flush_side v flush_bytes p l = write_if_idle v p (refill v flush_bytes p l)

-- Returns false if the connection is to be dropped.
unfoldable pub flush_msgs : View → ℤ → ℤ → Link → Outcome (Bool × Link)
unfolding flush_side stop
flush_msgs v flush_bytes expire_time l =
    if l.conn.close_flag
    then done (false, l)
    else if ltb_ℤ l.conn.active_time expire_time
    then done (false, stop l)
    else if not l.conn.full_open && queues_empty l.conn
    then done (true, l)
    else do l0 ← flush_side v flush_bytes p0 l; l1 ← flush_side v flush_bytes p1 l0; done (true, l1)

unfoldable pub handle_connect : View → ErrorCode → Link → Link
unfolding stop async_read
handle_connect v success l =
    async_read p1
      (async_read p0 (record l { conn = record l.conn { active_time = v.now; full_open = true } }))
handle_connect v operation_aborted l = l
handle_connect v connection_refused l = stop l
handle_connect v connection_reset l = stop l
handle_connect v (other_error n) l = stop l

-- The end of a stream, or a read error: what is still queued for the other side goes out first.
pub read_failed : PairId → Link → Link
unfolding stop
read_failed p l =
    if not (is_empty (get (other p) l.conn.msg_queue_pair))
    then record l { conn = record l.conn { full_open = false } }
    else stop l

-- Traffic on an open connection keeps it from expiring.
pub touch : View → Link → Link
touch v l =
    if l.conn.full_open then record l { conn = record l.conn { active_time = v.now } } else l

-- The bytes read, due after the delay.
pub received : View → PairId → ℕ → Link → Msg
received v p bytes_transferred l = record {
  first = l.conn.active_time +ℤ v.delay_ms;
  second = array_buffer (get p l.conn.recv_buf_pair) (to_int (pos bytes_transferred));
}

-- The message is queued for the other side; a full queue stops the reader.
pub enqueue : PairId → Msg → Link → Link
unfolding async_read
enqueue p m l =
    let queue : List Msg = get (other p) l.conn.msg_queue_pair ++ m ∷ [] in
    let queued : Link = with_queue (other p) queue l in
    if ltb max_tcp_msg_queue_size (length queue)
    then record queued {
      conn = record queued.conn { reading_flag_pair = put p false l.conn.reading_flag_pair };
    }
    else async_read p queued

pub read_done : View → PairId → ℕ → Link → Link
unfolding touch received enqueue
read_done v p bytes_transferred l =
    let l' : Link = touch v l in enqueue p (received v p bytes_transferred l') l'

unfoldable pub handle_read : View → PairId → ErrorCode → ℕ → Link → Link
unfolding read_failed read_done
handle_read v p success n l = read_done v p n l
handle_read v p operation_aborted n l = l
handle_read v p connection_refused n l = read_failed p l
handle_read v p connection_reset n l = read_failed p l
handle_read v p (other_error e) n l = read_failed p l
