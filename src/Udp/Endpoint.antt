-- ===== src/Udp/Endpoint.antt =====
-- src/udp_proxy.cpp: `UdpEndpointProxy`, one UDP socket with its queues. E is the type of endpoints
-- and A that of addresses of Boost.Asio. The calls on one endpoint are taken one at a time.

pub mod Life
pub mod Drops
mod Examples
use tcp_udp_proxy.Prelude.{
  ℕ, ◌+◌, ◌-◌, ℤ, pos, ◌+ℤ◌, to_int, ltb, ltb_ℤ, leb_ℤ, ◌==◌, Bool, true, false, not, ◌&&◌, Option,
  none, some, List, [], ◌∷◌, ◌++◌, length, if◌then◌else◌, is_error, ErrorCode, success,
  operation_aborted, connection_refused, connection_reset, other_error,
}
use tcp_udp_proxy.Buffer.{Buffer, sized_buffer, resize}
use tcp_udp_proxy.Config.{UdpProxyRule, udp_buffer_size, max_udp_msg_queue_size}

pub record UdpMsg (E : Type 0) : Type 0 where
  pub msg : Buffer
  pub time : ℤ
  pub src : E

-- `is_open` and `receives` are the socket's: whether it is open, and how many receives were started
-- and have not completed. `recving_msg` is what the completion of a receive brings.
pub record UdpEndpointProxy (E A : Type 0) : Type 0 where
  pub proxy_rule : UdpProxyRule E
  pub is_open : Bool
  pub receives : ℕ
  pub server_flag : Bool
  pub active_tm : ℤ
  pub recv_queue : List (UdpMsg E)
  pub send_queue : List (UdpMsg E)
  pub recv_avail_bytes : ℤ
  pub send_avail_bytes : ℤ
  pub recving_flag : Bool
  pub client_ip : Option A

-- What the calls in `init` return, in their order, and the time at its end.
pub record Opening : Type 0 where
  pub open_ec : ErrorCode
  pub option_ec : ErrorCode
  pub bind_ec : ErrorCode
  pub ms : ℤ

-- A received datagram with its array of `UDP_BUFFER_SIZE` bytes and its sender.
pub record Datagram (E : Type 0) : Type 0 where
  pub arr : List ℕ
  pub bytes_transferred : ℕ
  pub from : E

-- `drawn` is the result of `int32_range(1, 10000)`.
unfoldable pub dropped : ℤ → ℤ → Bool
dropped drop_prob drawn = ltb_ℤ (pos 0) drop_prob && leb_ℤ drawn drop_prob

module _ {E A : Type 0} where
  unfoldable pub async_recv : UdpEndpointProxy E A → UdpEndpointProxy E A
  async_recv e = record e { receives = e.receives + 1 }

  unfoldable pub init : Opening → UdpEndpointProxy E A → UdpEndpointProxy E A
  unfolding async_recv
  init r e =
      let opened : UdpEndpointProxy E A = record e { is_open = true } in
      if is_error r.open_ec
      then e
      else if is_error r.option_ec
      then opened
      else if is_error r.bind_ec
      then opened
      else record (async_recv opened) { active_tm = r.ms }

  -- The constructor. `ip` is what `getIPProxy` gives for the address of `dst_endpoint`.
  unfoldable pub new_endpoint : UdpProxyRule E → Option A → Opening → UdpEndpointProxy E A
  unfolding init
  new_endpoint rule ip r =
      let server : Bool = not (rule.src_port == 0) in
      init r (record {
        proxy_rule = rule;
        is_open = false;
        receives = 0;
        server_flag = server;
        active_tm = pos 0;
        recv_queue = [];
        send_queue = [];
        recv_avail_bytes = pos 0;
        send_avail_bytes = pos 0;
        recving_flag = true;
        client_ip = (if server then none else ip);
      })

  unfoldable pub stop : UdpEndpointProxy E A → UdpEndpointProxy E A
  stop e = record e { is_open = false; active_tm = pos 0 }

  -- Stopped after an error; the endpoint of a rule opens its socket again.
  unfoldable pub restart : Opening → UdpEndpointProxy E A → UdpEndpointProxy E A
  unfolding init stop
  restart r e = if e.server_flag then init r (stop e) else stop e

  unfoldable pub received : Datagram E → UdpEndpointProxy E A → UdpMsg E
  unfolding resize sized_buffer
  received d e = record {
    msg = resize (to_int (pos d.bytes_transferred)) (sized_buffer d.arr (pos udp_buffer_size));
    time = e.active_tm +ℤ e.proxy_rule.delay_ms;
    src = d.from;
  }

  -- A full queue stops the receiver.
  unfoldable pub push_recv : UdpMsg E → UdpEndpointProxy E A → UdpEndpointProxy E A
  unfolding async_recv
  push_recv m e =
      let queue : List (UdpMsg E) = e.recv_queue ++ m ∷ [] in
      if ltb max_udp_msg_queue_size (length queue)
      then record e { recv_queue = queue; recving_flag = false }
      else async_recv (record e { recv_queue = queue })

  unfoldable pub recv_done : ℤ → ℤ → Datagram E → UdpEndpointProxy E A → UdpEndpointProxy E A
  unfolding async_recv dropped received push_recv
  recv_done now drawn d e =
      let active : UdpEndpointProxy E A = record e { active_tm = now } in
      if dropped e.proxy_rule.drop_prob drawn
      then async_recv active
      else push_recv (received d active) active

  unfoldable pub handle_recv :
      ErrorCode → ℤ → ℤ → Opening → Datagram E → UdpEndpointProxy E A → UdpEndpointProxy E A
  unfolding async_recv restart recv_done
  handle_recv success now drawn r d e = recv_done now drawn d e
  handle_recv operation_aborted now drawn r d e = e
  handle_recv connection_refused now drawn r d e = async_recv e
  handle_recv connection_reset now drawn r d e = async_recv e
  handle_recv (other_error n) now drawn r d e = restart r e

  -- The end of a round of the receive loop: the front message leaves the queue, and a receiver that
  -- had stopped goes on.
  unfoldable pub pop_recv : UdpEndpointProxy E A → List (UdpMsg E) → UdpEndpointProxy E A
  unfolding async_recv
  pop_recv e [] = e
  pop_recv e (m ∷ ms) =
      if not e.recving_flag
      then async_recv (record e { recv_queue = ms; recving_flag = true })
      else record e { recv_queue = ms }

  unfoldable pub pop : UdpEndpointProxy E A → UdpEndpointProxy E A
  unfolding pop_recv
  pop e = pop_recv e e.recv_queue

  -- A message for this endpoint to send, if its queue has room.
  unfoldable pub push_send : UdpMsg E → UdpEndpointProxy E A → UdpEndpointProxy E A
  push_send m e =
      if ltb (length e.send_queue) max_udp_msg_queue_size
      then record e { send_queue = e.send_queue ++ m ∷ [] }
      else e
