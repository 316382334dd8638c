-- ===== src/Udp/Server.antt =====
-- src/udp_proxy.cpp: `UdpProxyServer`, the endpoints of all UDP rules and of their clients, with the
-- rounds of the thread that moves messages between them. E is the type of endpoints and A that of
-- addresses of Boost.Asio. The order of a list of endpoints stands for the order of the map's keys.
pub mod Receive
pub mod Send
pub mod Routine
pub mod Entries
pub mod Holders
pub mod Sound
pub mod Deliveries
pub mod RecvPass
pub mod Passes
pub mod SendPass
pub mod Rounds
pub mod Feeds
pub mod Taking
pub mod Steps
pub mod Turns
pub mod Allowance
pub mod Handing
pub mod Queues
pub mod Wire
pub mod Routes
pub mod Routing
pub mod Dispatch
pub mod Origins
mod Examples
use tcp_udp_proxy.Prelude.{
  ℕ, ◌+◌, ℤ, pos, ◌+ℤ◌, ◌-ℤ◌, ◌*ℤ◌, to_int, add_int, sub_int, div_thousand, ltb_ℤ, leb_ℤ, Bool,
  true, false, not, ◌&&◌, ◌||◌, Option, none, some, List, [], ◌∷◌, ◌++◌, map, if◌then◌else◌, PairId,
  p0, p1, Pair, get, put, Outcome, done, fault, ◌>>=◌, assertion_failed, null_dereference,
  dangling_pointer, ErrorCode, is_error,
}
use tcp_udp_proxy.Prelude.Maps.{Eq, ◌==◌, lookup, insert, erase}
use tcp_udp_proxy.Buffer.{Buffer, get_size}
use tcp_udp_proxy.Config.{UdpProxyRule, udp_packet_extra_overhead}
use tcp_udp_proxy.IpProxy.{IpProxy, IpProxies, is_zero, get_ip_proxy}
use tcp_udp_proxy.IpProxy.Pointers.{destroy}
use tcp_udp_proxy.Udp.Endpoint.{
  UdpMsg, UdpEndpointProxy, Opening, new_endpoint, stop, restart, pop, push_send,
}

-- What the thread finds outside in one round: the time, `now - args.udp_timeout`, the milliseconds
-- since the last round, the address of an endpoint, and what the n-th `init` and the n-th `send_to`
-- of the round return.
pub record Surroundings (E A : Type 0) : Type 0 where
  pub now : ℤ
  pub active_timeout_tm : ℤ
  pub interval : ℤ
  pub address : E → A
  pub opening : ℕ → Opening
  pub send_result : ℕ → ErrorCode

-- A call of `send_to` by the endpoint with the key `from`.
pub record Sent (E : Type 0) : Type 0 where
  pub from : E
  pub message : UdpMsg E

-- The state of a round: `inits` and `sends` count the calls made so far, and `wire` has the messages
-- that were sent, in order.
pub record Round (E A : Type 0) : Type 0 where
  pub endpoints : List (E × UdpEndpointProxy E A)
  pub new_epts : List (E × UdpEndpointProxy E A)
  pub ip_proxies : IpProxies A
  pub inits : ℕ
  pub sends : ℕ
  pub wire : List (Sent E)

-- `msg.msg.get_size() + UDP_PACKET_EXTRA_OVERHEAD`
unfoldable pub charge : Buffer → ℤ
charge b = add_int (get_size b) udp_packet_extra_overhead

-- `(int)(interval * ept->proxy_rule.max_bandwidth / 1000)`
unfoldable pub round_bytes : ℤ → ℤ → ℤ
round_bytes interval max_bandwidth = to_int (div_thousand (interval *ℤ max_bandwidth))

pub refill_one : ℤ → ℤ → ℤ
refill_one bytes avail = if ltb_ℤ avail (pos 0) then add_int avail bytes else avail

-- The rule of the endpoint that is made for a new client.
abbrev pub client_rule : {E : Type 0} → UdpProxyRule E → E → UdpProxyRule E
client_rule rule src = record rule { dst_endpoint = src; src_port = 0 }

module _ {E A : Type 0} where
  -- A rule's limit binds the endpoints of clients.
  unfoldable pub limited : UdpEndpointProxy E A → Bool
  limited ept = not ept.server_flag && ltb_ℤ (pos 0) ept.proxy_rule.max_bandwidth

  unfoldable pub refill : ℤ → UdpEndpointProxy E A → UdpEndpointProxy E A
  unfolding limited refill_one round_bytes
  refill interval ept =
      let bytes : ℤ = round_bytes interval ept.proxy_rule.max_bandwidth in
      if limited ept
      then record ept {
        recv_avail_bytes = refill_one bytes ept.recv_avail_bytes;
        send_avail_bytes = refill_one bytes ept.send_avail_bytes;
      }
      else ept

  unfoldable pub is_expired : ℤ → UdpEndpointProxy E A → Bool
  is_expired active_timeout_tm ept =
      is_zero ept.active_tm || (ltb_ℤ ept.active_tm active_timeout_tm && not ept.server_flag)

  -- `if (sender->active_tm != 0) sender->active_tm = now`
  unfoldable pub touch : ℤ → UdpEndpointProxy E A → UdpEndpointProxy E A
  touch now sender = if is_zero sender.active_tm then sender else record sender { active_tm = now }

  -- The message is taken off the queue and paid for.
  unfoldable pub take_message : Buffer → UdpEndpointProxy E A → UdpEndpointProxy E A
  unfolding limited charge pop
  take_message b ept = pop (
      if limited ept
      then record ept { recv_avail_bytes = sub_int ept.recv_avail_bytes (charge b) }
      else ept)

-- The client's allowance in one direction: 1 for what it sends, 0 for what it is sent. None where
-- it is used up.
unfoldable pub charge_pointer :
    {A : Type 0} ⦃e : Eq A⦄
    → PairId
    → Buffer
    → Option A
    → IpProxies A
    → Outcome (Option (IpProxies A))
unfolding charge
charge_pointer side b none s = fault null_dereference
charge_pointer side b (some x) s = elim (lookup x s.addrs) [
  | none ↦ fault dangling_pointer
  | some ip ↦ done (
      if leb_ℤ (pos 0) (get side ip.avail_bytes)
      then some (record s {
        addrs =
            insert x
              (record ip {
                avail_bytes =
                    put side (sub_int (get side ip.avail_bytes) (charge b)) ip.avail_bytes;
              })
              s.addrs;
      })
      else none)
]

unfoldable pub charge_ip :
    {E A : Type 0} ⦃e : Eq A⦄
    → PairId
    → Buffer
    → UdpEndpointProxy E A
    → IpProxies A
    → Outcome (Option (IpProxies A))
unfolding charge_pointer
charge_ip side b ept s =
    if not ept.server_flag && ltb_ℤ (pos 0) (get side s.bandwidth)
    then charge_pointer side b ept.client_ip s
    else done (some s)

-- The destructor of the endpoint that a key of a map names.
unfoldable pub destroy_entry :
    {E A : Type 0} ⦃e : Eq A⦄ → Option (UdpEndpointProxy E A) → IpProxies A → Outcome (IpProxies A)
unfolding destroy
destroy_entry none s = done s
destroy_entry (some ept) s = destroy ept.client_ip s

-- `new_epts[msg.src] = sender` destroys what it replaces.
unfoldable pub keep_new :
    {E A : Type 0} ⦃e : Eq E⦄ ⦃a : Eq A⦄
    → E
    → UdpEndpointProxy E A
    → Round E A
    → Outcome (Round E A)
unfolding destroy_entry
keep_new src sender r = do
  t ← destroy_entry (lookup src r.new_epts) r.ip_proxies
  done (record r { new_epts = insert src sender r.new_epts; ip_proxies = t })

unfoldable pub discard :
    {E A : Type 0} ⦃a : Eq A⦄ → UdpEndpointProxy E A → Round E A → Outcome (Round E A)
unfolding destroy
discard ept r = do t ← destroy ept.client_ip r.ip_proxies; done (record r { ip_proxies = t })
