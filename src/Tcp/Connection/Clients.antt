-- ===== src/Tcp/Connection/Clients.antt =====
-- src/ip_proxy.cpp, src/tcp_proxy.cpp and src/udp_proxy.cpp: the allowance of a client's address, which
-- all its connections and its UDP endpoint charge, which the thread of `IPProxies` refills, and which
-- is made anew when the address comes back after it was forgotten.
mod Examples
use tcp_udp_proxy.Prelude.{
  ℕ, ◌+◌, ◌≤◌, ℤ, pos, leb_ℤ, ◌≡◌, ◌≢◌, false, sym, some, List, [], PairId, p0, p1, other, Pair,
  get, done,
}
use tcp_udp_proxy.Prelude.Maps.{Eq, lookup, insert}
use tcp_udp_proxy.Buffer.{Buffer}
use tcp_udp_proxy.IpProxy.{
  IpProxy, IpProxies, new_ip_proxies, start, get_ip_proxy, release, routine_round, interval,
  bytes_for,
}
use tcp_udp_proxy.IpProxy.Pointers.{store}
use tcp_udp_proxy.Udp.Endpoint.{UdpEndpointProxy}
use tcp_udp_proxy.Udp.Server.{Surroundings, Round}
use tcp_udp_proxy.Udp.Server.Receive.{drain}
use tcp_udp_proxy.Udp.Server.Send.{drain_send}
use tcp_udp_proxy.Udp.Server.Allowance.{wire_bytes, queue_bytes, AllDatagrams, Limited}
use tcp_udp_proxy.Tcp.Connection.{View, Link, charge_client}
use tcp_udp_proxy.Tcp.Connection.Rate.{IsSize, spent}
use tcp_udp_proxy.Tcp.Connection.Charges.{Held}
use tcp_udp_proxy.Tcp.Connection.Lives.{appears}

-- The states of `ip_proxies`, as the client with the address x sees them in the direction of its
-- sockets p: how often an object was made for the address, what the rounds granted in this direction,
-- and what the connections and the endpoint of the client passed on in it, with the headers.
module _ (E A : Type 0) ⦃e : Eq E⦄ ⦃a : Eq A⦄ (p : PairId) (x : A) where
  pub data Served : ℕ → ℕ → ℕ → IpProxies A → Type 0 where
    begins : (send recv now : ℤ) → Served 0 0 0 (start send recv now new_ip_proxies)
    -- Any client comes or goes.
    acquires :
        {n g w : ℕ} {s : IpProxies A} (y : A)
        → Served n g w s
        → Served
            (n + appears (lookup x s.addrs) (lookup x (get_ip_proxy y s).1.addrs))
            g
            w
            (get_ip_proxy y s).1
    releases :
        {n g w : ℕ} {s t : IpProxies A} (y : A)
        → Served n g w s
        → release y s ≡ some t
        → Served n g w t
    -- A round of the thread, which grants c bytes in this direction and forgets who has no holder.
    rounds :
        {n g w : ℕ} {s : IpProxies A} (now : ℤ) (c : ℕ)
        → Served n g w s
        → leb_ℤ (interval now s) (pos 0) ≡ false
        → get (other p) (bytes_for now s) ≡ pos c
        → c ≤ 2147483647
        → Served n (g + c) w (routine_round now s)
    -- A connection of the client is about to write to its socket p, or to the other one.
    writes :
        {n g w w' : ℕ} {s : IpProxies A} {ip jp : IpProxy} (v : View) (b : Buffer) (l next : Link)
        → Served n g w s
        → IsSize b
        → lookup x s.addrs ≡ some ip
        → l.client_ip ≡ some ip
        → charge_client v p b l (some ip) ≡ done next
        → next.client_ip ≡ some jp
        → w' + spent (get p l.sockets.written) ≡ w + spent (get p next.sockets.written)
        → Served n g w' (record s { addrs = insert x jp s.addrs })
    crosses :
        {n g w : ℕ} {s : IpProxies A} {ip jp : IpProxy} (v : View) (b : Buffer) (l next : Link)
        → Served n g w s
        → lookup x s.addrs ≡ some ip
        → l.client_ip ≡ some ip
        → charge_client v (other p) b l (some ip) ≡ done next
        → next.client_ip ≡ some jp
        → Served n g w (record s { addrs = insert x jp s.addrs })
    -- The send loop of the client's endpoint, and the receive loop.
    sends :
        {n g w w' : ℕ} (env : Surroundings E A) (k : E) (ept y : UdpEndpointProxy E A)
        (r t : Round E A)
        → Served n g w r.ip_proxies
        → other p ≡ p0
        → AllDatagrams ept.send_queue
        → Limited p x ept r.ip_proxies
        → drain_send env k ept.send_queue ept r ≡ done (y, t)
        → w' + wire_bytes r.wire ≡ w + wire_bytes t.wire
        → Served n g w' t.ip_proxies
    receives :
        {n g w w' : ℕ} (env : Surroundings E A) (k : E) (ept y : UdpEndpointProxy E A)
        (r t : Round E A)
        → Served n g w r.ip_proxies
        → other p ≡ p1
        → AllDatagrams ept.recv_queue
        → Limited p x ept r.ip_proxies
        → drain env k ept.recv_queue ept r ≡ done (y, t)
        → w' + queue_bytes y.recv_queue ≡ w + queue_bytes ept.recv_queue
        → Served n g w' t.ip_proxies
    -- Another client's entry changes.
    others :
        {n g w : ℕ} {s : IpProxies A} (y : A) (jp : IpProxy)
        → Served n g w s
        → y ≢ x
        → Served n g w (record s { addrs = insert y jp s.addrs })
