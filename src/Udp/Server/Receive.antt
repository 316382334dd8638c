-- ===== src/Udp/Server/Receive.antt =====
-- src/udp_proxy.cpp: the first part of a round of `routineThreadHandler`, which moves received
-- messages to the endpoints that send them on.
use tcp_udp_proxy.Prelude.{
  ◌+◌, pos, ltb_ℤ, Option, none, some, List, [], ◌∷◌, if◌then◌else◌, p1, Outcome, done, fault,
  ◌>>=◌, assertion_failed,
}
use tcp_udp_proxy.Prelude.Maps.{Eq, ◌==◌, lookup, insert, erase}
use tcp_udp_proxy.IpProxy.{is_zero, get_ip_proxy}
use tcp_udp_proxy.Udp.Endpoint.{UdpMsg, UdpEndpointProxy, new_endpoint, push_send}
use tcp_udp_proxy.Udp.Server.{
  Surroundings, Round, refill, is_expired, touch, take_message, client_rule, charge_ip, keep_new,
  discard,
}

module _ {E A : Type 0} ⦃e : Eq E⦄ ⦃a : Eq A⦄ (env : Surroundings E A) where
  -- The endpoint that is made for a client that is not in `endpoints`, with its first message.
  unfoldable pub new_sender : E → UdpMsg E → UdpEndpointProxy E A → Round E A → UdpEndpointProxy E A
  unfolding new_endpoint push_send
  new_sender key m ept r =
      push_send (record m { src = key })
        (new_endpoint (client_rule ept.proxy_rule m.src)
          (get_ip_proxy (env.address m.src) r.ip_proxies).0 (env.opening r.inits))

  unfoldable pub deliver_new : E → UdpMsg E → UdpEndpointProxy E A → Round E A → Outcome (Round E A)
  unfolding new_sender keep_new discard
  deliver_new key m ept r =
      let sender : UdpEndpointProxy E A = new_sender key m ept r in
      let t : Round E A = record r {
        ip_proxies = (get_ip_proxy (env.address m.src) r.ip_proxies).1;
        inits = r.inits + 1;
      } in
      if is_zero sender.active_tm then discard sender t else keep_new m.src sender t

  unfoldable pub deliver : E → UdpMsg E → UdpEndpointProxy E A → Round E A → Outcome (Round E A)
  unfolding deliver_new touch push_send
  deliver key m ept r = elim (lookup m.src r.endpoints) [
    | none ↦ deliver_new key m ept r
    | some sender ↦ done (record r {
      endpoints =
          insert m.src (push_send (record m { src = key }) (touch env.now sender)) r.endpoints;
    })
  ]

  -- One round of the loop over `recv_queue`, for the endpoint with this key; none where it breaks.
  unfoldable pub forward_one :
      E
      → UdpMsg E
      → UdpEndpointProxy E A
      → Round E A
      → Outcome (Option (UdpEndpointProxy E A × Round E A))
  unfolding deliver charge_ip take_message
  forward_one key m ept r =
      if ltb_ℤ ept.recv_avail_bytes (pos 0)
      then done none
      else if m.src == key
      then fault assertion_failed
      else if ltb_ℤ env.now m.time
      then done none
      else do
        o ← charge_ip p1 m.msg ept r.ip_proxies
        elim o [
          | none ↦ done none
          | some ips ↦ do
            t ← deliver key m ept (record r { ip_proxies = ips })
            done (some (take_message m.msg ept, t))
        ]

  unfoldable pub drain :
      E
      → List (UdpMsg E)
      → UdpEndpointProxy E A
      → Round E A
      → Outcome (UdpEndpointProxy E A × Round E A)
  unfolding forward_one
  drain key [] ept r = done (ept, r)
  drain key (m ∷ ms) ept r = do
    o ← forward_one key m ept r
    elim o [ none ↦ done (ept, r) | some (ept', r') ↦ drain key ms ept' r' ]

  unfoldable pub forward_all : E → UdpEndpointProxy E A → Round E A → Outcome (Round E A)
  unfolding refill drain
  forward_all key ept r = do
    (ept', r') ← drain key ept.recv_queue (refill env.interval ept) r
    done (record r' { endpoints = insert key ept' r'.endpoints })

  -- The body of the first loop over `endpoints`.
  unfoldable pub visit_entry : E → UdpEndpointProxy E A → Round E A → Outcome (Round E A)
  unfolding is_expired discard forward_all
  visit_entry key ept r =
      if is_expired env.active_timeout_tm ept
      then discard ept (record r { endpoints = erase key r.endpoints })
      else forward_all key ept r

  unfoldable pub recv_pass : List E → Round E A → Outcome (Round E A)
  unfolding visit_entry
  recv_pass [] r = done r
  recv_pass (key ∷ keys) r = do
    t ← elim (lookup key r.endpoints) [ none ↦ done r | some ept ↦ visit_entry key ept r ]
    recv_pass keys t

-- `endpoints.insert(new_epts.begin(), new_epts.end())` keeps an entry that is there; `new_epts`
-- ends with the round.
unfoldable pub insert_new :
    {E A : Type 0} ⦃e : Eq E⦄ ⦃a : Eq A⦄
    → List (E × UdpEndpointProxy E A)
    → Round E A
    → Outcome (Round E A)
unfolding discard
insert_new [] r = done (record r { new_epts = [] })
insert_new ((key, ept) ∷ new_epts) r = do
  t ← elim (lookup key r.endpoints) [
    | none ↦ done (record r { endpoints = insert key ept r.endpoints })
    | some old ↦ discard ept r
  ]
  insert_new new_epts t
