-- ===== src/Udp/Server/Send.antt =====
-- src/udp_proxy.cpp: the second part of a round of `routineThreadHandler`, which sends what waits.
use tcp_udp_proxy.Prelude.{
  ◌+◌, pos, sub_int, ltb_ℤ, Bool, true, false, none, some, List, [], ◌∷◌, ◌++◌, if◌then◌else◌, p0,
  Outcome, done, ◌>>=◌, is_error,
}
use tcp_udp_proxy.Prelude.Maps.{Eq, lookup, insert}
use tcp_udp_proxy.Buffer.{Buffer}
use tcp_udp_proxy.Udp.Endpoint.{UdpMsg, UdpEndpointProxy, restart}
use tcp_udp_proxy.Udp.Server.{Surroundings, Round, charge, limited, charge_ip}

-- A message that was sent leaves the queue and is paid for.
unfoldable pub sent_message :
    {E A : Type 0} → List (UdpMsg E) → Buffer → UdpEndpointProxy E A → UdpEndpointProxy E A
unfolding limited charge
sent_message {E} {A} rest b ept =
    let left : UdpEndpointProxy E A = record ept { send_queue = rest } in
    if limited ept
    then record left { send_avail_bytes = sub_int ept.send_avail_bytes (charge b) }
    else left

module _ {E A : Type 0} ⦃e : Eq E⦄ ⦃a : Eq A⦄ (env : Surroundings E A) where
  -- `send_to` of the front message, and what follows it: a pair of whether the loop goes on.
  unfoldable pub send_front :
      E
      → UdpMsg E
      → List (UdpMsg E)
      → UdpEndpointProxy E A
      → Round E A
      → Bool × UdpEndpointProxy E A × Round E A
  unfolding restart sent_message
  send_front key m rest ept r =
      if is_error (env.send_result r.sends)
      then (
        false,
        restart (env.opening r.inits) ept,
        record r {
          sends = r.sends + 1;
          inits = (if ept.server_flag then r.inits + 1 else r.inits);
        },
      )
      else (
        true,
        sent_message rest m.msg ept,
        record r { sends = r.sends + 1; wire = r.wire ++ record { from = key; message = m } ∷ [] },
      )

  unfoldable pub drain_send :
      E
      → List (UdpMsg E)
      → UdpEndpointProxy E A
      → Round E A
      → Outcome (UdpEndpointProxy E A × Round E A)
  unfolding charge_ip send_front
  drain_send key [] ept r = done (ept, r)
  drain_send key (m ∷ ms) ept r = if ltb_ℤ ept.send_avail_bytes (pos 0) then done (ept, r) else do
    o ← charge_ip p0 m.msg ept r.ip_proxies
    elim o [
      | none ↦ done (ept, r)
      | some ips ↦
          let (more, ept', r') = send_front key m ms ept (record r { ip_proxies = ips }) in
          elim more [ true ↦ drain_send key ms ept' r' | false ↦ done (ept', r') ]
    ]

  unfoldable pub send_pass : List E → Round E A → Outcome (Round E A)
  unfolding drain_send
  send_pass [] r = done r
  send_pass (key ∷ keys) r = do
    t ← elim (lookup key r.endpoints) [
      | none ↦ done r
      | some ept ↦ do
        (ept', r') ← drain_send key ept.send_queue ept r
        done (record r' { endpoints = insert key ept' r'.endpoints })
    ]
    send_pass keys t
