-- ===== src/Udp/Server/Allowance.antt =====
-- src/udp_proxy.cpp: what the two passes of a round take from the allowance of a client's address.
use tcp_udp_proxy.Prelude.{
  ℕ, ◌+◌, ◌*◌, ◌≤◌, ◌≤ℤ◌, ℤ, pos, pos_part, ltb_ℤ, leb_ℤ, sub_int, ◌≡◌, refl, sym, ap, subst, ◌∙◌,
  Bool, true, false, Option, none, some, List, [], ◌∷◌, ◌++◌, PairId, p0, other, get, put, if_elim,
  is_error, Outcome, done, fault, Ends, Ends-bind, arith,
}
use tcp_udp_proxy.Prelude.Maps.{Eq, lookup}
use tcp_udp_proxy.Buffer.{Buffer}
use tcp_udp_proxy.IpProxy.{IpProxy, IpProxies}
use tcp_udp_proxy.Tcp.Connection.Charges.{
  IsDatagram, Held, charged-Held, udp-size-le, udp_charge_eq,
}
use tcp_udp_proxy.Tcp.Connection.Lives.{Owed, Owes, puts-Owes, lookup-insert_self}
use tcp_udp_proxy.Udp.Endpoint.{UdpMsg, UdpEndpointProxy}
use tcp_udp_proxy.Udp.Server.{Surroundings, Sent, Round, charge, limited, charge_pointer, charge_ip}
use tcp_udp_proxy.Udp.Server.Send.{sent_message, send_front, drain_send}

-- The bytes of messages on the wire, with the headers.
abbrev pub message_bytes : {E : Type 0} → UdpMsg E → ℕ
message_bytes m = pos_part m.msg.buf_size + 42

abbrev pub wire_bytes : {E : Type 0} → List (Sent E) → ℕ
wire_bytes [] = 0
wire_bytes (s ∷ w) = message_bytes s.message + wire_bytes w

abbrev pub queue_bytes : {E : Type 0} → List (UdpMsg E) → ℕ
queue_bytes [] = 0
queue_bytes (m ∷ ms) = message_bytes m + queue_bytes ms

abbrev pub AllDatagrams : {E : Type 0} → List (UdpMsg E) → Type 0
AllDatagrams [] = Unit {0}
AllDatagrams (m ∷ ms) = IsDatagram m.msg × AllDatagrams ms

wire_bytes-append :
    {E : Type 0} (w : List (Sent E)) (s : Sent E)
    → wire_bytes (w ++ s ∷ []) ≡ wire_bytes w + message_bytes s.message
wire_bytes-append [] s = omega arith
wire_bytes-append (x ∷ w) s = omega (arith, wire_bytes-append w s)

-- The endpoint of a client whose allowance in this direction is limited.
pub record Limited {E A : Type 0} (p : PairId) (x : A) (ept : UdpEndpointProxy E A)
    (s : IpProxies A) : Type 0 where
  pub client : ept.client_ip ≡ some x
  pub of_client : ept.server_flag ≡ false
  pub limit : ltb_ℤ (pos 0) (get (other p) s.bandwidth) ≡ true

not_negative : (z : ℤ) → leb_ℤ (pos 0) z ≡ true → pos 0 ≤ℤ z
not_negative z h = ground arith

module _ {A : Type 0} ⦃a : Eq A⦄ (p : PairId) (x : A) (n g : ℕ) where
  abbrev pub PaidFor : ℕ → Buffer → IpProxies A → Option (IpProxies A) → Type 0
  PaidFor w b s none = Unit {0}
  PaidFor w b s (some t) =
      Owes p x n g (w + (pos_part b.buf_size + 42)) t
      × (t.bandwidth ≡ s.bandwidth)
      × (ip : IpProxy) × (lookup x t.addrs ≡ some ip)

  -- What is owed after one datagram more.
  charged-Owed :
      (w : ℕ) (b : Buffer) (ip : IpProxy)
      → IsDatagram b
      → leb_ℤ (pos 0) (get (other p) ip.avail_bytes) ≡ true
      → Owed p n g w (some ip)
      → Owed p n g (w + (pos_part b.buf_size + 42)) (
          some (record ip {
            avail_bytes =
                put (other p) (sub_int (get (other p) ip.avail_bytes) (charge b)) ip.avail_bytes;
          }))
  charged-Owed w b ip size lo (k, q, h) = (
    k,
    q,
    subst
        (λ c. Held p (g + 4150 * k) (w + (pos_part b.buf_size + 42)) (record ip {
          avail_bytes = put (other p) (sub_int (get (other p) ip.avail_bytes) c) ip.avail_bytes;
        }))
        (sym (udp_charge_eq b size))
        (charged-Held p (g + 4150 * k) w (pos_part b.buf_size + 42) ip _ _ h (not_negative _ lo)
          (omega (arith, udp-size-le b size)) refl refl),
  )

  charges :
      (w : ℕ) (b : Buffer) (s : IpProxies A) (o : Option IpProxy)
      → IsDatagram b
      → lookup x s.addrs ≡ o
      → Owes p x n g w s
      → Ends (PaidFor w b s) (charge_pointer (other p) b (some x) s)
  unfolding charge_pointer
  charges w b s none size q h = rw (q, charge_pointer) tt
  charges w b s (some ip) size q h =
      rw (q, charge_pointer)
        (if_elim (PaidFor w b s) (leb_ℤ (pos 0) (get (other p) ip.avail_bytes)) _ _
          (λ t. (
            puts-Owes p x n g (w + (pos_part b.buf_size + 42)) _ s h.is_map
                (charged-Owed w b ip size t (subst (Owed p n g w) q h.owed)),
            refl,
            _,
            lookup-insert_self p x _ s.addrs,
          ))
          (λ _. tt))

  pub charge_ip-PaidFor :
      {E : Type 0} (w : ℕ) (b : Buffer) (ept : UdpEndpointProxy E A) (s : IpProxies A)
      → IsDatagram b
      → Limited p x ept s
      → Owes p x n g w s
      → Ends (PaidFor w b s) (charge_ip (other p) b ept s)
  unfolding charge_ip
  charge_ip-PaidFor w b ept s size l h =
      rw (l.of_client, l.limit, l.client, charge_ip) (charges w b s (lookup x s.addrs) size refl h)

  Owes-less : (w v : ℕ) (s : IpProxies A) → v ≤ w → Owes p x n g w s → Owes p x n g v s
  Owes-less w v s l h = record { is_map = h.is_map; owed = less (lookup x s.addrs) h.owed }
    where
      less : (o : Option IpProxy) → Owed p n g w o → Owed p n g v o
      less none q = omega (arith, l, q)
      less (some ip) (k, q, (h, u, v)) = (k, q, (omega (arith, l, h), u, v))

module _ {E A : Type 0} ⦃e : Eq E⦄ ⦃a : Eq A⦄ (env : Surroundings E A) (k : E) (p : PairId) (x : A)
    (n g : ℕ) (side : other p ≡ p0) where
  -- What the loop put on the wire was paid for.
  abbrev pub SentPaid : ℕ → Round E A → UdpEndpointProxy E A × Round E A → Type 0
  SentPaid w r (y, t) =
      (b : ℕ) × (wire_bytes t.wire ≡ wire_bytes r.wire + b) × Owes p x n g (w + b) t.ip_proxies

  nothing_sent :
      (w : ℕ) (y : UdpEndpointProxy E A) (r t : Round E A)
      → t.wire ≡ r.wire
      → Owes p x n g w t.ip_proxies
      → SentPaid w r (y, t)
  nothing_sent w y r t q h =
      (0, omega (arith, ap wire_bytes q), subst (λ v. Owes p x n g v t.ip_proxies) (omega arith) h)

  -- What `send_to` leaves.
  abbrev Fronted :
      UdpMsg E → UdpEndpointProxy E A → Round E A → Bool × UdpEndpointProxy E A × Round E A → Type 0
  Fronted m ept r (true, y, t) =
      (t.wire ≡ r.wire ++ record { from = k; message = m } ∷ [])
      × (t.ip_proxies ≡ r.ip_proxies)
      × (y.client_ip ≡ ept.client_ip)
      × (y.server_flag ≡ ept.server_flag)
  Fronted m ept r (false, y, t) = (t.wire ≡ r.wire) × (t.ip_proxies ≡ r.ip_proxies)

  send_front-Fronted :
      (m : UdpMsg E) (ms : List (UdpMsg E)) (ept : UdpEndpointProxy E A) (r : Round E A)
      → Fronted m ept r (send_front env k m ms ept r)
  unfolding send_front sent_message
  send_front-Fronted m ms ept r =
      if_elim {A = Bool × UdpEndpointProxy E A × Round E A} (Fronted m ept r)
        (is_error (env.send_result r.sends)) _ _ (λ _. (refl, refl))
        (λ _. (
          refl,
          refl,
          if_elim (λ (y : UdpEndpointProxy E A). y.client_ip ≡ ept.client_ip) (limited ept) _ _
              (λ _. refl) (λ _. refl),
          if_elim (λ (y : UdpEndpointProxy E A). y.server_flag ≡ ept.server_flag) (limited ept) _ _
              (λ _. refl) (λ _. refl),
        ))

  after_front :
      (w : ℕ) (m : UdpMsg E) (ms : List (UdpMsg E)) (ept : UdpEndpointProxy E A) (r : Round E A)
      (ips : IpProxies A) (z : Bool × UdpEndpointProxy E A × Round E A)
      → ((v : ℕ) (y : UdpEndpointProxy E A) (t : Round E A)
          → Limited p x y t.ip_proxies
          → Owes p x n g v t.ip_proxies
          → Ends (SentPaid v t) (drain_send env k ms y t))
      → Limited p x ept r.ip_proxies
      → PaidFor p x n g w m.msg r.ip_proxies (some ips)
      → Fronted m ept (record r { ip_proxies = ips }) z
      → Ends
          (SentPaid w r)
          (elim z.0 [ true ↦ drain_send env k ms z.1 z.2 | false ↦ done (z.1, z.2) ])
  after_front w m ms ept r ips (false, y, t) go l (h, b, _, _) (q, s) = nothing_sent w y r t q (
      subst (Owes p x n g w) (sym s)
        (Owes-less p x n g (w + message_bytes m) w ips (omega arith) h))
  after_front w m ms ept r ips (true, y, t) go l (h, b, _, _) (q, s, c, f) =
      let more =
        go (w + message_bytes m) y t
          (record {
            client = c ∙ l.client;
            of_client = f ∙ l.of_client;
            limit =
                ap (λ u. ltb_ℤ (pos 0) (get (other p) u)) (ap (λ i. i.bandwidth) s ∙ b) ∙ l.limit;
          })
          (subst (Owes p x n g (w + message_bytes m)) (sym s) h) in
      longer (drain_send env k ms y t) more
    where
      longer :
          (o : Outcome (UdpEndpointProxy E A × Round E A))
          → Ends (SentPaid (w + message_bytes m) t) o
          → Ends (SentPaid w r) o
      longer (done (y', u)) (d, v, i) = (
        message_bytes m + d,
        omega (
          arith,
          v,
          ap wire_bytes q,
          wire_bytes-append r.wire (record { from = k; message = m }),
        ),
        subst (λ j. Owes p x n g j u.ip_proxies) (omega arith) i,
      )
      longer (fault f) i = tt

  pub drain_send-SentPaid :
      (ms : List (UdpMsg E)) (w : ℕ) (ept : UdpEndpointProxy E A) (r : Round E A)
      → AllDatagrams ms
      → Limited p x ept r.ip_proxies
      → Owes p x n g w r.ip_proxies
      → Ends (SentPaid w r) (drain_send env k ms ept r)
  unfolding drain_send
  drain_send-SentPaid [] w ept r d l h = nothing_sent w ept r r refl h
  drain_send-SentPaid (m ∷ ms) w ept r (size, d) l h =
      if_elim (Ends (SentPaid w r)) (ltb_ℤ ept.send_avail_bytes (pos 0)) _ _
        (λ _. nothing_sent w ept r r refl h)
        (λ _.
          Ends-bind (PaidFor p x n g w m.msg r.ip_proxies) (SentPaid w r) _ _
            (subst
              (λ q.
                Ends (PaidFor p x n g w m.msg r.ip_proxies) (charge_ip q m.msg ept r.ip_proxies))
              side (charge_ip-PaidFor p x n g w m.msg ept r.ip_proxies size l h))
            (after (λ v y t. drain_send-SentPaid ms v y t d)))
    where
      after :
          ((v : ℕ) (y : UdpEndpointProxy E A) (t : Round E A)
            → Limited p x y t.ip_proxies
            → Owes p x n g v t.ip_proxies
            → Ends (SentPaid v t) (drain_send env k ms y t))
          → (o : Option (IpProxies A)) → PaidFor p x n g w m.msg r.ip_proxies o
          → Ends (SentPaid w r) (elim o [
            | none ↦ done (ept, r)
            | some ips ↦
                let (more, ept', r') = send_front env k m ms ept (record r { ip_proxies = ips }) in
                elim more [ true ↦ drain_send env k ms ept' r' | false ↦ done (ept', r') ]
          ])
      after go none f = nothing_sent w ept r r refl h
      after go (some ips) f =
          after_front w m ms ept r ips (send_front env k m ms ept (record r { ip_proxies = ips }))
            go l f (send_front-Fronted m ms ept (record r { ip_proxies = ips }))
