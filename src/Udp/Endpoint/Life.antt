-- ===== src/Udp/Endpoint/Life.antt =====
-- The endpoint of one client, through the completions of its receives and what the routine thread
-- does with it.
use tcp_udp_proxy.Prelude.{
  ℕ, ◌+◌, ◌-◌, ◌*◌, ◌≤◌, ℤ, ◌≡◌, ◌⊎◌, inl, inr, refl, ap, ==_iff, Bool, true, false, not, Option,
  List, [], ◌∷◌, ◌++◌, length, length-append, ltb, if_elim, bit, bit-le, ErrorCode, success,
  operation_aborted, connection_refused, connection_reset, other_error, arith,
}
use tcp_udp_proxy.Config.{UdpProxyRule, max_udp_msg_queue_size}
use tcp_udp_proxy.Udp.Endpoint.{
  UdpMsg, UdpEndpointProxy, Opening, Datagram, async_recv, init, new_endpoint, stop, restart,
  dropped, push_recv, recv_done, handle_recv, pop_recv, pop, push_send,
}

-- A receive completes; the routine thread takes the front message, queues a message to send, notes
-- activity, fails to send, or has sent the front message.
pub data Event (E : Type 0) : Type 0 where
  receives : ErrorCode → ℤ → ℤ → Opening → Datagram E → Event E
  pops : Event E
  queues : UdpMsg E → Event E
  touches : ℤ → Event E
  fails : Opening → Event E
  sends : List (UdpMsg E) → Event E

module _ {E A : Type 0} where
  abbrev pub completed : UdpEndpointProxy E A → UdpEndpointProxy E A
  completed e = record e { receives = e.receives - 1 }

  unfoldable pub step : Event E → UdpEndpointProxy E A → UdpEndpointProxy E A
  step (receives ec now drawn r d) e = handle_recv ec now drawn r d (completed e)
  step pops e = pop e
  step (queues m) e = push_send m e
  step (touches now) e = record e { active_tm = now }
  step (fails r) e = restart r e
  step (sends rest) e = record e { send_queue = rest }

  -- Boost.Asio completes a receive once, and reports `operation_aborted` only on a socket that was
  -- closed. A send takes one message off the queue.
  abbrev pub Enabled : Event E → UdpEndpointProxy E A → Type 0
  Enabled (receives ec now drawn r d) e =
      (1 ≤ e.receives) × (ec ≡ operation_aborted → e.is_open ≡ false)
  Enabled (sends rest) e = length rest + 1 ≡ length e.send_queue
  Enabled _ e = Unit {0}

abbrev pub opened : ℤ → Opening
opened ms = record { open_ec = success; option_ec = success; bind_ec = success; ms = ms }

-- The states of an endpoint that the routine thread made for a client, with port 0, and whose
-- socket was opened: others it drops at once.
pub data Reach {E A : Type 0} : UdpEndpointProxy E A → Type 0 where
  created :
      (rule : UdpProxyRule E) (ip : Option A) (ms : ℤ)
      → rule.src_port ≡ 0
      → Reach (new_endpoint rule ip (opened ms))
  next : {e : UdpEndpointProxy E A} (v : Event E) → Reach e → Enabled v e → Reach (step v e)

-- No receive is under way, and the receiver has not stopped.
record IsIdle {E A : Type 0} (e : UdpEndpointProxy E A) : Type 0 where
  client : bit e.server_flag ≡ 0
  none_waits : e.receives ≡ 0
  receiving : bit e.recving_flag ≡ 1
  room : length e.recv_queue ≤ 50
  sending : length e.send_queue ≤ 50

record Inv {E A : Type 0} (e : UdpEndpointProxy E A) : Type 0 where
  client : bit e.server_flag ≡ 0
  one : e.receives ≤ bit e.recving_flag
  few : length e.recv_queue + bit e.recving_flag ≤ 51
  full : 51 ≤ length e.recv_queue + 51 * bit e.recving_flag
  going : bit e.is_open + bit e.recving_flag ≤ e.receives + 1
  sending : length e.send_queue ≤ 50

module _ {E A : Type 0} where
  restart-Inv :
      (r : Opening) (e : UdpEndpointProxy E A)
      → bit e.server_flag ≡ 0
      → Inv (record e { is_open = false })
      → Inv (restart r e)
  unfolding restart stop
  restart-Inv r e s i =
      if_elim Inv e.server_flag _ _ (λ t. absurd (omega (arith, ap bit t)))
        (λ _. record {
          client = i.client;
          one = i.one;
          few = i.few;
          full = i.full;
          going = i.going;
          sending = i.sending;
        })

  push_recv-Inv : (m : UdpMsg E) (e : UdpEndpointProxy E A) → IsIdle e → Inv (push_recv m e)
  unfolding push_recv async_recv
  push_recv-Inv m e i =
      if_elim Inv (ltb max_udp_msg_queue_size (length (e.recv_queue ++ m ∷ []))) _ _
        (λ t. record {
          client = i.client;
          one = omega (arith, i.none_waits);
          few = omega (arith, longer, i.room);
          full = ground (arith, longer, t);
          going = omega (arith, bit-le);
          sending = i.sending;
        })
        (λ t. record {
          client = i.client;
          one = omega (arith, i.none_waits, i.receiving);
          few = ground (arith, longer, t, i.receiving);
          full = omega (arith, i.receiving);
          going = omega (arith, i.receiving, bit-le);
          sending = i.sending;
        })
    where
      longer : length (e.recv_queue ++ m ∷ []) ≡ length e.recv_queue + 1
      longer = omega (arith, length-append e.recv_queue (m ∷ []))

  async_recv-Inv : (e : UdpEndpointProxy E A) → IsIdle e → Inv (async_recv e)
  unfolding async_recv
  async_recv-Inv e i = record {
    client = i.client;
    one = omega (arith, i.none_waits, i.receiving);
    few = omega (arith, i.room, i.receiving);
    full = omega (arith, i.receiving);
    going = omega (arith, i.receiving, bit-le);
    sending = i.sending;
  }

  active-IsIdle :
      (now : ℤ) (e : UdpEndpointProxy E A) → IsIdle e → IsIdle (record e { active_tm = now })
  active-IsIdle now e i = record {
    client = i.client;
    none_waits = i.none_waits;
    receiving = i.receiving;
    room = i.room;
    sending = i.sending;
  }

  completed-IsIdle : (e : UdpEndpointProxy E A) → 1 ≤ e.receives → Inv e → IsIdle (completed e)
  completed-IsIdle e h i = record {
    client = i.client;
    none_waits = omega (arith, h, i.one, bit-le);
    receiving = omega (arith, h, i.one, bit-le);
    room = omega (arith, h, i.one, i.few);
    sending = i.sending;
  }

  -- The completion of a receive, on a socket that was closed since.
  closed-Inv :
      (e : UdpEndpointProxy E A) (n : ℕ)
      → n ≤ e.receives
      → Inv e
      → Inv (record e { receives = n; is_open = false })
  closed-Inv e n h i = record {
    client = i.client;
    one = omega (arith, i.one, h);
    few = i.few;
    full = i.full;
    going = omega (arith, bit-le);
    sending = i.sending;
  }

  handle_recv-Inv :
      (ec : ErrorCode) (now drawn : ℤ) (r : Opening) (d : Datagram E) (e : UdpEndpointProxy E A)
      → 1 ≤ e.receives
      → (ec ≡ operation_aborted → e.is_open ≡ false)
      → Inv e
      → Inv (handle_recv ec now drawn r d (completed e))
  unfolding handle_recv recv_done
  handle_recv-Inv success now drawn r d e h a i =
      if_elim Inv (dropped e.proxy_rule.drop_prob drawn) _ _ (λ _. async_recv-Inv _ idle)
        (λ _. push_recv-Inv _ _ idle)
    where
      idle : IsIdle (record (completed e) { active_tm = now })
      idle = active-IsIdle now (completed e) (completed-IsIdle e h i)
  handle_recv-Inv operation_aborted now drawn r d e h a i = record {
    client = i.client;
    one = omega (arith, i.one);
    few = i.few;
    full = i.full;
    going = omega (arith, ap bit (a refl), bit-le);
    sending = i.sending;
  }
  handle_recv-Inv connection_refused now drawn r d e h a i =
      async_recv-Inv _ (completed-IsIdle e h i)
  handle_recv-Inv connection_reset now drawn r d e h a i = async_recv-Inv _ (completed-IsIdle e h i)
  handle_recv-Inv (other_error n) now drawn r d e h a i =
      restart-Inv r (completed e) i.client (closed-Inv e (e.receives - 1) (omega arith) i)

  pop-Inv :
      (e : UdpEndpointProxy E A) (q : List (UdpMsg E))
      → e.recv_queue ≡ q
      → Inv e
      → Inv (pop_recv e q)
  unfolding pop_recv async_recv
  pop-Inv e [] p i = i
  pop-Inv e (m ∷ ms) p i =
      if_elim Inv (not e.recving_flag) _ _
        (λ t. record {
          client = i.client;
          one = ground (arith, t, i.one);
          few = ground (arith, t, i.few, ap length p);
          full = omega arith;
          going = omega (arith, bit-le);
          sending = i.sending;
        })
        (λ t. record {
          client = i.client;
          one = i.one;
          few = omega (arith, i.few, ap length p);
          full = ground (arith, t);
          going = i.going;
          sending = i.sending;
        })

  push_send-Inv : (m : UdpMsg E) (e : UdpEndpointProxy E A) → Inv e → Inv (push_send m e)
  unfolding push_send
  push_send-Inv m e i =
      if_elim Inv (ltb (length e.send_queue) max_udp_msg_queue_size) _ _
        (λ t. record {
          client = i.client;
          one = i.one;
          few = i.few;
          full = i.full;
          going = i.going;
          sending = ground (arith, t, length-append e.send_queue (m ∷ []));
        })
        (λ _. i)

  step-Inv : (v : Event E) (e : UdpEndpointProxy E A) → Enabled v e → Inv e → Inv (step v e)
  unfolding step pop
  step-Inv (receives ec now drawn r d) e (h, a) i = handle_recv-Inv ec now drawn r d e h a i
  step-Inv pops e h i = pop-Inv e e.recv_queue refl i
  step-Inv (queues m) e h i = push_send-Inv m e i
  step-Inv (touches now) e h i = record {
    client = i.client;
    one = i.one;
    few = i.few;
    full = i.full;
    going = i.going;
    sending = i.sending;
  }
  step-Inv (fails r) e h i = restart-Inv r e i.client (closed-Inv e e.receives (omega arith) i)
  step-Inv (sends rest) e h i = record {
    client = i.client;
    one = i.one;
    few = i.few;
    full = i.full;
    going = i.going;
    sending = omega (arith, h, i.sending);
  }

  new-Inv :
      (rule : UdpProxyRule E) (ip : Option A) (ms : ℤ)
      → rule.src_port ≡ 0
      → Inv (new_endpoint rule ip (opened ms))
  unfolding new_endpoint init async_recv
  new-Inv rule ip ms z = record {
    client = ground (arith, z, ==_iff rule.src_port 0);
    one = omega arith;
    few = omega arith;
    full = omega arith;
    going = omega arith;
    sending = omega arith;
  }

  Reach-Inv : {e : UdpEndpointProxy E A} → Reach e → Inv e
  Reach-Inv (created rule ip ms z) = new-Inv rule ip ms z
  Reach-Inv (next {e} v r h) = step-Inv v e h (Reach-Inv r)

  -- In every state that the endpoint of a client reaches after its socket was opened: at most one
  -- receive is under way, at most 51 received messages are queued, at most 50 messages wait to be
  -- sent, and the receiver has stopped only with 51 messages queued and no receive under way.
  pub queues_bounded :
      {e : UdpEndpointProxy E A}
      → Reach e
      → (e.receives ≤ 1)
        × (length e.recv_queue ≤ 51)
        × (length e.send_queue ≤ 50)
        × (e.recving_flag ≡ true ⊎ (e.receives ≡ 0 × length e.recv_queue ≡ 51))
  queues_bounded {e} r =
      let i : Inv e = Reach-Inv r in
      (omega (arith, i.one, bit-le), omega (arith, i.few), i.sending, stopped e.recving_flag refl i)
    where
      stopped :
          (b : Bool)
          → b ≡ e.recving_flag
          → Inv e
          → (b ≡ true ⊎ (e.receives ≡ 0 × length e.recv_queue ≡ 51))
      stopped true q i = inl refl
      stopped false q i =
          inr (omega (arith, i.one, ap bit q), omega (arith, i.few, i.full, ap bit q))

  -- In every state that the endpoint of a client reaches after its socket was opened, a socket that
  -- is open has a receive under way, or 51 received messages are queued.
  pub open_receives :
      {e : UdpEndpointProxy E A}
      → Reach e
      → e.is_open ≡ true
      → (e.receives ≡ 1) ⊎ (length e.recv_queue ≡ 51)
  open_receives {e} r o = elim (queues_bounded r).3 [
    | inl t ↦ inl (omega (arith, (Reach-Inv r).one, (Reach-Inv r).going, ap bit o, ap bit t))
    | inr (z, n) ↦ inr n
  ]
