-- ===== src/Tcp/Proxy/Handlers.antt =====
-- src/tcp_proxy.cpp: soundness of a proxy under each of its handlers.
use tcp_udp_proxy.Prelude.{
  is_error, ◌<◌, ℤ, if◌then◌else◌, ◌-ℤ◌, leb_ℤ, ◌≡◌, refl, sym, ap, subst, Bool, true, false,
  Option, none, some, List, [], ◌∷◌, ◌++◌, map, length, if_elim, Pair, done, ◌>>=◌, Runs, Runs-bind,
  Safe, Runs-Safe, ErrorCode, success, operation_aborted, arith,
}
use tcp_udp_proxy.Prelude.Maps.{Eq}
use tcp_udp_proxy.IpProxy.{get_ip_proxy}
use tcp_udp_proxy.IpProxy.Holders.{hold, IsCounted, acquire-IsCounted}
use tcp_udp_proxy.Tcp.Connection.{Link, new_connection}
use tcp_udp_proxy.Tcp.Connection
use tcp_udp_proxy.Tcp.Proxy.{
  Entry, TcpProxy, Listening, stop_entry, start_accept, close, async_wait, start, stop, flush_round,
  handle_wait, accept, handle_accept,
}
use tcp_udp_proxy.IpProxy.Pointers.{Known, get_ip_proxy-Known}
use tcp_udp_proxy.Tcp.Proxy.Sound.{SoundEntry, SoundAll, holders, holders_later, Sound}
use tcp_udp_proxy.Tcp.Proxy.Flush.{All, flush_all-All}

module _ {A : Type 0} ⦃e : Eq A⦄ (bw : Pair ℤ) where
  stop_entry-SoundEntry : (c : Entry A) → SoundEntry bw c → SoundEntry bw (stop_entry c)
  unfolding stop_entry Connection.stop
  stop_entry-SoundEntry c (l, a, k) = (omega arith, omega arith, k)

  stopped-SoundAll : (cs : List (Entry A)) → SoundAll bw cs → SoundAll bw (map stop_entry cs)
  stopped-SoundAll [] h = tt
  stopped-SoundAll (c ∷ cs) (h, k) = (stop_entry-SoundEntry c h, stopped-SoundAll cs k)

  holders_stopped :
      (cs : List (Entry A)) (hs : List A) → holders (map stop_entry cs) hs ≡ holders cs hs
  unfolding stop_entry
  holders_stopped [] hs = refl
  holders_stopped (c ∷ cs) hs = ap (hold c.client_ip) (holders_stopped cs hs)

  SoundAll-append :
      (cs : List (Entry A)) (c : Entry A)
      → SoundAll bw cs
      → SoundEntry bw c
      → SoundAll bw (cs ++ c ∷ [])
  SoundAll-append [] c h k = (k, tt)
  SoundAll-append (d ∷ ds) c (h, hs) k = (h, SoundAll-append ds c hs k)

  holders_new :
      (cs : List (Entry A)) (c : Entry A) (hs : List A)
      → holders (cs ++ c ∷ []) hs ≡ holders cs (hold c.client_ip hs)
  holders_new [] c hs = refl
  holders_new (d ∷ ds) c hs = ap (hold d.client_ip) (holders_new ds c hs)

module _ {E A : Type 0} ⦃e : Eq A⦄ (hs : List A) where
  abbrev Kept : TcpProxy E A → Type 0
  Kept p = Sound p hs

  close-Sound : (p : TcpProxy E A) → p.close_flag ≡ true → Sound p hs → Runs Kept (close p)
  unfolding close
  close-Sound p c h =
      if_elim (Runs Kept) p.close_flag _ _
        (λ _. record {
          entries = stopped-SoundAll p.ip_proxies.bandwidth p.tcp_connections h.entries;
          accounts =
              subst (IsCounted p.ip_proxies)
                (sym (holders_stopped p.ip_proxies.bandwidth p.tcp_connections hs)) h.accounts;
        })
        (λ o. absurd (cc))

  async_wait-Sound : (ec : ErrorCode) (p : TcpProxy E A) → Sound p hs → Runs Kept (async_wait ec p)
  unfolding async_wait
  async_wait-Sound ec p h =
      if_elim (Runs Kept) (is_error ec) _ _
        (λ _.
          close-Sound (record p { close_flag = true; waits = 0 }) refl
            (record { entries = h.entries; accounts = h.accounts }))
        (λ _. record { entries = h.entries; accounts = h.accounts })

  pub start-Sound :
      (r : Listening) (p : TcpProxy E A) → Sound p hs → Runs (λ q. Sound q.1 hs) (start r p)
  unfolding start start_accept
  start-Sound r p h =
      if_elim (Runs Started) (is_error r.open_ec) _ _ (λ _. h)
        λ _.
          if_elim (Runs Started) (is_error r.option_ec) _ _ (λ _. opened)
            λ _.
              if_elim (Runs Started) (is_error r.bind_ec) _ _ (λ _. opened)
                λ _.
                  if_elim (Runs Started) (is_error r.listen_ec) _ _ (λ _. opened)
                    λ _.
                      Runs-bind Kept Started _ _
                        (async_wait-Sound r.timer_ec
                          (start_accept (record p { acceptor_open = true }))
                          (record { entries = h.entries; accounts = h.accounts }))
                        λ q k. k
    where
      Started : Bool × TcpProxy E A → Type 0
      Started q = Sound q.1 hs

      opened : Sound (record p { acceptor_open = true }) hs
      opened = record { entries = h.entries; accounts = h.accounts }

  flush_round-Sound :
      (ms tcp_timeout : ℤ) (p : TcpProxy E A)
      → Sound p hs
      → Runs Kept (flush_round ms tcp_timeout p)
  unfolding flush_round
  flush_round-Sound ms tcp_timeout p h =
      Runs-bind (λ r. All _ _ (ms -ℤ tcp_timeout) p.tcp_connections p.ip_proxies hs r.0 r.1) Kept _
        _
        (flush_all-All _ _ (ms -ℤ tcp_timeout) p.tcp_connections p.ip_proxies hs refl h.entries
          h.accounts)
        λ (ds, t) a. record {
          entries = subst (λ b. SoundAll b ds) (sym a.bandwidth) a.entries;
          accounts = a.accounts;
        }

  -- On a sound proxy the timer's handler ends without a fault and leaves a sound proxy, whatever
  -- the errors of the wait and of the timer, the time, the time-out and the flags are.
  pub handle_wait-Sound :
      (ec timer_ec : ErrorCode) (ms tcp_timeout : ℤ) (p : TcpProxy E A)
      → Sound p hs
      → Runs (λ q. Sound q hs) (handle_wait ec timer_ec ms tcp_timeout p)
  unfolding handle_wait
  handle_wait-Sound ec timer_ec ms tcp_timeout p h =
      if_elim (Runs Kept) (is_error ec) _ _ (λ _. h)
        λ _.
          if_elim (Runs Kept) p.close_flag _ _ (λ c. close-Sound p c h)
            λ _. Runs-bind Kept Kept _ _ (async_wait-Sound timer_ec p h) λ q k.
              if_elim (Runs Kept) (leb_ℤ ms q.last_flush_tm) _ _
                (λ _. record { entries = k.entries; accounts = k.accounts })
                (λ _. flush_round-Sound ms tcp_timeout q k)

  accept-Sound :
      (remote : Option A) (p : TcpProxy E A)
      → length (holders p.tcp_connections hs) < 2147483647
      → Sound p hs
      → Safe Kept (accept remote p)
  unfolding accept start_accept Connection.start new_connection
  accept-Sound none p n h = tt
  accept-Sound (some a) p n h = record {
    entries =
        subst (λ b. SoundAll b (p.tcp_connections ++ c ∷ [])) (sym k.1)
          (SoundAll-append p.ip_proxies.bandwidth p.tcp_connections c h.entries
            (omega arith, omega arith, k.0));
    accounts =
        subst (IsCounted (get_ip_proxy a p.ip_proxies).1)
          (sym (holders_new p.ip_proxies.bandwidth p.tcp_connections c hs))
          (holders_later (get_ip_proxy a p.ip_proxies).1 c.client_ip p.tcp_connections hs
            (acquire-IsCounted p.ip_proxies (holders p.tcp_connections hs) a n h.accounts));
  }
    where
      k :
          Known p.ip_proxies.bandwidth (get_ip_proxy a p.ip_proxies).0
          × ((get_ip_proxy a p.ip_proxies).1.bandwidth ≡ p.ip_proxies.bandwidth)
      k = get_ip_proxy-Known a p.ip_proxies

      l : Link
      l = Connection.start (new_connection p.now none)

      c : Entry A
      c = record { client_ip = (get_ip_proxy a p.ip_proxies).0; conn = l.conn; sockets = l.sockets }

  reopened-Sound :
      (r : Listening) (p : TcpProxy E A)
      → Sound p hs
      → Safe Kept (
          start r (record p { acceptor_open = false }) >>= λ q.
          done (if q.0 then q.1 else stop q.1))
  unfolding stop
  reopened-Sound r p h = Runs-Safe Kept _ (
      Runs-bind (λ q. Sound q.1 hs) Kept _ _
        (start-Sound r (record p { acceptor_open = false })
          (record { entries = h.entries; accounts = h.accounts }))
        λ q k.
          if_elim Kept q.0 _ _ (λ _. k)
            (λ _. record { entries = k.entries; accounts = k.accounts }))

  -- On a sound proxy, with fewer than 2 ^ 31 - 1 holders of addresses, the handler of an accept
  -- either leaves a sound proxy or ends in the exception of `remote_endpoint()`, whatever the
  -- errors of the accept and of the calls that open the port again are.
  pub handle_accept-Sound :
      (ec : ErrorCode) (r : Listening) (remote : Option A) (p : TcpProxy E A)
      → length (holders p.tcp_connections hs) < 2147483647
      → Sound p hs
      → Safe (λ q. Sound q hs) (handle_accept ec r remote p)
  unfolding handle_accept
  handle_accept-Sound success r remote p n h = accept-Sound remote p n h
  handle_accept-Sound operation_aborted r remote p n h = h
  handle_accept-Sound _ r remote p n h = reopened-Sound r p h
