-- ===== src/Tcp/Proxy/Flush.antt =====
-- Which connections a round of the timer keeps, and what it changes in them.
use tcp_udp_proxy.Prelude.{
  ℤ, ◌-ℤ◌, ◌<ℤ◌, leb_ℤ, success, ◌≡◌, refl, sym, ◌∙◌, subst, Bool, true, false, Option, List, [],
  ◌∷◌, if◌then◌else◌, if_elim, done, Runs, Runs-bind, Safe-Runs, arith,
}
use tcp_udp_proxy.Prelude.Maps.{Eq}
use tcp_udp_proxy.IpProxy.{IpProxy, IpProxies}
use tcp_udp_proxy.IpProxy.Holders.{hold, IsCounted}
use tcp_udp_proxy.Tcp.Connection.{View}
use tcp_udp_proxy.Tcp.Connection.Invariant.{Inv}
use tcp_udp_proxy.Tcp.Connection.Preserved.{flush_msgs-Inv}
use tcp_udp_proxy.Tcp.Connection.Untouched.{Untouched, keeps, Answer, flush_msgs-Answer}
use tcp_udp_proxy.Tcp.Proxy.{
  Entry, flush_one, TcpProxy, flush_all, handle_wait, async_wait, flush_round,
}
use tcp_udp_proxy.IpProxy.Pointers.{
  store, destroy, ref_of, Loaded, load-Loaded, store-IsCounted, store_bandwidth, destroy-IsCounted,
}
use tcp_udp_proxy.Tcp.Proxy.Sound.{
  link, SoundEntry, SoundAll, holders, Sound, entry-Inv, Inv-entry, Loaded-Known, holders_later,
  holders_earlier,
}

abbrev pub keeps_entry : {A : Type 0} → ℤ → Entry A → Bool
keeps_entry expire_time c = keeps expire_time c.conn

-- The same client, and nothing changed but what a flush may change.
abbrev pub SameEntry : {A : Type 0} → Entry A → Entry A → Type 0
SameEntry c d = (d.client_ip ≡ c.client_ip) × Untouched c.conn d.conn

-- The second list is the first without the connections that are not kept, in the same order.
pub data Survivors {A : Type 0} (expire_time : ℤ) : List (Entry A) → List (Entry A) → Type 0 where
  nil : Survivors expire_time [] []
  stays :
      {c d : Entry A} {cs ds : List (Entry A)}
      → keeps_entry expire_time c ≡ true
      → SameEntry c d
      → Survivors expire_time cs ds
      → Survivors expire_time (c ∷ cs) (d ∷ ds)
  goes :
      {c : Entry A} {cs ds : List (Entry A)}
      → keeps_entry expire_time c ≡ false
      → Survivors expire_time cs ds
      → Survivors expire_time (c ∷ cs) ds

module _ {A : Type 0} ⦃e : Eq A⦄ (v : View) (bytes expire_time : ℤ) where
  -- What the flush of one connection leaves, beside the other holders hs.
  pub record One (c : Entry A) (s : IpProxies A) (hs : List A) (kept : Bool) (d : Entry A)
      (t : IpProxies A) : Type 0 where
    pub answer : kept ≡ keeps_entry expire_time c
    pub same : kept ≡ true → SameEntry c d
    pub same_ip : d.client_ip ≡ c.client_ip
    pub entry : SoundEntry s.bandwidth d
    pub bandwidth : t.bandwidth ≡ s.bandwidth
    pub accounts : IsCounted t (if kept then hold c.client_ip hs else hs)

  settle :
      (c : Entry A) (s : IpProxies A) (hs : List A) (i j : Option IpProxy) (kept : Bool)
      → Loaded s c.client_ip i
      → ref_of j ≡ ref_of i
      → IsCounted s (hold c.client_ip hs)
      → Runs
          (λ t.
            (t.bandwidth ≡ s.bandwidth) × IsCounted t (if kept then hold c.client_ip hs else hs))
          (if kept
            then done (store c.client_ip j s)
            else destroy c.client_ip (store c.client_ip j s))
  settle c s hs i j true l r k = (
    store_bandwidth s c.client_ip j,
    store-IsCounted s c.client_ip i j (hold c.client_ip hs) l r k,
  )
  settle c s hs i j false l r k =
      subst
        (λ b.
          Runs (λ t. (t.bandwidth ≡ b) × IsCounted t hs)
            (destroy c.client_ip (store c.client_ip j s)))
        (store_bandwidth s c.client_ip j)
        (destroy-IsCounted (store c.client_ip j s) c.client_ip hs
          (store-IsCounted s c.client_ip i j (hold c.client_ip hs) l r k))

  flush_one-One :
      (c : Entry A) (s : IpProxies A) (hs : List A)
      → v.ip_bandwidth ≡ s.bandwidth
      → SoundEntry s.bandwidth c
      → IsCounted s (hold c.client_ip hs)
      → Runs (λ r. One c s hs r.0 r.1 r.2) (flush_one v bytes expire_time c s)
  unfolding flush_one
  flush_one-One c s hs b i k =
      Runs-bind (Loaded s c.client_ip) _ _ _ (load-Loaded s c.client_ip hs k) λ ip l.
        Runs-bind (λ r. Inv v.ip_bandwidth r.1 × Answer expire_time (link c ip) r) _ _ _
          (Safe-Runs (λ r. Inv v.ip_bandwidth r.1) (Answer expire_time (link c ip)) _
            (flush_msgs-Inv v bytes expire_time (link c ip) (
              subst (λ x. Inv x (link c ip)) (sym b)
                (entry-Inv s.bandwidth c ip (Loaded-Known s s.bandwidth c.client_ip ip l) i)))
            (flush_msgs-Answer v bytes expire_time (link c ip)))
          λ (kept, m) (j, (a, u, r)).
            Runs-bind
              (λ t.
                (t.bandwidth ≡ s.bandwidth)
                × IsCounted t (if kept then hold c.client_ip hs else hs))
              _ _ _ (settle c s hs ip m.client_ip kept l r k)
              λ t (q, n). record {
                answer = a;
                same = λ h. (refl, u h);
                same_ip = refl;
                entry =
                    Inv-entry s.bandwidth (record c { conn = m.conn; sockets = m.sockets })
                      m.client_ip i.2 (subst (λ x. Inv x m) b j);
                bandwidth = q;
                accounts = n;
              }

  -- What the loop leaves of the connections cs and of `ip_proxies`.
  pub record All (cs : List (Entry A)) (s : IpProxies A) (hs : List A) (ds : List (Entry A))
      (t : IpProxies A) : Type 0 where
    pub survivors : Survivors expire_time cs ds
    pub entries : SoundAll s.bandwidth ds
    pub bandwidth : t.bandwidth ≡ s.bandwidth
    pub accounts : IsCounted t (holders ds hs)

  extend :
      (c d : Entry A) (cs ds : List (Entry A)) (s t u : IpProxies A) (hs : List A) (kept : Bool)
      → One c s (holders cs hs) kept d t
      → All cs t (if kept then hold c.client_ip hs else hs) ds u
      → All (c ∷ cs) s hs (if kept then d ∷ ds else ds) u
  extend c d cs ds s t u hs true o a = record {
    survivors = stays (sym o.answer) (o.same refl) a.survivors;
    entries = (o.entry, subst (λ b. SoundAll b ds) o.bandwidth a.entries);
    bandwidth = a.bandwidth ∙ o.bandwidth;
    accounts =
        subst (λ i. IsCounted u (hold i (holders ds hs))) (sym o.same_ip)
          (holders_earlier u c.client_ip ds hs a.accounts);
  }
  extend c d cs ds s t u hs false o a = record {
    survivors = goes (sym o.answer) a.survivors;
    entries = subst (λ b. SoundAll b ds) o.bandwidth a.entries;
    bandwidth = a.bandwidth ∙ o.bandwidth;
    accounts = a.accounts;
  }

  rest_accounts :
      (t : IpProxies A) (o : Option A) (cs : List (Entry A)) (hs : List A) (kept : Bool)
      → IsCounted t (if kept then hold o (holders cs hs) else holders cs hs)
      → IsCounted t (holders cs (if kept then hold o hs else hs))
  rest_accounts t o cs hs true i = holders_later t o cs hs i
  rest_accounts t o cs hs false i = i

  pub flush_all-All :
      (cs : List (Entry A)) (s : IpProxies A) (hs : List A)
      → v.ip_bandwidth ≡ s.bandwidth
      → SoundAll s.bandwidth cs
      → IsCounted s (holders cs hs)
      → Runs (λ r. All cs s hs r.0 r.1) (flush_all v bytes expire_time cs s)
  unfolding flush_all
  flush_all-All [] s hs b i k = record {
    survivors = nil;
    entries = tt;
    bandwidth = refl;
    accounts = k;
  }
  flush_all-All (c ∷ cs) s hs b (i, is) k =
      Runs-bind (λ r. One c s (holders cs hs) r.0 r.1 r.2) _ _ _
        (flush_one-One c s (holders cs hs) b i k)
        λ (kept, d, t) o.
          Runs-bind (λ r. All cs t (if kept then hold c.client_ip hs else hs) r.0 r.1) _ _ _
            (flush_all-All cs t (if kept then hold c.client_ip hs else hs) (b ∙ sym o.bandwidth)
              (subst (λ x. SoundAll x cs) (sym o.bandwidth) is)
              (rest_accounts t c.client_ip cs hs kept o.accounts))
            λ (ds, u) a. extend c d cs ds s t u hs kept o a

-- What a round leaves, at the time ms: the connections that remain are, in the same order, those
-- that were not closed and were active within `tcp_timeout`, each unchanged but for its sockets,
-- its allowance and its writing flags; the time of the round is recorded and the timer armed; the
-- rule, the acceptor and `close_flag` are as before.
pub record RoundOf {E A : Type 0} (ms tcp_timeout : ℤ) (p q : TcpProxy E A) : Type 0 where
  pub survivors : Survivors (ms -ℤ tcp_timeout) p.tcp_connections q.tcp_connections
  pub now_is : q.now ≡ ms
  pub last_is : q.last_flush_tm ≡ ms
  pub armed : q.waits ≡ 1
  pub same_rule : q.proxy_rule ≡ p.proxy_rule
  pub same_acceptor : q.acceptor_open ≡ p.acceptor_open
  pub same_flag : q.close_flag ≡ p.close_flag

-- On a sound proxy that is not being closed, at a time later than the last round, the timer's
-- handler ends without a fault when the timer can be armed again. It leaves a sound proxy, whose
-- connections are, in the same order, those that were not closed and were active within
-- `tcp_timeout`, each unchanged but for its sockets, its allowance and its writing flags; the time
-- of the round is recorded and the timer armed, and the rule, the acceptor and `close_flag` are as
-- before.
pub handle_wait-RoundOf :
    {E A : Type 0} ⦃e : Eq A⦄ (ms tcp_timeout : ℤ) (p : TcpProxy E A) (hs : List A)
    → Sound p hs
    → p.close_flag ≡ false
    → p.last_flush_tm <ℤ ms
    → Runs
        (λ q. RoundOf ms tcp_timeout p q × Sound q hs)
        (handle_wait success success ms tcp_timeout p)
unfolding handle_wait async_wait flush_round
handle_wait-RoundOf {E} {A} ms tcp_timeout p hs ok c lt =
    if_elim (Runs Round) p.close_flag _ _ (λ o. absurd (cc))
      λ _.
        if_elim (Runs Round) (leb_ℤ ms p.last_flush_tm) _ _ (λ o. absurd (ground arith))
          λ _.
            Runs-bind (λ r. All _ _ (ms -ℤ tcp_timeout) p.tcp_connections p.ip_proxies hs r.0 r.1)
              Round _ _
              (flush_all-All _ _ (ms -ℤ tcp_timeout) p.tcp_connections p.ip_proxies hs refl
                ok.entries ok.accounts)
              λ (ds, t) a. (
                record {
                  survivors = a.survivors;
                  now_is = refl;
                  last_is = refl;
                  armed = refl;
                  same_rule = refl;
                  same_acceptor = refl;
                  same_flag = refl;
                },
                record {
                  entries = subst (λ b. SoundAll b ds) (sym a.bandwidth) a.entries;
                  accounts = a.accounts;
                },
              )
  where
    Round : TcpProxy E A → Type 0
    Round q = RoundOf ms tcp_timeout p q × Sound q hs
