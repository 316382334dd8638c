-- ===== src/Udp/Server/Feeds.antt =====
-- src/udp_proxy.cpp: what a completed receive leaves of an endpoint.
use tcp_udp_proxy.Prelude.{ltb}
use tcp_udp_proxy.Prelude.{
  ℤ, ◌≡◌, ◌≢◌, refl, sym, subst, ◌∙◌, List, [], ◌∷◌, ◌++◌, length, if_elim, ◌⊎◌, inl, inr, Pair,
}
use tcp_udp_proxy.IpProxy.Pointers.{Known}
use tcp_udp_proxy.Udp.Endpoint.{UdpMsg, UdpEndpointProxy}
use tcp_udp_proxy.Udp.Server.Sound.{Good, Quiet, Good-Alike}
use tcp_udp_proxy.Udp.Endpoint.{Opening}
use tcp_udp_proxy.Udp.Server.Sound.{restart-Alike}
use tcp_udp_proxy.Prelude.{
  ErrorCode, success, operation_aborted, connection_refused, connection_reset, other_error,
}
use tcp_udp_proxy.Config.{max_udp_msg_queue_size}
use tcp_udp_proxy.Udp.Endpoint.{
  Datagram, handle_recv, recv_done, push_recv, received, async_recv, dropped,
}

Quiet-append :
    {E : Type 0} (k : E) (m : UdpMsg E) (ms : List (UdpMsg E))
    → m.src ≢ k
    → Quiet k ms
    → Quiet k (ms ++ m ∷ [])
Quiet-append k m [] n q = (n, tt)
Quiet-append k m (x ∷ ms) n (u, q) = (u, Quiet-append k m ms n q)

module _ {E A : Type 0} where
  -- A datagram leaves an endpoint its flags and pointer, and its queue grows at most by that
  -- datagram.
  abbrev pub Fed : E → UdpEndpointProxy E A → UdpEndpointProxy E A → Type 0
  Fed from x y =
      (y.client_ip ≡ x.client_ip)
      × (y.server_flag ≡ x.server_flag)
      × ((y.recv_queue ≡ x.recv_queue)
          ⊎ ((m : UdpMsg E) × (m.src ≡ from) × (y.recv_queue ≡ x.recv_queue ++ m ∷ [])))

  push_recv-Fed : (m : UdpMsg E) (x : UdpEndpointProxy E A) → Fed m.src x (push_recv m x)
  unfolding push_recv async_recv
  push_recv-Fed m x =
      if_elim (Fed m.src x) (ltb max_udp_msg_queue_size (length (x.recv_queue ++ m ∷ []))) _ _
        (λ _. (refl, refl, inr (m, refl, refl))) (λ _. (refl, refl, inr (m, refl, refl)))

  pub handle_recv-Fed :
      (ec : ErrorCode) (now drawn : ℤ) (o : Opening) (d : Datagram E) (x : UdpEndpointProxy E A)
      → Fed d.from x (handle_recv ec now drawn o d x)
  unfolding handle_recv recv_done received async_recv
  handle_recv-Fed success now drawn o d x =
      if_elim (Fed d.from x) (dropped x.proxy_rule.drop_prob drawn) _ _
        (λ _. (refl, refl, inl refl))
        (λ _.
          push_recv-Fed (received d (record x { active_tm = now })) (record x { active_tm = now }))
  handle_recv-Fed operation_aborted now drawn o d x = (refl, refl, inl refl)
  handle_recv-Fed connection_refused now drawn o d x = (refl, refl, inl refl)
  handle_recv-Fed connection_reset now drawn o d x = (refl, refl, inl refl)
  handle_recv-Fed (other_error n) now drawn o d x =
      let (p, f, w) = restart-Alike o x in (p, f, inl w)

  pub Good-Fed :
      (bw : Pair ℤ) (k from : E) (x y : UdpEndpointProxy E A)
      → from ≢ k
      → Fed from x y
      → Good bw k x
      → Good bw k y
  Good-Fed bw k from x y n (p, f, inl w) g = Good-Alike bw k y x (p, f, w) g
  Good-Fed bw k from x y n (p, f, inr (m, s, w)) (g, q) = (
    λ h. subst (Known bw) (sym p) (g (sym f ∙ h)),
    subst (Quiet k) (sym w) (Quiet-append k m x.recv_queue (λ h. n (sym s ∙ h)) q),
  )
